-- ===== src/Schemas.antt =====
-- The typed capabilities: the classes below src/capabilities, generated from one template, and the
-- factories that choose among them.
pub mod Parts
pub mod Standard
pub mod Samsungce
pub mod Custom
pub mod Samsungvd
pub mod Sec
pub mod Samsungim
pub mod Hca
pub mod StandardTable
pub mod ProprietaryTable
pub mod Factory
pub mod Agreement
pub mod Requests
