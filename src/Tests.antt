-- ===== src/Tests.antt =====
-- Witnesses of the theorems, at concrete inputs.
pub mod SampleJson
pub mod Fixtures
pub mod Codecs
pub mod Authorization
pub mod Signatures
pub mod Clients
pub mod Subscribing
pub mod Silent
pub mod Devices
pub mod Messages
pub mod Sessions
