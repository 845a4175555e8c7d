-- ===== src/Session.antt =====
-- What `Client` (src/client.cpp) does with its parts together: the devices it hands out, and the worker of
-- the external-tokens mode.
pub mod Devices
pub mod Worker
pub mod Places
pub mod Authentication
pub mod AllDevices
