-- ===== src/Signature.antt =====
-- src/webhook_signature.cpp.
pub mod Params
pub mod Signing
pub mod Verify
