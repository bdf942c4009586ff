-- ===== src/Webhooks.antt =====
-- The receivers of provider events (apps/api/src/webhooks).
pub mod ZeroHash
pub mod Users
pub mod Onfido
pub mod Chainalysis
pub mod Returning
