-- ===== src/Web.antt =====
-- The server side of the web application (apps/web/src/app/api/gr/_lib).
pub mod Js
pub mod RequestControls
pub mod Cards
