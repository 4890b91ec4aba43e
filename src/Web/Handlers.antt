-- ===== src/Web/Handlers.antt =====
-- internal/web/handlers: what the service answers.
pub mod Account
pub mod Checkout
pub mod LicenseApi
pub mod Pages
