-- ===== src/Web/Billing.antt =====
-- internal/web/billing/webhook.go: Stripe's events and the licenses that follow from them.
mod Defs
mod Handler
pub mod OneLicense
pub mod Deliveries
pub mod Frame
pub mod Activation
pub mod Refusals
pub mod Threads
unfoldable pub use Defs.*
unfoldable pub use Handler.*
