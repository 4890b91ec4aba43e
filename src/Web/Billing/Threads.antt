-- ===== src/Web/Billing/Threads.antt =====
-- internal/web/billing/webhook.go when deliveries are handled at once: `upsertSubscription` and
-- `cancelSubscription` one call of the database at a time, and what other deliveries do in between.
mod Defs
pub mod Alone
pub mod Licenses
pub mod AtOnce
unfoldable pub use Defs.*
