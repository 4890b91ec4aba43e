-- ===== src/Web/Sessions.antt =====
-- internal/web/auth/sessions.go: the sessions of the users who have logged in.
mod Defs
pub mod Lifetime
unfoldable pub use Defs.*
