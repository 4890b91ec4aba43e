-- ===== src/Web/Users.antt =====
-- internal/web/auth/users.go: accounts, their passwords and what their owners agreed to.
mod Defs
pub mod Passwords
unfoldable pub use Defs.*
