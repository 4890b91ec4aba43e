-- ===== src/Web/Server.antt =====
-- cmd/avtool-web/main.go: the routes of the service, with their middleware.
mod Defs
pub mod Guards
pub mod Frame
pub mod Sound
pub mod Invariant
pub mod Requests
pub mod Licensing
pub mod Logins
pub mod Signups
pub mod Limits
unfoldable pub use Defs.*
