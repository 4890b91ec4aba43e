-- ===== src/Web.antt =====
-- internal/web and cmd/avtool-web: the service that sells and checks licenses.
pub mod World
pub mod Config
pub mod Users
pub mod License
pub mod Billing
pub mod Request
pub mod Sessions
pub mod RateLimit
pub mod Http
pub mod Middleware
pub mod Handlers
pub mod Server
pub mod Launch
