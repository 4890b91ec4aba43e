-- ===== src/Web/Launch.antt =====
-- cmd/avtool-web/main.go: `main` up to the server, and `serveGraceful`.
mod Defs
pub mod Shutdown
unfoldable pub use Defs.*
