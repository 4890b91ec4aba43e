-- ===== src/Scanner.antt =====
-- internal/scanner/scanner.go: hashing files and looking the hashes up.
mod Defs
pub mod Matches
unfoldable pub use Defs.*
