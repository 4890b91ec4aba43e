-- ===== src/HashDb.antt =====
-- internal/hashdb/hashdb.go: the table of known-bad hashes.
mod Defs
pub mod Normalize
pub mod Rows
pub mod Merge
pub mod Precedence
pub mod Keys
pub mod Lookup
unfoldable pub use Defs.*
