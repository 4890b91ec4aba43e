-- ===== src/Commands.antt =====
-- cmd/avtool: the commands.
mod Defs
pub mod Root
pub mod Sync
pub mod Add
pub mod Watch
pub mod Scan
pub mod Quarantine
unfoldable pub use Defs.*
