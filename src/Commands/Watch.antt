-- ===== src/Commands/Watch.antt =====
-- cmd/avtool/watch.go: the handler of every file that changes, and the command around the watcher.
mod Defs
pub mod Queue
pub mod Live
pub mod Waiting
pub mod Protection
pub mod Drain
pub mod Counts
unfoldable pub use Defs.*
