-- ===== src/Watcher.antt =====
-- internal/watcher/watcher.go: changes of files, and the handler's calls that follow.
mod Defs
pub mod Timers
pub mod Invariant
pub mod Coverage
pub mod Drain
unfoldable pub use Defs.*
