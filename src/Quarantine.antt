-- ===== src/Quarantine.antt =====
-- internal/quarantine/quarantine.go: moving files away, and back.
mod Defs
pub mod Names
pub mod Move
pub mod Safety
pub mod Records
pub mod Restore
pub mod Purge
mod Actions
pub mod Kept
pub mod Isolation
pub mod RoundTrip
unfoldable pub use Defs.*
