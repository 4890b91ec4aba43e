-- ===== src/Prompt.antt =====
-- internal/prompt/prompt.go: asking what to do with a match.
mod Defs
pub mod Choices
pub mod Harmless
unfoldable pub use Defs.*
