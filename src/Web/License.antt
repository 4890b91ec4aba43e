-- ===== src/Web/License.antt =====
-- internal/web/license/license.go: license keys, of which only a hash is stored.
mod Defs
pub mod Lifecycle
pub mod Refinement
mod Tables
unfoldable pub use Defs.*
