-- ===== src/Detections.antt =====
-- internal/detections/detections.go: the queue of matches that wait for a review.
mod Defs
pub mod Queue
unfoldable pub use Defs.*
