-- ===== src/Review.antt =====
-- cmd/avtool/review.go: going through the queue of detections.
mod Defs
pub mod Stale
unfoldable pub use Defs.*
