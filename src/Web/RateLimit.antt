-- ===== src/Web/RateLimit.antt =====
-- internal/web/ratelimit/ratelimit.go: the sliding-window limiter. Times are nanoseconds.
mod Defs
pub mod Window
pub mod Bounds
unfoldable pub use Defs.*
