-- ===== src/Web/Request.antt =====
-- internal/web/ratelimit/ratelimit.go's `ClientIP` and internal/web/handlers/consent.go's
-- `clientIP`, `checked` and `normalizePhone`.
pub mod Phone
pub mod ClientIp
pub mod ConsentIp
