-- ===== src/HttpApi/Setup.antt =====
-- The wizard that sets a fresh installation up: internal/httpapi/setup_handlers.go and
-- internal/httpapi/verify_poll.go.
pub mod Limiter
pub mod Login
pub mod Verify
pub mod Create
pub mod Status
pub mod Closed
