-- ===== src/Web.antt =====
-- internal/api/middleware.go: which address a request is attributed to, and when a request may
-- change state.
pub mod Forwarded
pub mod Csrf
