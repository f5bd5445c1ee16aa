-- ===== src/Auth.antt =====
-- Who may do what: the RBAC assignments of internal/store/auth.go and the middleware of
-- internal/auth/middleware.go.
mod Tests
pub mod Access
pub mod Middleware
