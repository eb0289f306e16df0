-- ===== src/Access.antt =====
-- backend/internal/authz and the interceptors of backend/internal/auth: who may call what.
pub mod Policy
pub mod Interceptors
mod Tests
