-- ===== src/Auth.antt =====
-- backend/internal/auth: the session store and the authentication service.
pub mod Store
pub mod Service
pub mod Resets
mod Tests
