-- ===== src/Enrollment.antt =====
-- backend/internal/enrollment: annual enrollments (matriculas) under a program's yearly quota.
pub mod Errors
pub mod Queries
pub mod Repository
pub mod Invariant
pub mod Service
mod Tests
