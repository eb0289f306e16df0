-- ===== src/Grades.antt =====
-- backend/internal/grades: evaluation schemes, grades, and the weighted final.
pub mod Errors
pub mod Queries
pub mod Pairing
pub mod Rat
pub mod Repository
pub mod Final
pub mod Gradebook
pub mod Numerics
pub mod Schemes
pub mod Service
pub mod Versions
pub mod Weights
mod Tests
