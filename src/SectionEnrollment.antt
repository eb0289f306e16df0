-- ===== src/SectionEnrollment.antt =====
-- backend/internal/sectionenrollment: inscriptions of paid students into sections.
pub mod Enrollable
pub mod Errors
pub mod Queries
pub mod Repository
pub mod Invariant
pub mod Admission
pub mod Lifecycle
pub mod Service
pub mod Sessions
pub mod Campus
