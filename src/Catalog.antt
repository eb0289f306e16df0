-- ===== src/Catalog.antt =====
-- backend/internal/catalog: programs, courses, periods, quotas and sections.
pub mod Errors
pub mod Tables
pub mod Programs
pub mod Terms
pub mod Sections
pub mod Repository
pub mod Service
pub mod Links
pub mod Change
pub mod History
pub mod Offering
pub mod Resizing
pub mod Quotas
pub mod Lists
pub mod Reads
mod Tests
