-- ===== src/Reports.antt =====
-- backend/internal/reports: the reports of grades and academic records.
pub mod Errors
pub mod Queries
pub mod Builders
pub mod Grouping
pub mod Service
pub mod Cache
pub mod Scope
pub mod SummaryQueries
pub mod Summaries
mod Tests
