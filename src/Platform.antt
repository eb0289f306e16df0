-- ===== src/Platform.antt =====
-- backend/internal/platform: the packages that the domain slices share.
pub mod Pgconv
pub mod Pagination
pub mod Search
pub mod Texts
