-- ===== src/TenantService.antt =====
-- backend/apps/tenant-service/src: organisations, and the saga that onboards one.
mod Tables
mod Repositories
mod Slugs
mod Onboarding
mod Organizations
pub mod Slug
pub mod Resumption
mod Tests
pub use Tables.*
unfoldable pub use Repositories.*
unfoldable pub use Slugs.*
unfoldable pub use Onboarding.*
unfoldable pub use Organizations.*
