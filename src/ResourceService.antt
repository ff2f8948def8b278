-- ===== src/ResourceService.antt =====
-- backend/apps/resource-service/src: resources and the storage that they take up.
mod Tables
mod Repositories
mod Resources
mod PlanLimits
mod Lists
pub mod Listing
mod Tests
pub mod StorageCount
pub mod Privacy
pub use Tables.*
unfoldable pub use Repositories.*
unfoldable pub use Resources.*
unfoldable pub use PlanLimits.*
unfoldable pub use Lists.*
