-- ===== src/SubscriptionService.antt =====
-- backend/apps/subscription-service/src: plans, and the subscription of each organisation.
mod Tables
mod Repositories
mod Subscriptions
mod StorageReconciliation
mod Usage
mod Tests
pub mod PlanChange
pub mod Reconciliation
pub use Tables.*
unfoldable pub use Repositories.*
unfoldable pub use Subscriptions.*
unfoldable pub use StorageReconciliation.*
unfoldable pub use Usage.*
