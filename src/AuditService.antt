-- ===== src/AuditService.antt =====
-- backend/apps/audit-service/src: the record of all events, and who may read it.
mod Tables
mod Repositories
mod Consumers
mod Audit
pub mod Record
pub mod Scope
pub mod Replay
mod Tests
pub use Tables.*
unfoldable pub use Repositories.*
unfoldable pub use Consumers.*
unfoldable pub use Audit.*
