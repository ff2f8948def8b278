-- ===== src/Database.antt =====
-- backend/libs/database/src (TenantAwareDataSource, TenantRepository, the tenant_isolation policy)
-- and TenantContextStore of backend/libs/tenant-context/src/store.
-- A promise is an action on a state. A transaction works on a copy of the tables, which is kept if
-- the work resolves and dropped if it throws.
mod Actions
mod Queries
pub mod Scoping
pub mod Isolation
pub mod Preservation
pub use Actions.*
pub use Queries.{Connection, Table, Tx, sees}
unfoldable pub use Queries.{
  find_one, count_rows, find_rows, update_rows, update_checked, insert_row,
}
pub use Scoping.{World, Request, Context, caller}
unfoldable pub use Scoping.{
  get_or_throw, tenant_id, run_scoped, transaction, run_global, transaction_for_organization,
  transaction_with_deferred_scope, set_scope, publish,
}
