-- ===== src/UserService/Lists.antt =====
-- The queries of user-service that only read: listPage and findRoleByUserId of
-- users/user.repository.ts, listPending of invitations/invitation.repository.ts, and the functions
-- that migrations 1700000000001 and 1700000000004 create.
use mathlib.Core.Option
use multi_tenant_subscriptio.Base.{
  Bool, List, Option, eq_nullable, first, is_none, ltb, none, not, some, ℕ, ◌&&◌, ◌==◌,
}
use multi_tenant_subscriptio.Common.{UserRole}
use multi_tenant_subscriptio.Database.{
  Context, Request, Tx, find_one, find_rows, pure, returned, run_global, tenant_id,
  transaction_for_organization, ◌>>=◌,
}
use multi_tenant_subscriptio.Pagination.{
  CursorPage, CursorQuery, Listing, after_cursor, by_time, fetched, order_desc,
}
use multi_tenant_subscriptio.UserService.Tables.{
  Invitation, User, UserDb, invitations_table, is_active, is_pending, users_table,
}

-- The column `created_at` counts microseconds.
abbrev pub users_listing : Listing User
users_listing = by_time (λ u. u.created_at) (λ u. u.id)

unfoldable pub list_users : Context → CursorQuery → Tx UserDb (CursorPage User)
unfolding tenant_id find_rows
list_users ctx query = do
  organization_id ← tenant_id ctx
  rows ← find_rows users_table (λ u.
      (u.organization_id == organization_id && is_active u)
      && after_cursor users_listing query.cursor u)
  pure (fetched users_listing query rows)

-- The order is that of created_at alone: rows of one time come in any order, here by their ids.
unfoldable pub list_pending : ℕ → Option ℕ → Tx UserDb (List Invitation)
unfolding find_rows
list_pending now organization_id = do
  rows ←
      find_rows invitations_table
        (λ i. eq_nullable i.organization_id organization_id && is_pending i && ltb now i.expires_at)
  pure (order_desc (by_time (λ i. i.created_at) (λ i. i.id)) rows)

-- users.user_exists and users.get_user_organization_id: SECURITY DEFINER, and their owner has
-- BYPASSRLS.
unfoldable pub user_exists : ℕ → Tx UserDb Bool
user_exists id c = (returned (not (is_none (first (λ u. u.id == id) c.tables.users))), c)

unfoldable pub get_user_organization_id : ℕ → Tx UserDb (Option ℕ)
get_user_organization_id id c =
    (returned (Option.map (λ u. u.organization_id) (first (λ u. u.id == id) c.tables.users)), c)

unfoldable pub select_role : ℕ → Tx UserDb (Option UserRole)
unfolding find_one
select_role user_id = do
  row ← find_one users_table (λ u. u.id == user_id && is_active u)
  pure (Option.map (λ u. u.role) row)

unfoldable pub find_role_by_user_id : ℕ → Request UserDb (Option UserRole)
unfolding run_global get_user_organization_id transaction_for_organization select_role
find_role_by_user_id user_id = do
  found ← run_global (get_user_organization_id user_id)
  elim found [
    | none ↦ pure none
    | some organization_id ↦ transaction_for_organization organization_id (select_role user_id)
  ]
