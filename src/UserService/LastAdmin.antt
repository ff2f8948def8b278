-- ===== src/UserService/LastAdmin.antt =====
-- An organisation that has an active admin keeps one, request by request.
use multi_tenant_subscriptio.Base.{
  Bool, Option-cases, arith, count, count-update_where_grows, count-update_where_loses,
  count-update_where_spares, count_mono, first, inl, inr, some, ℕ, ◌&&◌, ◌==◌, ◌≤◌,
}
use multi_tenant_subscriptio.Common.{TenantContextPayload, UserRole}
use multi_tenant_subscriptio.Database.{World, caller}
use multi_tenant_subscriptio.UserService.Keys.{HasKeys}
use multi_tenant_subscriptio.UserService.Requests.{committed-keeps, remove_user-db, update_role-db}
use multi_tenant_subscriptio.UserService.SeatCount.{AfterWork, scoped}
use multi_tenant_subscriptio.UserService.Tables.{User, UserDb, is_active, is_admin, removed}
use multi_tenant_subscriptio.UserService.Users.{
  remove_user, remove_work, update_role, update_role_work,
}

abbrev admin_of : ℕ → User → Bool
admin_of o u = u.organization_id == o && (is_active u && is_admin u.role)

-- The active admins of an organisation.
unfoldable pub admins : ℕ → UserDb → ℕ
admins o d = count (admin_of o) d.users

-- As `countActiveAdmins` counts them.
abbrev counted_admin : ℕ → User → Bool
counted_admin o u =
    u.organization_id == o && (u.organization_id == o && is_active u && is_admin u.role)

abbrev named : ℕ → ℕ → User → Bool
named o id u = u.organization_id == o && (u.id == id && u.organization_id == o)

module _ (o : ℕ) (p : TenantContextPayload) (d : UserDb) (keys : HasKeys d)
    (some_admin : 1 ≤ admins o d) where
  named-once : (id : ℕ) → count (named o id) d.users ≤ 1
  named-once id = ground (
    arith,
    keys.user_keys id,
    count_mono (named o id) (λ u. u.id == id) d.users (λ u h. ground arith),
  )

  admins-counted : count (counted_admin o) d.users ≤ count (admin_of o) d.users
  admins-counted = count_mono (counted_admin o) (admin_of o) d.users (λ u h. ground arith)

  pub update_role_work-admins :
      (user_id : ℕ) (role : UserRole)
      → AfterWork
          (λ d. 1 ≤ admins o d)
          (update_role_work (caller o p) (some o) user_id role (scoped o d))
  unfolding update_role_work admins
  update_role_work-admins user_id role = elim (Option-cases (first (named o user_id) d.users)) [
    | inl absent ↦ ground arith
    | inr (u, found) ↦ ground (
      arith,
      named-once user_id,
      admins-counted,
      count-update_where_loses (admin_of o) (named o user_id) (λ u. record u { role = role })
          d.users,
      count-update_where_spares (admin_of o) (named o user_id) (λ u. record u { role = role })
          d.users (named-once user_id) found,
      count-update_where_grows (admin_of o) (named o user_id)
          (λ u. record u { role = UserRole.org_admin }) d.users (λ u h. ground arith),
    )
  ]

  pub remove_work-admins :
      (user_id : ℕ)
      → AfterWork (λ d. 1 ≤ admins o d) (remove_work (caller o p) (some o) user_id (scoped o d))
  unfolding remove_work admins
  remove_work-admins user_id = elim (Option-cases (first (named o user_id) d.users)) [
    | inl absent ↦ ground arith
    | inr (u, found) ↦ ground (
      arith,
      named-once user_id,
      admins-counted,
      count-update_where_loses (admin_of o) (named o user_id) (λ u. record u { status = removed })
          d.users,
      count-update_where_spares (admin_of o) (named o user_id) (λ u. record u { status = removed })
          d.users (named-once user_id) found,
    )
  ]

-- If an organisation has an active admin, it still has one after any request of one of its members
-- to change a role or to remove a user, whether that succeeds or fails.
pub requests-keep_admin :
    (o : ℕ) (p : TenantContextPayload) (w : World UserDb)
    → HasKeys w.db
    → 1 ≤ admins o w.db
    → (user_id : ℕ) (role : UserRole)
    → (1 ≤ admins o (update_role (caller o p) user_id role w).1.db)
      × (1 ≤ admins o (remove_user (caller o p) user_id w).1.db)
requests-keep_admin o p w keys h user_id role = (
  rw (update_role-db o p w user_id role) (
      committed-keeps (λ d. 1 ≤ admins o d) _ w.db h
        (update_role_work-admins o p w.db keys h user_id role)),
  rw (remove_user-db o p w user_id)
      (committed-keeps (λ d. 1 ≤ admins o d) _ w.db h (remove_work-admins o p w.db keys h user_id)),
)
