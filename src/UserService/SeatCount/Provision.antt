-- ===== src/UserService/SeatCount/Provision.antt =====
-- The seat of the first admin is held, and no counter moves.
use multi_tenant_subscriptio.Base.{
  Bool, Option-cases, [], arith, count, count-append, first_of_count_zero, inl, inr, refl, ℕ, ◌&&◌,
  ◌++◌, ◌+◌, ◌==◌, ◌||◌, ◌∷◌, ◌≡◌,
}
use multi_tenant_subscriptio.Common.{TenantContextPayload, organization_provisioned}
use multi_tenant_subscriptio.Database.{World, caller, returned}
use multi_tenant_subscriptio.UserService.Provisioning.{
  OrganizationProvisionedPayload, first_admin, handle_provisioned,
}
use multi_tenant_subscriptio.UserService.Repositories.{create_user, user_clashes, user_of}
use multi_tenant_subscriptio.UserService.SeatCount.{
  IsCounted, holders, holds_as_user, scoped, seats_of,
}
use multi_tenant_subscriptio.UserService.Tables.{User, UserDb}

abbrev with_admin : ℕ → OrganizationProvisionedPayload → UserDb → UserDb
with_admin now admin d = record d { users = d.users ++ user_of (first_admin admin) now ∷ [] }

-- A user has the id or, in the organisation, the address of the admin.
abbrev pub is_taken_by : OrganizationProvisionedPayload → User → Bool
is_taken_by admin u =
    u.id == admin.admin_user_id
    || (u.organization_id == admin.organization_id && u.email == admin.admin_email)

module _ (drift now : ℕ) (p : TenantContextPayload) (admin : OrganizationProvisionedPayload)
    (w : World UserDb) (fresh : count (is_taken_by admin) w.db.users ≡ 0) where
  create_admin-appends : create_user (first_admin admin) now (scoped admin.organization_id w.db) ≡ (
    returned (user_of (first_admin admin) now),
    scoped admin.organization_id (with_admin now admin w.db),
  )
  unfolding create_user
  create_admin-appends = ground (
    arith,
    first_of_count_zero
        (λ u. u.organization_id == admin.organization_id && u.id == admin.admin_user_id)
        (is_taken_by admin) w.db.users (λ x e. ground arith) fresh,
    first_of_count_zero (user_clashes (first_admin admin)) (is_taken_by admin) w.db.users
        (λ x e. ground arith) fresh,
  )

  handle_provisioned-appends :
      handle_provisioned (caller admin.organization_id p) now organization_provisioned admin w
      ≡ (returned tt, record w { db = with_admin now admin w.db })
  unfolding handle_provisioned
  handle_provisioned-appends = ground (arith, create_admin-appends)

  with_admin-IsCounted :
      IsCounted admin.organization_id drift w.db
      → IsCounted admin.organization_id (drift + 1) (with_admin now admin w.db)
  unfolding holders
  with_admin-IsCounted h = elim (Option-cases (seats_of admin.organization_id w.db)) [
    | inl missing ↦ ground arith
    | inr (s, row) ↦ ground (
      arith,
      count-append (holds_as_user admin.organization_id) w.db.users
          (user_of (first_admin admin) now ∷ []),
    )
  ]

  -- The consumer of OrganizationProvisioned, where no user has the id of the first admin and none of
  -- the organisation the address, returns, publishes nothing and leaves every seat counter alone;
  -- the counter of the organisation is one further behind the seats that its rows hold.
  pub handle_provisioned-IsCounted :
      IsCounted admin.organization_id drift w.db
      → let after =
          handle_provisioned
            (caller admin.organization_id p)
            now
            organization_provisioned
            admin
            w in
        (after.0 ≡ returned tt)
        × (after.1.published ≡ w.published)
        × (after.1.db.subscriptions ≡ w.db.subscriptions)
        × IsCounted admin.organization_id (drift + 1) after.1.db
  handle_provisioned-IsCounted h =
      rw handle_provisioned-appends (refl, refl, refl, with_admin-IsCounted h)
