-- ===== src/UserService/SeatCount/Roles.antt =====
-- A change of role moves no seat.
use multi_tenant_subscriptio.Base.{
  Bool, Option-cases, arith, count-update_where_same, first, inl, inr, refl, some, ℕ, ◌&&◌, ◌==◌,
}
use multi_tenant_subscriptio.Common.{TenantContextPayload, UserRole}
use multi_tenant_subscriptio.Database.{caller}
use multi_tenant_subscriptio.UserService.SeatCount.{
  AfterWork, IsCounted, holders, holds_as_user, scoped, seats_of,
}
use multi_tenant_subscriptio.UserService.Tables.{User, UserDb}
use multi_tenant_subscriptio.UserService.Users.{update_role_work}

abbrev own_user : ℕ → ℕ → User → Bool
own_user o id u = u.organization_id == o && (u.id == id && u.organization_id == o)

pub update_role_work-IsCounted :
    (o drift : ℕ) (p : TenantContextPayload) (user_id : ℕ) (role : UserRole) (d : UserDb)
    → IsCounted o drift d
    → AfterWork
        (IsCounted o drift)
        (update_role_work (caller o p) (some o) user_id role (scoped o d))
unfolding update_role_work holders
update_role_work-IsCounted o drift p user_id role d h =
    elim (Option-cases (first (own_user o user_id) d.users)) [
      | inl absent ↦ ground arith
      | inr (u, found) ↦ elim (Option-cases (seats_of o d)) [
        | inl missing ↦ ground arith
        | inr (s, row) ↦ ground (
          arith,
          count-update_where_same (holds_as_user o) (own_user o user_id)
              (λ u. record u { role = role }) d.users (λ u h. refl),
        )
      ]
    ]
