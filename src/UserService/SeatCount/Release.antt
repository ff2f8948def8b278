-- ===== src/UserService/SeatCount/Release.antt =====
-- `revokeInvitation` and `removeUser` give back the one seat that the row held.
use multi_tenant_subscriptio.Base.{
  Bool, Bool-cases, Option-cases, arith, count-update_where_one, count_mono, first, first_holds,
  inl, inr, negsuc, some, true, update_where, ℕ, ◌&&◌, ◌+◌, ◌==◌, ◌∙◌, ◌≡◌, ◌⊎◌,
}
use multi_tenant_subscriptio.Common.{TenantContextPayload, last_admin}
use multi_tenant_subscriptio.Database.{caller, thrown}
use multi_tenant_subscriptio.UserService.Keys.{HasKeys}
use multi_tenant_subscriptio.UserService.Repositories.{adjust_used_seats}
use multi_tenant_subscriptio.UserService.SeatCount.{
  AfterWork, IsCounted, adjust-IsCounted, first-own_row, holders, holds_as_invitation,
  holds_as_user, own_row, scoped, seats_of,
}
use multi_tenant_subscriptio.UserService.Tables.{
  Invitation, SubscriptionSeatView, User, UserDb, is_active, is_pending, removed,
}
use multi_tenant_subscriptio.UserService.Users.{remove_work, revoke_work}

-- The policy, and the WHERE clause of `findById` and of the UPDATE that follows it.
abbrev pub invitation_key : ℕ → ℕ → Invitation → Bool
invitation_key o id i = i.organization_id == o && (i.id == id && i.organization_id == o)

abbrev user_key : ℕ → ℕ → User → Bool
user_key o id u = u.organization_id == o && (u.id == id && u.organization_id == o)

abbrev pub revoked : ℕ → Invitation → Invitation
revoked now i = record i { revoked_at = some now }

abbrev pub with_revoked : ℕ → ℕ → ℕ → UserDb → UserDb
with_revoked o now id d = record d {
  invitations = update_where (invitation_key o id) (revoked now) d.invitations;
}

abbrev left : User → User
left u = record u { status = removed }

abbrev with_removed : ℕ → ℕ → UserDb → UserDb
with_removed o id d = record d { users = update_where (user_key o id) left d.users }

pub holders-revoked :
    (o now id : ℕ) (d : UserDb) (i : Invitation)
    → HasKeys d
    → first (invitation_key o id) d.invitations ≡ some i
    → holds_as_invitation o i ≡ true
    → holders o (with_revoked o now id d) + 1 ≡ holders o d
unfolding holders
holders-revoked o now id d i keys found holds = ground (
  arith,
  count-update_where_one (holds_as_invitation o) (invitation_key o id) (revoked now) d.invitations
      (λ y h. ground arith)
      (ground (
        arith,
        keys.invitation_keys id,
        count_mono (invitation_key o id) (λ i. i.id == id) d.invitations (λ x h. ground arith),
      ))
      found holds,
)

holders-removed :
    (o id : ℕ) (d : UserDb) (u : User)
    → HasKeys d
    → first (user_key o id) d.users ≡ some u
    → holds_as_user o u ≡ true
    → holders o (with_removed o id d) + 1 ≡ holders o d
unfolding holders
holders-removed o id d u keys found holds = ground (
  arith,
  count-update_where_one (holds_as_user o) (user_key o id) left d.users (λ y h. ground arith)
      (ground (
        arith,
        keys.user_keys id,
        count_mono (user_key o id) (λ u. u.id == id) d.users (λ x h. ground arith),
      ))
      found holds,
)

module _ (o id : ℕ) (p : TenantContextPayload) (d : UserDb) (s : SubscriptionSeatView)
    (row : first (own_row o) d.subscriptions ≡ some s) where
  revoke_work-eq :
      (now : ℕ) (i : Invitation)
      → first (invitation_key o id) d.invitations ≡ some i
      → is_pending i ≡ true
      → revoke_work (caller o p) now (some o) id (scoped o d)
        ≡ adjust_used_seats (some o) (negsuc 0) (scoped o (with_revoked o now id d))
  unfolding revoke_work
  revoke_work-eq now i found pending = ground arith

  -- A removal of the last admin throws before that.
  remove_work-cases :
      (u : User)
      → first (user_key o id) d.users ≡ some u
      → is_active u ≡ true
      → (remove_work (caller o p) (some o) id (scoped o d) ≡ (thrown last_admin, scoped o d))
        ⊎ (remove_work (caller o p) (some o) id (scoped o d)
            ≡ adjust_used_seats (some o) (negsuc 0) (scoped o (with_removed o id d)))
  unfolding remove_work
  remove_work-cases u found here = ground arith

module _ (o drift : ℕ) (p : TenantContextPayload) (d : UserDb) (keys : HasKeys d)
    (h : IsCounted o drift d) where
  pub revoke_work-IsCounted :
      (now id : ℕ)
      → AfterWork (IsCounted o drift) (revoke_work (caller o p) now (some o) id (scoped o d))
  unfolding revoke_work
  revoke_work-IsCounted now id = elim (Option-cases (seats_of o d)) [
    | inl missing ↦ ground (arith, first-own_row o d.subscriptions)
    | inr (s, row) ↦ elim (Option-cases (first (invitation_key o id) d.invitations)) [
      | inl absent ↦ ground arith
      | inr (i, found) ↦ elim (Bool-cases (is_pending i)) [
        | inr spent ↦ ground arith
        | inl pending ↦
            rw
              (revoke_work-eq o id p d s (first-own_row o d.subscriptions ∙ row) now i found
                pending)
              (adjust-IsCounted o drift (negsuc 0) s (with_revoked o now id d) row (λ n e. ground (
                arith,
                holders-revoked o now id d i keys found,
                first_holds (invitation_key o id) d.invitations found,
              )))
      ]
    ]
  ]

  pub remove_work-IsCounted :
      (id : ℕ) → AfterWork (IsCounted o drift) (remove_work (caller o p) (some o) id (scoped o d))
  unfolding remove_work
  remove_work-IsCounted id = elim (Option-cases (seats_of o d)) [
    | inl missing ↦ ground (arith, first-own_row o d.subscriptions)
    | inr (s, row) ↦ elim (Option-cases (first (user_key o id) d.users)) [
      | inl absent ↦ ground arith
      | inr (u, found) ↦ elim (Bool-cases (is_active u)) [
        | inr inactive ↦ ground arith
        | inl here ↦
            elim (remove_work-cases o id p d s (first-own_row o d.subscriptions ∙ row) u found
              here) [
                | inl protected ↦ rw protected tt
                | inr done ↦ rw done (
                    adjust-IsCounted o drift (negsuc 0) s (with_removed o id d) row (λ n e. ground (
                      arith,
                      holders-removed o id d u keys found,
                      first_holds (user_key o id) d.users found,
                    )))
              ]
      ]
    ]
  ]
