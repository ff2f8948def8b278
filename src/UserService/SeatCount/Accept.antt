-- ===== src/UserService/SeatCount/Accept.antt =====
-- `acceptInvitation` turns the seat of an invitation into the seat of a user.
use multi_tenant_subscriptio.Base.{
  Bool, Option-cases, [], arith, count, count-append, count-update_where_one, count_mono, first,
  first_by_key, first_holds, first_of_count_zero, inl, inr, some, update_where, ℕ, ◌&&◌, ◌+◌, ◌==◌,
  ◌∷◌, ◌≡◌, ◌≤◌,
}
use multi_tenant_subscriptio.UserService.Keys.{HasKeys}
use multi_tenant_subscriptio.UserService.SeatCount.{
  AfterWork, IsCounted, first-own_row, holders, holds_as_invitation, holds_as_user, scoped,
}
use multi_tenant_subscriptio.UserService.Tables.{Invitation, User, UserDb, active, is_pending}
use multi_tenant_subscriptio.UserService.Users.{AcceptInvitationDto, accept_work}

abbrev token_key : ℕ → ℕ → Invitation → Bool
token_key o token i = i.organization_id == o && (i.token_hash == token && is_pending i)

-- The UPDATE of `markAccepted`, under the policy.
abbrev id_key : ℕ → ℕ → Invitation → Bool
id_key o id i = i.organization_id == o && i.id == id

abbrev taken : ℕ → Invitation → Invitation
taken now i = record i { accepted_at = some now }

module _ (o drift now : ℕ) (d : UserDb) (keys : HasKeys d) (h : IsCounted o drift d) where
  invitations-accepted :
      (token : ℕ) (i : Invitation)
      → first (token_key o token) d.invitations ≡ some i
      → count (holds_as_invitation o) (update_where (id_key o i.id) (taken now) d.invitations) + 1
        ≡ count (holds_as_invitation o) d.invitations
  invitations-accepted token i found =
      let once : count (id_key o i.id) d.invitations ≤ 1 = ground (
        arith,
        keys.invitation_keys i.id,
        count_mono (id_key o i.id) (λ j. j.id == i.id) d.invitations (λ x e. ground arith),
      ) in
      count-update_where_one (holds_as_invitation o) (id_key o i.id) (taken now) d.invitations
        (λ y e. ground arith) once
        (first_by_key (id_key o i.id) (token_key o token) d.invitations once found
          (ground (arith, first_holds (token_key o token) d.invitations found)))
        (ground (arith, first_holds (token_key o token) d.invitations found))

  pub accept_work-IsCounted :
      (token user_id : ℕ) (dto : AcceptInvitationDto)
      → count (λ (u : User). u.id == user_id) d.users ≡ 0
      → AfterWork (IsCounted o drift) (accept_work now token o user_id dto (scoped o d))
  unfolding accept_work holders
  accept_work-IsCounted token user_id dto fresh =
      elim (Option-cases (first (token_key o token) d.invitations)) [
        | inl absent ↦ ground arith
        | inr (i, found) ↦ ground (
          arith,
          first-own_row o d.subscriptions,
          invitations-accepted token i found,
          first_of_count_zero (λ u. u.organization_id == o && u.id == user_id)
              (λ u. u.id == user_id) d.users (λ x e. ground arith) fresh,
          count-append (holds_as_user o) d.users (member i ∷ []),
        )
      ]
    where
      member : Invitation → User
      member i = record {
        id = user_id;
        organization_id = o;
        email = i.email;
        first_name = dto.first_name;
        last_name = dto.last_name;
        role = i.role;
        status = active;
        created_at = now;
      }
