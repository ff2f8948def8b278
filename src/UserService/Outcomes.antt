-- ===== src/UserService/Outcomes.antt =====
-- What the caller of `invite` gets, and what is left behind.
use multi_tenant_subscriptio.Base.{arith, count, inl, inr, ltb, none, some, ℕ, ◌&&◌, ◌==◌, ◌≡◌, ◌≤◌}
use multi_tenant_subscriptio.Common.{Error, TenantContextPayload, plan_limit_exceeded, seats}
use multi_tenant_subscriptio.Database.{Outcome, Outcome-cases, World, caller, returned, thrown}
use multi_tenant_subscriptio.UserService.Repositories.{NewInvitation}
use multi_tenant_subscriptio.UserService.Requests.{new_invitation}
use multi_tenant_subscriptio.UserService.SeatCount.{first-own_row, scoped, seats_of}
use multi_tenant_subscriptio.UserService.Tables.{
  Invitation, SubscriptionSeatView, User, UserDb, is_active, is_pending,
}
use multi_tenant_subscriptio.UserService.Users.{
  InviteUserDto, Runtime, invite, invite_work, remove_user, remove_work, revoke_invitation,
  revoke_work,
}

abbrev pub UnchangedIfThrown : {A : Type 0} → World UserDb → Outcome A × World UserDb → Type 0
UnchangedIfThrown w (returned a, w') = Unit
UnchangedIfThrown w (thrown e, w') = w' ≡ w

module _ (o : ℕ) (p : TenantContextPayload) (w : World UserDb) where
  -- A request of a member to invite, to revoke an invitation or to remove a user that is answered
  -- with an error has written nothing and published nothing.
  pub failed_requests-unchanged :
      (rt : Runtime) (dto : InviteUserDto) (id : ℕ)
      → UnchangedIfThrown w (invite (caller o p) rt dto w)
        × UnchangedIfThrown w (revoke_invitation (caller o p) rt id w)
        × UnchangedIfThrown w (remove_user (caller o p) id w)
  unfolding invite revoke_invitation remove_user
  failed_requests-unchanged rt dto id = (
    elim (Outcome-cases
        (invite_work (caller o p) rt (some o) (new_invitation rt dto) (scoped o w.db)).0) [
          | inl (a, e) ↦ ground arith
          | inr (x, e) ↦ ground arith
        ],
    elim (Outcome-cases (revoke_work (caller o p) rt.now (some o) id (scoped o w.db)).0) [
      | inl (a, e) ↦ ground arith
      | inr (x, e) ↦ ground arith
    ],
    elim (Outcome-cases (remove_work (caller o p) (some o) id (scoped o w.db)).0) [
      | inl (a, e) ↦ ground arith
      | inr (x, e) ↦ ground arith
    ],
  )

  -- The active users of the organisation, and its invitations that can still be accepted.
  abbrev active_users : ℕ
  active_users =
      count (λ (u : User). u.organization_id == o && (u.organization_id == o && is_active u))
        w.db.users

  abbrev open_invitations : ℕ → ℕ
  open_invitations now =
      count
        (λ (i : Invitation).
          i.organization_id == o
          && (i.organization_id == o && is_pending i && ltb now i.expires_at))
        w.db.invitations

  abbrev rejection : ℕ → SubscriptionSeatView → Error
  rejection now s = plan_limit_exceeded (record {
    limit_type = seats;
    limit = s.max_seats_snapshot;
    current = s.used_seats;
    plan_code = none;
    active_users = some active_users;
    pending_invitations = some (open_invitations now);
  })

  module _ (rt : Runtime) (s : SubscriptionSeatView) (row : seats_of o w.db ≡ some s)
      (full : s.max_seats_snapshot ≤ s.used_seats) where
    invite_work-full :
        (new : NewInvitation)
        → invite_work (caller o p) rt (some o) new (scoped o w.db)
          ≡ (thrown (rejection rt.now s), scoped o w.db)
    unfolding invite_work
    invite_work-full new = ground (arith, first-own_row o w.db.subscriptions)

    -- An invitation while all seats of the plan are taken is answered with the limit, the counter,
    -- the number of active users and that of the invitations that can still be accepted, and it
    -- changes nothing.
    pub invite-full :
        (dto : InviteUserDto) → invite (caller o p) rt dto w ≡ (thrown (rejection rt.now s), w)
    unfolding invite
    invite-full dto = ground (arith, invite_work-full (new_invitation rt dto))
