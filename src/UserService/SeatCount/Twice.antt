-- ===== src/UserService/SeatCount/Twice.antt =====
-- Two revocations of one invitation at the same time. `revokeInvitation` reads the invitation without
-- a lock, and only then locks the counter: the statements of another request can come between.
use multi_tenant_subscriptio.Base.{
  List, Option, Option-cases, [], all_where-one, arith, count, count-update_where_same, count_mono,
  first, first_holds, inl, inr, negsuc, refl, some, true, update_where, ℕ, ◌+◌, ◌==◌, ◌∙◌, ◌∷◌, ◌≡◌,
  ◌≤◌,
}
use multi_tenant_subscriptio.Common.{TenantContextPayload, not_found}
use multi_tenant_subscriptio.Database.{
  >>=_returned, Connection, Context, Outcome-cases, Tx, caller, or_throw, returned, ◌>>=◌, ◌>>◌,
}
use multi_tenant_subscriptio.UserService.Keys.{HasKeys}
use multi_tenant_subscriptio.UserService.Repositories.{
  adjust_used_seats, find_invitation_by_id, lock_seats, mark_revoked,
}
use multi_tenant_subscriptio.UserService.SeatCount.{
  IsCounted, adjusted, first-own_row, holders, holds_as_invitation, may_move, moved_by, own_row,
  scoped, seats_of, seats_of-adjusted,
}
use multi_tenant_subscriptio.UserService.SeatCount.Release.{
  holders-revoked, invitation_key, revoked, with_revoked,
}
use multi_tenant_subscriptio.UserService.Tables.{
  Invitation, SubscriptionSeatView, UserDb, is_pending,
}
use multi_tenant_subscriptio.UserService.Users.{revoke_work, still_pending}

-- Until the lock is asked for.
unfoldable pub revoke_check : Context → ℕ → Tx UserDb Invitation
unfolding find_invitation_by_id
revoke_check ctx id = do
  found ← find_invitation_by_id ctx id
  or_throw (still_pending found) not_found

-- From the lock on.
unfoldable pub revoke_release : Context → ℕ → Option ℕ → ℕ → Tx UserDb (Unit {0})
unfolding lock_seats mark_revoked adjust_used_seats
revoke_release ctx now organization_id id = do
  lock_seats organization_id
  mark_revoked ctx now id
  adjust_used_seats organization_id (negsuc 0)

-- Nothing comes between: the two pieces are the work of `revokeInvitation`.
pub revoke_work-pieces :
    (ctx : Context) (now : ℕ) (organization_id : Option ℕ) (id : ℕ) (c : Connection UserDb)
    → revoke_work ctx now organization_id id c
      ≡ (revoke_check ctx id >>= λ _. revoke_release ctx now organization_id id) c
unfolding revoke_work revoke_check revoke_release
revoke_work-pieces ctx now organization_id id c =
    elim (Outcome-cases (find_invitation_by_id ctx id c).0) [
      | inr (e, ko) ↦ ground arith
      | inl (found, ok) ↦ elim (Option-cases (still_pending found)) [
        | inl spent ↦ ground arith
        | inr (i, pending) ↦ ground arith
      ]
    ]

own-once :
    (o : ℕ) (rows : List SubscriptionSeatView)
    → count (λ (s : SubscriptionSeatView). s.organization_id == o) rows ≤ 1
    → count (own_row o) rows ≤ 1
own-once o rows once =
    ground (arith, count_mono (own_row o) (λ s. s.organization_id == o) rows (λ x h. ground arith))

module _ (o : ℕ) (d : UserDb) where
  release-eq :
      (p : TenantContextPayload) (now id : ℕ) {s : SubscriptionSeatView}
      → count (λ (s : SubscriptionSeatView). s.organization_id == o) d.subscriptions ≤ 1
      → seats_of o d ≡ some s
      → 1 ≤ s.used_seats
      → s.used_seats ≤ s.max_seats_snapshot
      → revoke_release (caller o p) now (some o) id (scoped o d)
        ≡ (returned tt, scoped o (adjusted o (negsuc 0) (with_revoked o now id d)))
  unfolding revoke_release
  release-eq p now id {s} once row held fits = ground (
    arith,
    first-own_row o d.subscriptions,
    all_where-one (own_row o) (may_move (negsuc 0)) d.subscriptions {x = s}
        (own-once o d.subscriptions once),
  )

  holders-twice :
      (now later id : ℕ)
      → holders o (with_revoked o later id (with_revoked o now id d))
        ≡ holders o (with_revoked o now id d)
  unfolding holders
  holders-twice now later id = ground (arith, again d.invitations)
    where
      again :
          (rows : List Invitation)
          → count (holds_as_invitation o) (
              update_where
                (invitation_key o id)
                (revoked later)
                (update_where (invitation_key o id) (revoked now) rows))
            ≡ count (holds_as_invitation o) (update_where (invitation_key o id) (revoked now) rows)
      again [] = refl
      again (i ∷ rows) = ground (arith, again rows)

module _ (o drift now later id : ℕ) (p q : TenantContextPayload) (d : UserDb) where
  abbrev pub first_tables : UserDb
  first_tables = adjusted o (negsuc 0) (with_revoked o now id d)

  abbrev pub second_tables : UserDb
  second_tables = adjusted o (negsuc 0) (with_revoked o later id first_tables)

  checked :
      (p : TenantContextPayload) (i : Invitation)
      → first (invitation_key o id) d.invitations ≡ some i
      → is_pending i ≡ true
      → revoke_check (caller o p) id (scoped o d) ≡ (returned i, scoped o d)
  unfolding revoke_check
  checked p i found pending = ground arith

  revoked_first :
      {s : SubscriptionSeatView} (i : Invitation)
      → seats_of o d ≡ some s
      → count (λ (s : SubscriptionSeatView). s.organization_id == o) d.subscriptions ≤ 1
      → 1 ≤ s.used_seats
      → s.used_seats ≤ s.max_seats_snapshot
      → first (invitation_key o id) d.invitations ≡ some i
      → is_pending i ≡ true
      → revoke_work (caller o p) now (some o) id (scoped o d) ≡ (returned tt, scoped o first_tables)
  revoked_first i row single held fits found pending =
      revoke_work-pieces (caller o p) now (some o) id (scoped o d)
      ∙ >>=_returned (revoke_check (caller o p) id)
          (λ _. revoke_release (caller o p) now (some o) id) (scoped o d)
          (checked p i found pending)
      ∙ release-eq o d p now id single row held fits

  short_by_one :
      (s : SubscriptionSeatView) (i : Invitation)
      → HasKeys d
      → IsCounted o drift d
      → seats_of o d ≡ some s
      → 2 ≤ s.used_seats
      → first (invitation_key o id) d.invitations ≡ some i
      → is_pending i ≡ true
      → IsCounted o (drift + 1) second_tables
  unfolding holders
  short_by_one s i keys counted row many found pending =
      let row1 = seats_of-adjusted o (negsuc 0) (with_revoked o now id d) row in
      let row2 = seats_of-adjusted o (negsuc 0) (with_revoked o later id first_tables) row1 in
      let held : holders o d ≡ s.used_seats + drift = rw row at counted in
      let own = first_holds (invitation_key o id) d.invitations found in
      let one : holders o (with_revoked o now id d) + 1 ≡ holders o d =
        holders-revoked o now id d i keys found (ground arith) in
      let same : holders o second_tables ≡ holders o (with_revoked o now id d) =
        holders-twice o d now later id in
      let left : (moved_by (negsuc 0) (moved_by (negsuc 0) s)).used_seats + 2 ≡ s.used_seats =
        ground arith in
      rw row2 (omega arith)

  single_after :
      count (λ (s : SubscriptionSeatView). s.organization_id == o) d.subscriptions ≤ 1
      → count (λ (s : SubscriptionSeatView). s.organization_id == o) first_tables.subscriptions ≤ 1
  single_after single = ground (
    arith,
    count-update_where_same (λ (s : SubscriptionSeatView). s.organization_id == o) (own_row o)
        (moved_by (negsuc 0)) d.subscriptions (λ x h. refl),
  )

  -- Two requests that revoke one pending invitation, and that both read it before the first of them
  -- has the lock, both succeed if the organisation's one counter is at two at least and within its
  -- limit: the second, which waited for the lock, does not look again. The counter goes down twice
  -- for one invitation, so from then on, where no two rows have the same id, it is one further below
  -- the seats that are held.
  pub two_revocations :
      (s : SubscriptionSeatView) (i : Invitation)
      → HasKeys d
      → IsCounted o drift d
      → seats_of o d ≡ some s
      → count (λ (s : SubscriptionSeatView). s.organization_id == o) d.subscriptions ≤ 1
      → 2 ≤ s.used_seats
      → s.used_seats ≤ s.max_seats_snapshot
      → first (invitation_key o id) d.invitations ≡ some i
      → is_pending i ≡ true
      → (revoke_check (caller o q) id (scoped o d) ≡ (returned i, scoped o d))
        × (revoke_work (caller o p) now (some o) id (scoped o d)
            ≡ (returned tt, scoped o first_tables))
        × (revoke_release (caller o q) later (some o) id (scoped o first_tables)
            ≡ (returned tt, scoped o second_tables))
        × IsCounted o (drift + 1) second_tables
  two_revocations s i keys counted row single many fits found pending =
      let row1 = seats_of-adjusted o (negsuc 0) (with_revoked o now id d) row in
      (
        checked q i found pending,
        revoked_first i row single (omega arith) fits found pending,
        release-eq o first_tables q later id (single_after single) row1 (ground arith)
            (ground arith),
        short_by_one s i keys counted row many found pending,
      )
