-- ===== src/UserService/SeatCount.antt =====
-- What the seat counter is meant to count (§19.4 of docs/architecture/ARCHITECTURE.md), and the
-- effect of the counter's UPDATE.
pub mod Invite
pub mod Release
pub mod Accept
pub mod Provision
pub mod Sweep
pub mod Roles
pub mod Frame
pub mod Twice
use multi_tenant_subscriptio.Base.{
  Bool, Bool-cases, List, Option, [], add_delta, all_where, all_where-first, arith, count, first,
  first-update_where, first_holds, get_or, inl, inr, none, refl, some, true, update_where, ℕ, ℤ,
  ◌&&◌, ◌+◌, ◌==◌, ◌∙◌, ◌∷◌, ◌≡◌, ◌≤◌, ◌⊎◌,
}
use multi_tenant_subscriptio.Common.{check_violation}
use multi_tenant_subscriptio.Database.{Connection, Outcome, returned, thrown}
use multi_tenant_subscriptio.UserService.Repositories.{adjust_used_seats, seats_allowed}
use multi_tenant_subscriptio.UserService.Tables.{
  Invitation, SubscriptionSeatView, User, UserDb, is_active, is_pending,
}

abbrev pub holds_as_user : ℕ → User → Bool
holds_as_user o u = u.organization_id == o && is_active u

abbrev pub holds_as_invitation : ℕ → Invitation → Bool
holds_as_invitation o i = i.organization_id == o && is_pending i

-- The seats of an organisation that are held by its rows: one by each active user, and one by each
-- invitation that is neither accepted nor revoked (an expired one is given back by the sweep).
unfoldable pub holders : ℕ → UserDb → ℕ
holders o db = count (holds_as_user o) db.users + count (holds_as_invitation o) db.invitations

-- The subscription row of an organisation.
abbrev pub seats_of : ℕ → UserDb → Option SubscriptionSeatView
seats_of o db = first (λ s. s.organization_id == o) db.subscriptions

abbrev pub CountedBy : Option SubscriptionSeatView → ℕ → ℕ → Type 0
CountedBy none held drift = Unit
CountedBy (some s) held drift = held ≡ s.used_seats + drift

-- The counter of the organisation falls short of its rows by `drift`.
abbrev pub IsCounted : ℕ → ℕ → UserDb → Type 0
IsCounted o drift db = CountedBy (seats_of o db) (holders o db) drift

-- A connection that is scoped to the organisation `o`.
abbrev pub scoped : ℕ → UserDb → Connection UserDb
scoped o d = record { current_org = some o; tables = d }

abbrev pub moved_by : ℤ → SubscriptionSeatView → SubscriptionSeatView
moved_by delta s = record s { used_seats = get_or (add_delta s.used_seats delta) s.used_seats }

-- The policy and the WHERE clause both ask for the organisation.
abbrev pub own_row : ℕ → SubscriptionSeatView → Bool
own_row o s = s.organization_id == o && s.organization_id == o

abbrev pub adjusted : ℕ → ℤ → UserDb → UserDb
adjusted o delta d = record d {
  subscriptions = update_where (own_row o) (moved_by delta) d.subscriptions;
}

abbrev pub may_move : ℤ → SubscriptionSeatView → Bool
may_move delta s = seats_allowed (add_delta s.used_seats delta) s.max_seats_snapshot

seats_allowed-some :
    (v : Option ℕ) (limit : ℕ) → seats_allowed v limit ≡ true → (n : ℕ) × (v ≡ some n) × (n ≤ limit)
seats_allowed-some none limit h = cc
seats_allowed-some (some n) limit h = (n, refl, ground arith)

own_row_self :
    (o : ℕ) (d : UserDb) {s : SubscriptionSeatView} → seats_of o d ≡ some s → own_row o s ≡ true
own_row_self o d {s} row =
    ground (arith, first_holds (λ s. s.organization_id == o) d.subscriptions row)

pub seats_of-adjusted :
    (o : ℕ) (delta : ℤ) (d : UserDb) {s : SubscriptionSeatView}
    → seats_of o d ≡ some s
    → seats_of o (adjusted o delta d) ≡ some (moved_by delta s)
seats_of-adjusted o delta d {s} row =
    first-update_where (λ s. s.organization_id == o) (own_row o) (moved_by delta) d.subscriptions
      (λ y h. refl) row
    ∙ rw (own_row_self o d row)

-- The counter's UPDATE moves the one row of the organisation, or is refused and changes nothing.
pub adjust-cases :
    (o : ℕ) (delta : ℤ) (s : SubscriptionSeatView) (d : UserDb)
    → seats_of o d ≡ some s
    → (adjust_used_seats (some o) delta (scoped o d) ≡ (thrown check_violation, scoped o d))
      ⊎ ((n : ℕ) × (add_delta s.used_seats delta ≡ some n)
          × (n ≤ s.max_seats_snapshot)
          × (adjust_used_seats (some o) delta (scoped o d)
              ≡ (returned tt, scoped o (adjusted o delta d)))
          × (seats_of o (adjusted o delta d) ≡ some (record s { used_seats = n })))
unfolding adjust_used_seats
adjust-cases o delta s d row =
    elim (Bool-cases (all_where (own_row o) (may_move delta) d.subscriptions)) [
      | inr refused ↦ inl (rw refused)
      | inl fits ↦
          let (n, e, le) = seats_allowed-some _ _ (
            all_where-first (own_row o) (may_move delta) d.subscriptions
              (λ s. s.organization_id == o) fits row (own_row_self o d row)) in
          inr (n, e, le, rw fits, seats_of-adjusted o delta d row ∙ rw e)
    ]

-- `lock_seats` finds the row of the organisation.
pub first-own_row :
    (o : ℕ) (xs : List SubscriptionSeatView)
    → first (own_row o) xs ≡ first (λ s. s.organization_id == o) xs
first-own_row o [] = refl
first-own_row o (x ∷ xs) = ground (arith, first-own_row o xs)

-- `P` holds of the tables after a work that returns.
abbrev pub AfterWork {ℓ} : {A : Type 0} → (UserDb → Type ℓ) → Outcome A × Connection UserDb → Type ℓ
AfterWork P (returned a, c) = P c.tables
AfterWork P (thrown e, c) = Unit

-- Where the rows and the counter have moved together, the counting is right again.
pub adjust-IsCounted :
    (o drift : ℕ) (delta : ℤ) (s : SubscriptionSeatView) (d : UserDb)
    → seats_of o d ≡ some s
    → ((n : ℕ) → add_delta s.used_seats delta ≡ some n → holders o d ≡ n + drift)
    → AfterWork (IsCounted o drift) (adjust_used_seats (some o) delta (scoped o d))
unfolding holders
adjust-IsCounted o drift delta s d row moved = elim (adjust-cases o delta s d row) [
  | inl refused ↦ rw refused tt
  | inr (n, e, le, done, row') ↦ ground (arith, moved n e)
]
