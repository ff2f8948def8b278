-- ===== src/UserService/SeatCount/Sweep.antt =====
-- The sweep gives back the seats of exactly the invitations that it expires.
use multi_tenant_subscriptio.Base.{
  Bool, List, Option-cases, [], arith, count-marked, first, inl, inr, keys_where, length, member,
  neg, some, update_where, ℕ, ◌&&◌, ◌+◌, ◌==◌, ◌∙◌, ◌∷◌, ◌≡◌,
}
use multi_tenant_subscriptio.Database.{Connection, Outcome, pure, returned, thrown, ◌>>◌}
use multi_tenant_subscriptio.UserService.Keys.{HasKeys}
use multi_tenant_subscriptio.UserService.Repositories.{
  adjust_used_seats, find_expired_ids, is_expired, lock_seats,
}
use multi_tenant_subscriptio.UserService.SeatCount.{
  AfterWork, IsCounted, adjust-IsCounted, first-own_row, holders, holds_as_invitation, own_row,
  scoped, seats_of,
}
use multi_tenant_subscriptio.UserService.Sweep.{release_expired, sweep_work}
use multi_tenant_subscriptio.UserService.Tables.{Invitation, SubscriptionSeatView, UserDb}

abbrev expired_key : ℕ → ℕ → Invitation → Bool
expired_key o now i = i.organization_id == o && (i.organization_id == o && is_expired now i)

abbrev expired_ids : ℕ → ℕ → UserDb → List ℕ
expired_ids o now d = keys_where (λ i. i.id) (expired_key o now) d.invitations

abbrev swept : ℕ → ℕ → List ℕ → UserDb → UserDb
swept o now ids d = record d {
  invitations =
      update_where (λ i. i.organization_id == o && member i.id ids)
        (λ i. record i { revoked_at = some now }) d.invitations;
}

AfterWork-then :
    {A B : Type 0} (P : UserDb → Type 0) (b : B) (r : Outcome A × Connection UserDb)
    → AfterWork P r
    → AfterWork P (((λ _. r) >> pure b) r.1)
AfterWork-then P b (returned a, c) h = h
AfterWork-then P b (thrown e, c) h = tt

module _ (o drift now : ℕ) (d : UserDb) (keys : HasKeys d) (h : IsCounted o drift d) where
  holders-swept :
      holders o (swept o now (expired_ids o now d) d) + length (expired_ids o now d) ≡ holders o d
  unfolding holders
  holders-swept = ground (
    arith,
    count-marked (λ i. i.id) (expired_key o now) (holds_as_invitation o)
        (λ i. record i { revoked_at = some now }) (λ i e. ground arith) (λ i e. ground arith)
        (λ i. i.organization_id == o) d.invitations (λ i e. ground arith) keys.invitation_keys,
  )

  release_expired-IsCounted :
      (s : SubscriptionSeatView) (ids : List ℕ)
      → seats_of o d ≡ some s
      → holders o (swept o now ids d) + length ids ≡ holders o d
      → AfterWork (IsCounted o drift) (release_expired now o ids (scoped o d))
  unfolding release_expired
  release_expired-IsCounted s [] row e = h
  release_expired-IsCounted s (id ∷ ids) row e =
      AfterWork-then (IsCounted o drift) (id ∷ ids)
        (adjust_used_seats (some o) (neg (length (id ∷ ids))) (scoped o (swept o now (id ∷ ids) d)))
        (adjust-IsCounted o drift (neg (length (id ∷ ids))) s (swept o now (id ∷ ids) d) row
          (λ n fits. ground arith))

  sweep_work-eq :
      (s : SubscriptionSeatView)
      → first (own_row o) d.subscriptions ≡ some s
      → sweep_work now o (scoped o d) ≡ release_expired now o (expired_ids o now d) (scoped o d)
  unfolding sweep_work lock_seats find_expired_ids
  sweep_work-eq s row = ground arith

  pub sweep_work-IsCounted : AfterWork (IsCounted o drift) (sweep_work now o (scoped o d))
  unfolding sweep_work
  sweep_work-IsCounted = elim (Option-cases (seats_of o d)) [
    | inl missing ↦ ground (arith, first-own_row o d.subscriptions)
    | inr (s, row) ↦
        rw (sweep_work-eq s (first-own_row o d.subscriptions ∙ row))
          (release_expired-IsCounted s (expired_ids o now d) row holders-swept)
  ]
