-- ===== src/UserService/SeatCount/Frame.antt =====
-- The seats of an organisation depend on its own rows only.
use multi_tenant_subscriptio.Base.{
  ap, arith, count-select, false, first-select, not, sym, ℕ, ◌==◌, ◌∙◌, ◌≡◌,
}
use multi_tenant_subscriptio.UserService.Isolation.{foreign}
use multi_tenant_subscriptio.UserService.SeatCount.{
  IsCounted, holders, holds_as_invitation, holds_as_user, seats_of,
}
use multi_tenant_subscriptio.UserService.Tables.{UserDb}

holders-foreign :
    (o other : ℕ) (d : UserDb) → (o == other) ≡ false → holders o (foreign other d) ≡ holders o d
unfolding holders
holders-foreign o other d apart = ground (
  arith,
  count-select (holds_as_user o) (λ u. not (u.organization_id == other)) d.users
      (λ u h. ground arith),
  count-select (holds_as_invitation o) (λ i. not (i.organization_id == other)) d.invitations
      (λ i h. ground arith),
)

seats_of-foreign :
    (o other : ℕ) (d : UserDb) → (o == other) ≡ false → seats_of o (foreign other d) ≡ seats_of o d
seats_of-foreign o other d apart =
    first-select (λ s. s.organization_id == o) (λ s. not (s.organization_id == other))
      d.subscriptions (λ s h. ground arith)

pub IsCounted-frame :
    (o drift other : ℕ) (d d' : UserDb)
    → (o == other) ≡ false
    → foreign other d' ≡ foreign other d
    → IsCounted o drift d
    → IsCounted o drift d'
IsCounted-frame o drift other d d' apart same h =
    let held : holders o d' ≡ holders o d =
      sym (holders-foreign o other d' apart)
      ∙ ap (holders o) same
      ∙ holders-foreign o other d apart in
    let row : seats_of o d' ≡ seats_of o d =
      sym (seats_of-foreign o other d' apart)
      ∙ ap (seats_of o) same
      ∙ seats_of-foreign o other d apart in
    rw (row, held) h
