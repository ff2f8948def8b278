-- ===== src/UserService/SeatCount/Invite.antt =====
-- `invite` takes a seat for the invitation that it makes.
use multi_tenant_subscriptio.Base.{
  Option-cases, [], arith, count-append, inl, inr, none, pos, some, ℕ, ◌++◌, ◌∷◌,
}
use multi_tenant_subscriptio.Common.{TenantContextPayload}
use multi_tenant_subscriptio.Database.{caller}
use multi_tenant_subscriptio.UserService.Repositories.{NewInvitation}
use multi_tenant_subscriptio.UserService.SeatCount.{
  AfterWork, IsCounted, adjust-cases, first-own_row, holders, holds_as_invitation, scoped, seats_of,
}
use multi_tenant_subscriptio.UserService.Tables.{Invitation, UserDb}
use multi_tenant_subscriptio.UserService.Users.{Runtime, invite_work}

module _ (o drift : ℕ) (p : TenantContextPayload) (rt : Runtime) (new : NewInvitation) where
  abbrev row_of : Invitation
  row_of = record {
    id = rt.next_id;
    organization_id = o;
    email = new.email;
    role = new.role;
    token_hash = new.token_hash;
    expires_at = new.expires_at;
    accepted_at = none;
    revoked_at = none;
    created_at = rt.now;
  }

  abbrev with_invitation : UserDb → UserDb
  with_invitation d = record d { invitations = d.invitations ++ row_of ∷ [] }

  pub invite_work-IsCounted :
      (d : UserDb)
      → IsCounted o drift d
      → AfterWork (IsCounted o drift) (invite_work (caller o p) rt (some o) new (scoped o d))
  unfolding invite_work holders
  invite_work-IsCounted d h = elim (Option-cases (seats_of o d)) [
    | inl missing ↦ ground (arith, first-own_row o d.subscriptions)
    | inr (s, row) ↦ ground (
      arith,
      first-own_row o d.subscriptions,
      adjust-cases o (pos 1) s (with_invitation d),
      count-append (holds_as_invitation o) d.invitations (row_of ∷ []),
    )
  ]
