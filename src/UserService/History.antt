-- ===== src/UserService/History.antt =====
-- A history of user-service: the requests of any members of any organisations, the acceptances and
-- the runs of the sweep for one organisation, in any order, each a step of its own.
use multi_tenant_subscriptio.Base.{Bool-cases, arith, count, inl, inr, refl, ℕ, ◌==◌, ◌≡◌}
use multi_tenant_subscriptio.Common.{TenantContextPayload, UserRole}
use multi_tenant_subscriptio.Database.{
  Connection, Context, Outcome, Tx, World, caller, returned, thrown,
}
use multi_tenant_subscriptio.Database.Isolation.{Kept}
use multi_tenant_subscriptio.Database.Preservation.{Preserves}
use multi_tenant_subscriptio.UserService.Isolation.{Kept-Rules, foreign}
use multi_tenant_subscriptio.UserService.Keys.{HasKeys, KeysOf, KeysOf-Rules}
use multi_tenant_subscriptio.UserService.Preservation.Operations.{
  accept_work-Preserves, invite_work-Preserves, remove_work-Preserves, revoke_work-Preserves,
  sweep_work-Preserves, update_role_work-Preserves,
}
use multi_tenant_subscriptio.UserService.Requests.{
  accept_invitation-db, committed, committed-keeps, invite-db, remove_user-db, revoke_invitation-db,
  sweep_organization-db, update_role-db,
}
use multi_tenant_subscriptio.UserService.SeatCount.{AfterWork, IsCounted, scoped}
use multi_tenant_subscriptio.UserService.SeatCount.Accept.{accept_work-IsCounted}
use multi_tenant_subscriptio.UserService.SeatCount.Frame.{IsCounted-frame}
use multi_tenant_subscriptio.UserService.SeatCount.Invite.{invite_work-IsCounted}
use multi_tenant_subscriptio.UserService.SeatCount.Release.{
  remove_work-IsCounted, revoke_work-IsCounted,
}
use multi_tenant_subscriptio.UserService.SeatCount.Roles.{update_role_work-IsCounted}
use multi_tenant_subscriptio.UserService.SeatCount.Sweep.{sweep_work-IsCounted}
use multi_tenant_subscriptio.UserService.Sweep.{sweep_organization}
use multi_tenant_subscriptio.UserService.Tables.{User, UserDb}
use multi_tenant_subscriptio.UserService.Users.{
  AcceptInvitationDto, CreateCredentials, InviteUserDto, Runtime, accept_invitation, invite,
  remove_user, revoke_invitation, update_role,
}

-- auth-service mints an id that no row of users.users has.
abbrev pub MintsFresh : CreateCredentials → UserDb → Type 0
MintsFresh create_credentials d =
    (o email password id : ℕ)
    → create_credentials o email password ≡ returned id
    → count (λ (u : User). u.id == id) d.users ≡ 0

pub data Step (w : World UserDb) : World UserDb → Type 0 where
  invites :
      (o : ℕ) (p : TenantContextPayload) (rt : Runtime) (dto : InviteUserDto)
      → Step w (invite (caller o p) rt dto w).1
  accepts :
      (ctx : Context) (rt : Runtime) (create_credentials : CreateCredentials) (peeked token : ℕ)
      (dto : AcceptInvitationDto)
      → MintsFresh create_credentials w.db
      → Step w (accept_invitation ctx rt create_credentials peeked token dto w).1
  revokes :
      (o : ℕ) (p : TenantContextPayload) (rt : Runtime) (id : ℕ)
      → Step w (revoke_invitation (caller o p) rt id w).1
  updates_role :
      (o : ℕ) (p : TenantContextPayload) (user_id : ℕ) (role : UserRole)
      → Step w (update_role (caller o p) user_id role w).1
  removes :
      (o : ℕ) (p : TenantContextPayload) (user_id : ℕ)
      → Step w (remove_user (caller o p) user_id w).1
  sweeps : (now o : ℕ) → Step w (sweep_organization now o w).1

pub data History (w : World UserDb) : World UserDb → Type 0 where
  start : History w w
  next : {u v : World UserDb} → History w u → Step u v → History w v

-- What a history keeps of an organisation.
pub record Sound (o drift : ℕ) (d : UserDb) : Type 0 where
  pub has_keys : HasKeys d
  pub counted : IsCounted o drift d

-- Work in a transaction of `other` keeps the count of `o`, if it keeps that of its own organisation.
module _ {A : Type 0} (o drift other : ℕ) (d : UserDb) (work : Tx UserDb A)
    (keeps_keys : Preserves KeysOf work)
    (keeps_others : Preserves (Kept foreign other (foreign other d)) work)
    (counts : HasKeys d
      → IsCounted other drift d
      → AfterWork (IsCounted other drift) (work (scoped other d))) where
  in_own :
      o ≡ other
      → HasKeys d
      → IsCounted o drift d
      → AfterWork (IsCounted o drift) (work (scoped other d))
  in_own e keys h = rw e (counts keys (rw⁻¹ e h))

  after_returns :
      (P : UserDb → Type 0) (r : Outcome A × Connection UserDb) → P r.1.tables → AfterWork P r
  after_returns P (returned a, c) h = h
  after_returns P (thrown e, c) h = tt

  pub committed-Sound : Sound o drift d → Sound o drift (committed (work (scoped other d)) d)
  committed-Sound h = record {
    has_keys = committed-keeps HasKeys (work (scoped other d)) d h.has_keys (
        after_returns HasKeys (work (scoped other d))
          (keeps_keys.keeps (scoped other d) h.has_keys));
    counted =
        committed-keeps (IsCounted o drift) (work (scoped other d)) d h.counted
          (elim (Bool-cases (o == other)) [
            | inl same ↦ in_own (ground arith) h.has_keys h.counted
            | inr apart ↦ after_returns (IsCounted o drift) (work (scoped other d)) (
                IsCounted-frame o drift other d _ apart
                  (keeps_others.keeps (scoped other d) (refl, refl)).1 h.counted)
          ]);
  }

module _ (o drift : ℕ) where
  pub Step-Sound : {w v : World UserDb} → Sound o drift w.db → Step w v → Sound o drift v.db
  Step-Sound {w = w} h (invites other p rt dto) = rw (invite-db other p w rt dto) (
      committed-Sound o drift other w.db _ (invite_work-Preserves KeysOf-Rules _ _ _ _)
        (invite_work-Preserves (Kept-Rules _ _) _ _ _ _)
        (λ keys counted. invite_work-IsCounted other drift p rt _ w.db counted) h)
  Step-Sound {w = w} h (accepts ctx rt create_credentials peeked token dto fresh) =
      elim (accept_invitation-db ctx rt create_credentials peeked token dto w) [
        | inl same ↦ rw same h
        | inr (other, email, id, minted, done) ↦ rw done (
            committed-Sound o drift other w.db _ (accept_work-Preserves KeysOf-Rules _ _ _ _ _)
              (accept_work-Preserves (Kept-Rules _ _) _ _ _ _ _)
              (λ keys counted.
                accept_work-IsCounted other drift rt.now w.db keys counted (rt.sha256 token) id dto
                  (fresh other email dto.password id minted))
              h)
      ]
  Step-Sound {w = w} h (revokes other p rt id) = rw (revoke_invitation-db other p w rt id) (
      committed-Sound o drift other w.db _ (revoke_work-Preserves KeysOf-Rules _ _ _ _)
        (revoke_work-Preserves (Kept-Rules _ _) _ _ _ _)
        (λ keys counted. revoke_work-IsCounted other drift p w.db keys counted rt.now id) h)
  Step-Sound {w = w} h (updates_role other p user_id role) =
      rw (update_role-db other p w user_id role) (
        committed-Sound o drift other w.db _ (update_role_work-Preserves KeysOf-Rules _ _ _ _)
          (update_role_work-Preserves (Kept-Rules _ _) _ _ _ _)
          (λ keys counted. update_role_work-IsCounted other drift p user_id role w.db counted) h)
  Step-Sound {w = w} h (removes other p user_id) = rw (remove_user-db other p w user_id) (
      committed-Sound o drift other w.db _ (remove_work-Preserves KeysOf-Rules _ _ _)
        (remove_work-Preserves (Kept-Rules _ _) _ _ _)
        (λ keys counted. remove_work-IsCounted other drift p w.db keys counted user_id) h)
  Step-Sound {w = w} h (sweeps now other) = rw (sweep_organization-db now other w) (
      committed-Sound o drift other w.db _ (sweep_work-Preserves KeysOf-Rules _ _)
        (sweep_work-Preserves (Kept-Rules _ _) _ _)
        (λ keys counted. sweep_work-IsCounted other drift now w.db keys counted) h)

  -- Suppose that no two users and no two invitations have the same id, and that the active users and
  -- open invitations of an organisation are `drift` more than its seat counter says. Then both are
  -- so after every history of invitations, acceptances, revocations, role changes, removals and
  -- sweeps of any organisations, failed requests included, where auth-service gives out new ids.
  pub History-Sound : {w v : World UserDb} → Sound o drift w.db → History w v → Sound o drift v.db
  History-Sound h start = h
  History-Sound h (next before step) = Step-Sound (History-Sound h before) step
