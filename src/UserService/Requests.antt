-- ===== src/UserService/Requests.antt =====
-- What a request leaves in the tables: those of its transaction if that resolves, and the old ones
-- if it throws.
use multi_tenant_subscriptio.Base.{
  List, Option-cases, [], arith, first, inl, inr, ltb, refl, some, ℕ, ◌&&◌, ◌+◌, ◌==◌, ◌∷◌, ◌≡◌,
  ◌⊎◌,
}
use multi_tenant_subscriptio.Common.{TenantContextPayload, UserRole}
use multi_tenant_subscriptio.Database.{
  Connection, Context, Outcome, Outcome-cases, World, caller, returned, thrown,
}
use multi_tenant_subscriptio.UserService.Repositories.{NewInvitation}
use multi_tenant_subscriptio.UserService.SeatCount.{AfterWork, scoped}
use multi_tenant_subscriptio.UserService.Sweep.{publish_expired, sweep_organization, sweep_work}
use multi_tenant_subscriptio.UserService.Tables.{UserDb, is_pending}
use multi_tenant_subscriptio.UserService.Users.{
  AcceptInvitationDto, CreateCredentials, InviteUserDto, Runtime, accept_invitation, accept_work,
  invitation_expiry_ms, invite, invite_work, remove_user, remove_work, revoke_invitation,
  revoke_work, unexpired, update_role, update_role_work,
}

abbrev pub committed : {A : Type 0} → Outcome A × Connection UserDb → UserDb → UserDb
committed (returned a, c) d = c.tables
committed (thrown e, c) d = d

abbrev pub new_invitation : Runtime → InviteUserDto → NewInvitation
new_invitation rt dto = record {
  email = dto.email;
  role = dto.role;
  token_hash = rt.sha256 rt.random_token;
  expires_at = rt.now + invitation_expiry_ms;
}

module _ (o : ℕ) (p : TenantContextPayload) (w : World UserDb) where
  pub invite-db :
      (rt : Runtime) (dto : InviteUserDto)
      → (invite (caller o p) rt dto w).1.db
        ≡ committed
            (invite_work (caller o p) rt (some o) (new_invitation rt dto) (scoped o w.db))
            w.db
  unfolding invite
  invite-db rt dto =
      elim (Outcome-cases
        (invite_work (caller o p) rt (some o) (new_invitation rt dto) (scoped o w.db)).0) [
          | inl (a, e) ↦ ground arith
          | inr (x, e) ↦ ground arith
        ]

  pub revoke_invitation-db :
      (rt : Runtime) (id : ℕ)
      → (revoke_invitation (caller o p) rt id w).1.db
        ≡ committed (revoke_work (caller o p) rt.now (some o) id (scoped o w.db)) w.db
  unfolding revoke_invitation
  revoke_invitation-db rt id =
      elim (Outcome-cases (revoke_work (caller o p) rt.now (some o) id (scoped o w.db)).0) [
        | inl (a, e) ↦ ground arith
        | inr (x, e) ↦ ground arith
      ]

  pub update_role-db :
      (user_id : ℕ) (role : UserRole)
      → (update_role (caller o p) user_id role w).1.db
        ≡ committed (update_role_work (caller o p) (some o) user_id role (scoped o w.db)) w.db
  unfolding update_role
  update_role-db user_id role =
      elim (Outcome-cases (update_role_work (caller o p) (some o) user_id role (scoped o w.db)).0) [
        | inl (a, e) ↦ elim (Option-cases a) [
          | inl missing ↦ ground arith
          | inr (u, found) ↦ ground arith
        ]
        | inr (x, e) ↦ ground arith
      ]

  pub remove_user-db :
      (user_id : ℕ)
      → (remove_user (caller o p) user_id w).1.db
        ≡ committed (remove_work (caller o p) (some o) user_id (scoped o w.db)) w.db
  unfolding remove_user
  remove_user-db user_id =
      elim (Outcome-cases (remove_work (caller o p) (some o) user_id (scoped o w.db)).0) [
        | inl (a, e) ↦ ground arith
        | inr (x, e) ↦ ground arith
      ]

publish_expired-db :
    (o : ℕ) (ids : List ℕ) (w : World UserDb) → (publish_expired o ids w).1.db ≡ w.db
unfolding publish_expired
publish_expired-db o [] w = refl
publish_expired-db o (id ∷ ids) w = publish_expired-db o ids _

pub sweep_organization-db :
    (now o : ℕ) (w : World UserDb)
    → (sweep_organization now o w).1.db ≡ committed (sweep_work now o (scoped o w.db)) w.db
unfolding sweep_organization
sweep_organization-db now o w = elim (Outcome-cases (sweep_work now o (scoped o w.db)).0) [
  | inl (ids, e) ↦ ground (
    arith,
    publish_expired-db o ids (record w { db = (sweep_work now o (scoped o w.db)).1.tables }),
  )
  | inr (x, e) ↦ ground arith
]

-- Either nothing is written, or the invitation of the token's organisation is accepted for the id
-- that auth-service gave out.
pub accept_invitation-db :
    (ctx : Context) (rt : Runtime) (create_credentials : CreateCredentials) (peeked token : ℕ)
    (dto : AcceptInvitationDto) (w : World UserDb)
    → ((accept_invitation ctx rt create_credentials peeked token dto w).1.db ≡ w.db)
      ⊎ ((o : ℕ) × (email : ℕ) × (id : ℕ) × (create_credentials o email dto.password ≡ returned id)
          × ((accept_invitation ctx rt create_credentials peeked token dto w).1.db
              ≡ committed (accept_work rt.now (rt.sha256 token) o id dto (scoped o w.db)) w.db))
unfolding accept_invitation
accept_invitation-db ctx rt create_credentials peeked token dto w =
    elim (Option-cases (
      first (λ i. i.token_hash == rt.sha256 token && is_pending i && ltb peeked i.expires_at)
        w.db.invitations)) [
          | inl unknown ↦ inl (ground arith)
          | inr (i, found) ↦
              elim (Option-cases (
                unexpired peeked (
                  first
                    (λ j.
                      j.organization_id == i.organization_id
                      && (j.token_hash == rt.sha256 token && is_pending j))
                    w.db.invitations))) [
                      | inl expired ↦ inl (ground arith)
                      | inr (j, pending) ↦
                          elim (Outcome-cases
                            (create_credentials i.organization_id j.email dto.password)) [
                              | inr (x, failed) ↦ inl (ground arith)
                              | inl (id, minted) ↦ inr (
                                i.organization_id,
                                j.email,
                                id,
                                minted,
                                elim (Outcome-cases
                                    (accept_work rt.now (rt.sha256 token) i.organization_id id dto
                                      (scoped i.organization_id w.db)).0) [
                                        | inl (a, e) ↦ ground arith
                                        | inr (x, e) ↦ ground arith
                                      ],
                              )
                            ]
                    ]
        ]

pub committed-keeps :
    {A : Type 0} (P : UserDb → Type 0) (r : Outcome A × Connection UserDb) (d : UserDb)
    → P d
    → AfterWork P r
    → P (committed r d)
committed-keeps P (returned a, c) d h k = k
committed-keeps P (thrown e, c) d h k = h
