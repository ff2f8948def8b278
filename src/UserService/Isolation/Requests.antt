-- ===== src/UserService/Isolation/Requests.antt =====
-- The requests of a member, whatever ids they name.
use multi_tenant_subscriptio.Base.{refl, ℕ, ◌≡◌}
use multi_tenant_subscriptio.Common.{TenantContextPayload, UserRole}
use multi_tenant_subscriptio.Database.{Connection, Outcome, Tx, World, caller, returned, thrown}
use multi_tenant_subscriptio.Database.Isolation.{Kept}
use multi_tenant_subscriptio.Database.Preservation.{Preserves}
use multi_tenant_subscriptio.UserService.Isolation.{Kept-Rules, foreign}
use multi_tenant_subscriptio.UserService.Preservation.Operations.{
  invite_work-Preserves, remove_work-Preserves, revoke_work-Preserves, update_role_work-Preserves,
}
use multi_tenant_subscriptio.UserService.Requests.{
  committed, invite-db, remove_user-db, revoke_invitation-db, update_role-db,
}
use multi_tenant_subscriptio.UserService.SeatCount.{scoped}
use multi_tenant_subscriptio.UserService.Tables.{UserDb}
use multi_tenant_subscriptio.UserService.Users.{
  InviteUserDto, Runtime, invite, remove_user, revoke_invitation, update_role,
}

committed-foreign :
    {A : Type 0} (o : ℕ) (r : Outcome A × Connection UserDb) (d : UserDb)
    → foreign o r.1.tables ≡ foreign o d
    → foreign o (committed r d) ≡ foreign o d
committed-foreign o (returned a, c) d h = h
committed-foreign o (thrown e, c) d h = refl

confined :
    {A : Type 0} (o : ℕ) (d : UserDb) (work : Tx UserDb A)
    → Preserves (Kept foreign o (foreign o d)) work
    → foreign o (committed (work (scoped o d)) d) ≡ foreign o d
confined o d work kept =
    committed-foreign o (work (scoped o d)) d (kept.keeps (scoped o d) (refl, refl)).1

module _ (o : ℕ) (p : TenantContextPayload) (w : World UserDb) where
  -- Whoever of an organisation invites, revokes, changes a role or removes, and whichever ids the
  -- request names: what the tables hold for all other organisations is what they held before.
  pub member_requests-foreign :
      (rt : Runtime) (dto : InviteUserDto) (id : ℕ) (role : UserRole)
      → (foreign o (invite (caller o p) rt dto w).1.db ≡ foreign o w.db)
        × (foreign o (revoke_invitation (caller o p) rt id w).1.db ≡ foreign o w.db)
        × (foreign o (update_role (caller o p) id role w).1.db ≡ foreign o w.db)
        × (foreign o (remove_user (caller o p) id w).1.db ≡ foreign o w.db)
  member_requests-foreign rt dto id role = (
    rw (invite-db o p w rt dto)
        (confined o w.db _ (invite_work-Preserves (Kept-Rules _ _) _ _ _ _)),
    rw (revoke_invitation-db o p w rt id)
        (confined o w.db _ (revoke_work-Preserves (Kept-Rules _ _) _ _ _ _)),
    rw (update_role-db o p w id role)
        (confined o w.db _ (update_role_work-Preserves (Kept-Rules _ _) _ _ _ _)),
    rw (remove_user-db o p w id) (confined o w.db _ (remove_work-Preserves (Kept-Rules _ _) _ _ _)),
  )
