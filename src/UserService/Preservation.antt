-- ===== src/UserService/Preservation.antt =====
-- What holds of a connection of user-service before and after any of its operations: whatever each of
-- the writes in `Rules` keeps. No operation moves a row to another id or another organisation.
pub mod Queries
pub mod Operations
use multi_tenant_subscriptio.Base.{Bool, ℕ, ◌≡◌}
use multi_tenant_subscriptio.Database.{Connection, insert_row, update_checked, update_rows}
use multi_tenant_subscriptio.Database.Preservation.{Preserves}
use multi_tenant_subscriptio.UserService.Repositories.{
  NewInvitation, NewUser, invitation_clashes, overwrite_user, user_clashes, user_of,
}
use multi_tenant_subscriptio.UserService.Tables.{
  Invitation, SubscriptionSeatView, User, UserDb, invitations_table, subscriptions_table,
  users_table,
}

pub record Rules (P : Connection UserDb → Type 0) : Type 0 where
  pub update_users :
      (p : User → Bool) (f : User → User)
      → ((u : User) → (f u).id ≡ u.id)
      → ((u : User) → (f u).organization_id ≡ u.organization_id)
      → Preserves P (update_rows users_table p f)
  pub insert_user :
      (n : NewUser) (now : ℕ)
      → Preserves P (insert_row users_table (user_clashes n) (user_of n now))
  pub overwrite : (n : NewUser) (old : User) → Preserves P (overwrite_user n old)
  pub update_invitations :
      (p : Invitation → Bool) (f : Invitation → Invitation)
      → ((i : Invitation) → (f i).id ≡ i.id)
      → ((i : Invitation) → (f i).organization_id ≡ i.organization_id)
      → Preserves P (update_rows invitations_table p f)
  pub insert_invitation :
      (id o : ℕ) (n : NewInvitation) (i : Invitation)
      → i.id ≡ id
      → Preserves P (insert_row invitations_table (invitation_clashes id o n) i)
  pub update_subscriptions :
      (p allowed : SubscriptionSeatView → Bool) (f : SubscriptionSeatView → SubscriptionSeatView)
      → ((s : SubscriptionSeatView) → (f s).organization_id ≡ s.organization_id)
      → Preserves P (update_checked subscriptions_table p allowed f)
