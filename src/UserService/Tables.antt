-- ===== src/UserService/Tables.antt =====
-- The tables that user-service works on: users/user.entity.ts, invitations/invitation.entity.ts,
-- subscriptions/subscription.entity.ts and the migrations that create them.
use multi_tenant_subscriptio.Base.{ℕ, Bool, true, false, ◌&&◌, Option, List, is_none}
use multi_tenant_subscriptio.Common.{UserRole}
use multi_tenant_subscriptio.Database.{Table}

pub data UserStatus : Type 0 where
  active removed : UserStatus

pub record User : Type 0 where
  pub id : ℕ
  pub organization_id : ℕ
  pub email : ℕ
  pub first_name : ℕ
  pub last_name : ℕ
  pub role : UserRole
  pub status : UserStatus
  pub created_at : ℕ

pub record Invitation : Type 0 where
  pub id : ℕ
  pub organization_id : ℕ
  pub email : ℕ
  pub role : UserRole
  pub token_hash : ℕ
  pub expires_at : ℕ
  pub accepted_at : Option ℕ
  pub revoked_at : Option ℕ
  pub created_at : ℕ

pub record SubscriptionSeatView : Type 0 where
  pub organization_id : ℕ
  pub used_seats : ℕ
  pub max_seats_snapshot : ℕ

-- The schemas `users` and `subs` of core_db, as far as this service may reach.
pub record UserDb : Type 0 where
  pub users : List User
  pub invitations : List Invitation
  pub subscriptions : List SubscriptionSeatView

abbrev pub users_table : Table UserDb User
users_table = record {
  rows = λ d. d.users;
  put = λ d rows. record d { users = rows };
  owner = λ u. u.organization_id;
}

abbrev pub invitations_table : Table UserDb Invitation
invitations_table = record {
  rows = λ d. d.invitations;
  put = λ d rows. record d { invitations = rows };
  owner = λ i. i.organization_id;
}

abbrev pub subscriptions_table : Table UserDb SubscriptionSeatView
subscriptions_table = record {
  rows = λ d. d.subscriptions;
  put = λ d rows. record d { subscriptions = rows };
  owner = λ s. s.organization_id;
}

abbrev pub is_active : User → Bool
is_active u = elim u.status [ active ↦ true | removed ↦ false ]

abbrev pub is_admin : UserRole → Bool
is_admin UserRole.org_admin = true
is_admin UserRole.org_member = false

-- accepted_at IS NULL AND revoked_at IS NULL
abbrev pub is_pending : Invitation → Bool
is_pending i = is_none i.accepted_at && is_none i.revoked_at
