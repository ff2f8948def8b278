-- ===== src/UserService/Users.antt =====
-- users/users.service.ts: the operations that change members, invitations and seats.
-- What a request takes from outside stands in `Runtime`; the time stands still within a step.
use multi_tenant_subscriptio.Base.{
  Bool, Option, if◌then◌else◌, leb, negsuc, none, not, pos, some, ℕ, ◌&&◌, ◌*◌, ◌+◌,
}
use multi_tenant_subscriptio.Common.{
  DomainEvent, Error, EventType, Payload, UserRole, conflict, created, gone, invitation,
  invitation_accepted, invitation_already_pending, invitation_revoked, invited, last_admin,
  not_found, plan_limit_exceeded, role_changed, seats, type_error, user, user_created, user_events,
  user_invited, user_removed, user_role_changed,
}
use multi_tenant_subscriptio.Database.{
  Context, Outcome, Request, Tx, await, catch, get_or_throw, or_throw, publish, pure, run_global,
  throw, transaction, transaction_for_organization, transaction_with_deferred_scope, ◌>>=◌, ◌>>◌,
}
use multi_tenant_subscriptio.UserService.Repositories.{
  NewInvitation, NewUser, SeatSnapshot, adjust_used_seats, count_active, count_active_admins,
  count_pending, create_invitation, create_user, find_invitation_by_id, find_pending_by_token_hash,
  find_user_by_id, lock_seats, mark_accepted, mark_removed, mark_revoked, organization_of_token,
  update_user_role,
}
use multi_tenant_subscriptio.UserService.Tables.{
  Invitation, User, UserDb, UserStatus, is_active, is_admin, is_pending,
}

pub record Runtime : Type 0 where
  pub now : ℕ
  pub random_token : ℕ  -- `randomUUID() + randomUUID()`
  pub next_id : ℕ  -- gen_random_uuid() of the next INSERT
  pub sha256 : ℕ → ℕ

abbrev pub invitation_expiry_ms : ℕ
invitation_expiry_ms = 7 * 24 * 60 * 60 * 1000

-- `publishEvent`: the actor is the caller of the ambient context, if there is one.
abbrev pub actor : Context → Option ℕ
actor none = none
actor (some payload) = payload.user_id

abbrev pub user_event : Context → Option ℕ → EventType → Payload → DomainEvent
user_event ctx organization_id event_type payload = record {
  topic = user_events;
  event_type = event_type;
  organization_id = organization_id;
  actor_user_id = actor ctx;
  payload = payload;
}

pub record InviteUserDto : Type 0 where
  pub email : ℕ
  pub role : UserRole

pub record InviteResponse : Type 0 where
  pub invitation_id : ℕ
  pub token_for_dev : ℕ

abbrev pub seats_rejected : SeatSnapshot → ℕ → ℕ → Error
seats_rejected seat active_users pending_invitations = plan_limit_exceeded (record {
  limit_type = seats;
  limit = seat.max_seats_snapshot;
  current = seat.used_seats;
  plan_code = none;
  active_users = some active_users;
  pending_invitations = some pending_invitations;
})

unfoldable pub reject_seats : ℕ → Option ℕ → SeatSnapshot → Tx UserDb ℕ
unfolding count_active count_pending
reject_seats now organization_id seat = do
  active_users ← count_active organization_id
  pending_invitations ← count_pending now organization_id
  throw (seats_rejected seat active_users pending_invitations)

abbrev pub pending_to_conflict : Error → Error
pending_to_conflict invitation_already_pending = conflict
pending_to_conflict e = e

unfoldable pub take_seat : Context → Runtime → Option ℕ → NewInvitation → Tx UserDb ℕ
unfolding create_invitation adjust_used_seats
take_seat ctx rt organization_id new = do
  i ← catch (create_invitation ctx rt.next_id rt.now new) (λ e. throw (pending_to_conflict e))
  adjust_used_seats organization_id (pos 1)
  pure i.id

-- The body of the transaction of `invite`.
unfoldable pub invite_work : Context → Runtime → Option ℕ → NewInvitation → Tx UserDb ℕ
unfolding lock_seats reject_seats take_seat
invite_work ctx rt organization_id new = do
  seat ← lock_seats organization_id
  if leb seat.max_seats_snapshot seat.used_seats
      then reject_seats rt.now organization_id seat
      else take_seat ctx rt organization_id new

unfoldable pub invite : Context → Runtime → InviteUserDto → Request UserDb InviteResponse
unfolding get_or_throw transaction publish
invite ctx rt dto = do
  payload ← get_or_throw ctx
  let new : NewInvitation = record {
    email = dto.email;
    role = dto.role;
    token_hash = rt.sha256 rt.random_token;
    expires_at = rt.now + invitation_expiry_ms;
  }
  id ← transaction ctx (invite_work ctx rt payload.organization_id new)
  publish (user_event ctx payload.organization_id user_invited (invited id dto.email dto.role))
  pure (record { invitation_id = id; token_for_dev = rt.random_token })

pub record UserResponseDto : Type 0 where
  pub id : ℕ
  pub email : ℕ
  pub first_name : ℕ
  pub last_name : ℕ
  pub role : UserRole
  pub status : UserStatus

abbrev pub to_user_dto : User → UserResponseDto
to_user_dto u = record {
  id = u.id;
  email = u.email;
  first_name = u.first_name;
  last_name = u.last_name;
  role = u.role;
  status = u.status;
}

-- `!invitation || invitation.expiresAt.getTime() <= Date.now()`
abbrev pub unexpired : ℕ → Option Invitation → Option Invitation
unexpired now none = none
unexpired now (some i) = if leb i.expires_at now then none else some i

pub record AcceptInvitationDto : Type 0 where
  pub password : ℕ
  pub first_name : ℕ
  pub last_name : ℕ

pub record Accepted : Type 0 where
  pub user : User
  pub invitation_id : ℕ

abbrev pub invited_user : ℕ → ℕ → Invitation → AcceptInvitationDto → NewUser
invited_user user_id organization_id i dto = record {
  id = user_id;
  organization_id = organization_id;
  email = i.email;
  first_name = dto.first_name;
  last_name = dto.last_name;
  role = i.role;
}

-- The locking transaction of `acceptInvitation`, after `setScope`.
unfoldable pub accept_work : ℕ → ℕ → ℕ → ℕ → AcceptInvitationDto → Tx UserDb Accepted
unfolding find_pending_by_token_hash lock_seats create_user mark_accepted
accept_work now token_hash organization_id user_id dto = do
  found ← find_pending_by_token_hash token_hash
  i ← or_throw (unexpired now found) gone
  lock_seats (some organization_id)
  u ← create_user (invited_user user_id organization_id i dto) now
  mark_accepted now i.id
  pure (record { user = u; invitation_id = i.id })

-- auth-service's POST /internal/credentials, as the client sees it: the id that it minted, or an
-- error. The arguments are the organisation, the address and the password.
abbrev pub CreateCredentials : Type 0
CreateCredentials = ℕ → ℕ → ℕ → Outcome ℕ

-- `peeked` is the time up to the call of auth-service, `rt.now` the time after it.
unfoldable pub accept_invitation :
    Context
    → Runtime
    → CreateCredentials
    → ℕ
    → ℕ
    → AcceptInvitationDto
    → Request UserDb UserResponseDto
unfolding run_global organization_of_token transaction_for_organization find_pending_by_token_hash
    transaction_with_deferred_scope accept_work publish
accept_invitation ctx rt create_credentials peeked token_raw dto = do
  let token_hash : ℕ = rt.sha256 token_raw
  resolved ← run_global (organization_of_token peeked token_hash)
  organization_id ← or_throw resolved gone
  found ← transaction_for_organization organization_id (find_pending_by_token_hash token_hash)
  i ← or_throw (unexpired peeked found) gone
  user_id ← await (create_credentials organization_id i.email dto.password)
  done ← transaction_with_deferred_scope (λ set_scope.
      set_scope organization_id >> accept_work rt.now token_hash organization_id user_id dto)
  publish
      (user_event ctx (some organization_id) user_created (created done.user.id done.user.email))
  publish
      (user_event ctx (some organization_id) invitation_accepted (invitation done.invitation_id))
  pure (to_user_dto done.user)

abbrev pub still_pending : Option Invitation → Option Invitation
still_pending none = none
still_pending (some i) = if is_pending i then some i else none

unfoldable pub revoke_work : Context → ℕ → Option ℕ → ℕ → Tx UserDb (Unit {0})
unfolding find_invitation_by_id lock_seats mark_revoked adjust_used_seats
revoke_work ctx now organization_id id = do
  found ← find_invitation_by_id ctx id
  or_throw (still_pending found) not_found
  lock_seats organization_id
  mark_revoked ctx now id
  adjust_used_seats organization_id (negsuc 0)

unfoldable pub revoke_invitation : Context → Runtime → ℕ → Request UserDb (Unit {0})
unfolding get_or_throw transaction revoke_work publish
revoke_invitation ctx rt id = do
  payload ← get_or_throw ctx
  transaction ctx (revoke_work ctx rt.now payload.organization_id id)
  publish (user_event ctx payload.organization_id invitation_revoked (invitation id))

-- `if (protects) { if ((await countActiveAdmins) <= 1) throw new LastAdminException(); }`
unfoldable pub guard_last_admin : Bool → Option ℕ → Tx UserDb (Unit {0})
unfolding count_active_admins
guard_last_admin protects organization_id =
    if protects
    then (do
      admins ← count_active_admins organization_id
      if leb admins 1 then throw last_admin else pure tt)
    else pure tt

unfoldable pub update_role_work : Context → Option ℕ → ℕ → UserRole → Tx UserDb (Option User)
unfolding find_user_by_id guard_last_admin update_user_role
update_role_work ctx organization_id user_id role = do
  found ← find_user_by_id ctx user_id
  u ← or_throw found not_found
  guard_last_admin (is_admin u.role && not (is_admin role)) organization_id
  update_user_role ctx user_id role
  find_user_by_id ctx user_id

unfoldable pub update_role : Context → ℕ → UserRole → Request UserDb UserResponseDto
unfolding get_or_throw transaction update_role_work publish
update_role ctx user_id role = do
  payload ← get_or_throw ctx
  updated ← transaction ctx (update_role_work ctx payload.organization_id user_id role)
  publish (user_event ctx payload.organization_id user_role_changed (role_changed user_id role))
  u ← or_throw updated type_error
  pure (to_user_dto u)

abbrev pub not_removed : Option User → Option User
not_removed none = none
not_removed (some u) = if is_active u then some u else none

unfoldable pub remove_work : Context → Option ℕ → ℕ → Tx UserDb (Unit {0})
unfolding find_user_by_id guard_last_admin lock_seats mark_removed adjust_used_seats
remove_work ctx organization_id user_id = do
  found ← find_user_by_id ctx user_id
  u ← or_throw (not_removed found) not_found
  guard_last_admin (is_admin u.role) organization_id
  lock_seats organization_id
  mark_removed ctx user_id
  adjust_used_seats organization_id (negsuc 0)

unfoldable pub remove_user : Context → ℕ → Request UserDb (Unit {0})
unfolding get_or_throw transaction remove_work publish
remove_user ctx user_id = do
  payload ← get_or_throw ctx
  transaction ctx (remove_work ctx payload.organization_id user_id)
  publish (user_event ctx payload.organization_id user_removed (user user_id))
