-- ===== src/UserService/Tests.antt =====
-- A small organisation, and the theorems at it.
use multi_tenant_subscriptio.Base.{
  [], arith, length, map, max, none, not, refl, some, true, ℕ, ◌+◌, ◌==◌, ◌∷◌, ◌≡◌, ◌≤◌,
}
use multi_tenant_subscriptio.Common.{
  TenantContextPayload, UserRole, organization_provisioned, plan_limit_exceeded, seats,
}
use multi_tenant_subscriptio.Database.{Outcome, World, caller, returned, thrown}
use multi_tenant_subscriptio.UserService.History.{
  History, History-Sound, Sound, accepts, invites, next, start,
}
use multi_tenant_subscriptio.UserService.Isolation.{foreign}
use multi_tenant_subscriptio.UserService.Isolation.Requests.{member_requests-foreign}
use multi_tenant_subscriptio.UserService.Keys.{HasKeys}
use multi_tenant_subscriptio.UserService.LastAdmin.{admins, requests-keep_admin}
use multi_tenant_subscriptio.UserService.Outcomes.{invite-full}
use multi_tenant_subscriptio.UserService.Provisioning.{
  OrganizationProvisionedPayload, handle_provisioned,
}
use multi_tenant_subscriptio.UserService.Reading.{
  every_item, get_role_for_auth_service-role, list_page-skips,
}
use multi_tenant_subscriptio.UserService.SeatCount.{IsCounted, holders, scoped}
use multi_tenant_subscriptio.UserService.SeatCount.Provision.{handle_provisioned-IsCounted}
use multi_tenant_subscriptio.UserService.SeatCount.Twice.{
  first_tables, revoke_check, revoke_release, second_tables, two_revocations,
}
use multi_tenant_subscriptio.UserService.Sweep.{run_sweep}
use multi_tenant_subscriptio.UserService.SweepEffect.{run_sweep-idle}
use multi_tenant_subscriptio.UserService.Tables.{
  Invitation, SubscriptionSeatView, User, UserDb, active,
}
use multi_tenant_subscriptio.UserService.Users.{
  AcceptInvitationDto, InviteUserDto, Runtime, accept_invitation, invite, invite_work, remove_user,
  revoke_invitation, revoke_work, to_user_dto, update_role,
}
use multi_tenant_subscriptio.UserService.UsersRead.{get_role_for_auth_service, list_page}

abbrev context : TenantContextPayload
context = record {
  user_id = some 7;
  organization_id = none;
  roles = [];
  correlation_id = 0;
  iat = 0;
  exp = 60;
}

abbrev runtime : Runtime
runtime = record { now = 1000; random_token = 55; next_id = 31; sha256 = λ token. token + 100 }

abbrev admin : User
admin = record {
  id = 7;
  organization_id = 1;
  email = 70;
  first_name = 71;
  last_name = 72;
  role = UserRole.org_admin;
  status = active;
  created_at = 5;
}

abbrev waiting : Invitation
waiting = record {
  id = 30;
  organization_id = 1;
  email = 80;
  role = UserRole.org_member;
  token_hash = 144;
  expires_at = 2000;
  accepted_at = none;
  revoked_at = none;
  created_at = 900;
}

abbrev seat_row : ℕ → SubscriptionSeatView
seat_row max = record { organization_id = 1; used_seats = 2; max_seats_snapshot = max }

abbrev world : ℕ → World UserDb
world max = record {
  db = record { users = admin ∷ []; invitations = waiting ∷ []; subscriptions = seat_row max ∷ [] };
  published = [];
}

abbrev newcomer : InviteUserDto
newcomer = record { email = 90; role = UserRole.org_member }

keys : (max : ℕ) → HasKeys (world max).db
keys max = record { user_keys = λ id. ground arith; invitation_keys = λ id. ground arith }

sound : Sound 1 0 (world 3).db
unfolding holders
sound = record { has_keys = keys 3; counted = refl }

abbrev joining : AcceptInvitationDto
joining = record { password = 11; first_name = 81; last_name = 82 }

-- The pending invitation is accepted, and then another one is made.
abbrev joined : World UserDb
joined =
    (accept_invitation none runtime (λ o email password. returned 8) 1000 44 joining (world 3)).1

history : History (world 3) (invite (caller 1 context) runtime newcomer joined).1
history =
    next
      (next start (
        accepts none runtime (λ o email password. returned 8) 1000 44 joining
          (λ o email password id minted. ground arith)))
      (invites 1 context runtime newcomer)

History-Sound_example : Sound 1 0 (invite (caller 1 context) runtime newcomer joined).1.db
History-Sound_example = History-Sound 1 0 sound history

-- The history ends with two users, one open invitation and three seats taken.
joined-counts :
    (length (invite (caller 1 context) runtime newcomer joined).1.db.users ≡ 2)
    × (map
          (λ s. s.used_seats)
          (invite (caller 1 context) runtime newcomer joined).1.db.subscriptions
        ≡ 3 ∷ [])
unfolding invite invite_work accept_invitation
joined-counts = (refl, refl)

member_requests-foreign_example :
    (foreign 1 (invite (caller 1 context) runtime newcomer (world 3)).1.db ≡ foreign 1 (world 3).db)
    × (foreign 1 (revoke_invitation (caller 1 context) runtime 30 (world 3)).1.db
        ≡ foreign 1 (world 3).db)
    × (foreign 1 (update_role (caller 1 context) 30 UserRole.org_member (world 3)).1.db
        ≡ foreign 1 (world 3).db)
    × (foreign 1 (remove_user (caller 1 context) 30 (world 3)).1.db ≡ foreign 1 (world 3).db)
member_requests-foreign_example =
    member_requests-foreign 1 context (world 3) runtime newcomer 30 UserRole.org_member

requests-keep_admin_example :
    (1 ≤ admins 1 (update_role (caller 1 context) 7 UserRole.org_member (world 3)).1.db)
    × (1 ≤ admins 1 (remove_user (caller 1 context) 7 (world 3)).1.db)
unfolding admins
requests-keep_admin_example =
    requests-keep_admin 1 context (world 3) (keys 3) (omega arith) 7 UserRole.org_member

run_sweep-idle_example : run_sweep 5000 (world 3) ≡ (returned tt, world 3)
run_sweep-idle_example = run_sweep-idle 5000 (world 3)

abbrev provisioned_admin : OrganizationProvisionedPayload
provisioned_admin = record {
  organization_id = 1;
  admin_user_id = 9;
  admin_email = 91;
  admin_first_name = 92;
  admin_last_name = 93;
}

abbrev after_provisioning : Outcome (Unit {0}) × World UserDb
after_provisioning =
    handle_provisioned (caller 1 context) 1000 organization_provisioned provisioned_admin (world 3)

handle_provisioned-IsCounted_example :
    (after_provisioning.0 ≡ returned tt)
    × (after_provisioning.1.published ≡ [])
    × (after_provisioning.1.db.subscriptions ≡ (world 3).db.subscriptions)
    × IsCounted 1 1 after_provisioning.1.db
handle_provisioned-IsCounted_example =
    handle_provisioned-IsCounted 0 1000 context provisioned_admin (world 3) refl sound.counted

invite-full_example : invite (caller 1 context) runtime newcomer (world 2) ≡ (
  thrown (
      plan_limit_exceeded (record {
        limit_type = seats;
        limit = 2;
        current = 2;
        plan_code = none;
        active_users = some 1;
        pending_invitations = some 1;
      })),
  world 2,
)
invite-full_example =
    invite-full 1 context (world 2) runtime (seat_row 2) refl (omega arith) newcomer

-- Two members who were created in one millisecond, at 5.2 and at 5.1 milliseconds.
abbrev at_microsecond : ℕ → ℕ → User
at_microsecond id created_at = record admin { id = id; email = id; created_at = created_at }

abbrev crowded : World UserDb
crowded = record (world 3) {
  db = record (world 3).db { users = at_microsecond 4 5100 ∷ at_microsecond 5 5200 ∷ [] };
}

first_of_two :
    (list_page (caller 1 context) (record { cursor = none; limit = some 1 }) crowded).0
    ≡ returned (record {
      items = to_user_dto (at_microsecond 5 5200) ∷ [];
      next_cursor = some (record { sort_value = 5000; id = 5 });
      has_more = true;
    })
unfolding list_page
first_of_two = refl

list_page-skips_example :
    every_item
      (λ dto. not (dto.id == 4))
      (list_page
        (caller 1 context)
        (record { cursor = some (record { sort_value = 5000; id = 5 }); limit = some 1 })
        crowded).0
    ≡ true
list_page-skips_example =
    list_page-skips 1 context (some 1) crowded (at_microsecond 5 5200) (at_microsecond 4 5100) refl
      refl

get_role_for_auth_service-role_example :
    get_role_for_auth_service 4 crowded ≡ (returned (some UserRole.org_admin), crowded)
get_role_for_auth_service-role_example = get_role_for_auth_service-role 4 crowded (omega arith)

-- Two seats are counted and held; in the end none is counted and one is held.
two_revocations_example :
    (revoke_check (caller 1 context) 30 (scoped 1 (world 3).db)
      ≡ (returned waiting, scoped 1 (world 3).db))
    × (revoke_work (caller 1 context) 1000 (some 1) 30 (scoped 1 (world 3).db)
        ≡ (returned tt, scoped 1 (first_tables 1 0 1000 1001 30 context context (world 3).db)))
    × (revoke_release
          (caller 1 context)
          1001
          (some 1)
          30
          (scoped 1 (first_tables 1 0 1000 1001 30 context context (world 3).db))
        ≡ (returned tt, scoped 1 (second_tables 1 0 1000 1001 30 context context (world 3).db)))
    × IsCounted 1 1 (second_tables 1 0 1000 1001 30 context context (world 3).db)
two_revocations_example =
    two_revocations 1 0 1000 1001 30 context context (world 3).db (seat_row 3) waiting (keys 3)
      sound.counted refl (omega arith) (omega arith) (omega arith) refl refl
