-- ===== src/UserService/UsersRead.antt =====
-- users/users-read.service.ts.
use multi_tenant_subscriptio.Base.{List, Option, if◌then◌else◌, map, none, some, ℕ}
use multi_tenant_subscriptio.Common.{
  DomainEvent, TenantContextPayload, UserRole, cross_tenant, cross_tenant_access_attempted,
  not_found, security_events, user_subject,
}
use multi_tenant_subscriptio.Database.{
  Context, Request, catch, get_or_throw, publish, pure, run_global, throw, transaction, ◌>>=◌, ◌>>◌,
}
use multi_tenant_subscriptio.Pagination.{CursorPage, CursorQuery, map_page}
use multi_tenant_subscriptio.UserService.Lists.{
  find_role_by_user_id, list_pending, list_users, user_exists,
}
use multi_tenant_subscriptio.UserService.Repositories.{find_user_by_id}
use multi_tenant_subscriptio.UserService.Tables.{Invitation, UserDb}
use multi_tenant_subscriptio.UserService.Users.{UserResponseDto, to_user_dto}

unfoldable pub list_page : Context → CursorQuery → Request UserDb (CursorPage UserResponseDto)
unfolding transaction list_users
list_page ctx query = do
  found ← transaction ctx (list_users ctx query)
  pure (map_page to_user_dto found)

pub record InvitationResponseDto : Type 0 where
  pub id : ℕ
  pub email : ℕ
  pub role : UserRole
  pub expires_at : ℕ
  pub created_at : ℕ

abbrev pub to_invitation_dto : Invitation → InvitationResponseDto
to_invitation_dto i = record {
  id = i.id;
  email = i.email;
  role = i.role;
  expires_at = i.expires_at;
  created_at = i.created_at;
}

unfoldable pub list_pending_invitations : Context → ℕ → Request UserDb (List InvitationResponseDto)
unfolding get_or_throw transaction list_pending
list_pending_invitations ctx now = do
  payload ← get_or_throw ctx
  invitations ← transaction ctx (list_pending now payload.organization_id)
  pure (map to_invitation_dto invitations)

abbrev pub probe_event : TenantContextPayload → ℕ → DomainEvent
probe_event payload user_id = record {
  topic = security_events;
  event_type = cross_tenant_access_attempted;
  organization_id = payload.organization_id;
  actor_user_id = payload.user_id;
  payload = cross_tenant user_subject user_id payload.organization_id payload.user_id;
}

-- A failure of the probe is logged and goes no further.
unfoldable pub report_if_cross_tenant_attempt : Context → ℕ → Request UserDb (Unit {0})
unfolding get_or_throw run_global user_exists publish
report_if_cross_tenant_attempt ctx user_id =
    catch
      (do
        payload ← get_or_throw ctx
        exists_elsewhere ← run_global (user_exists user_id)
        if exists_elsewhere then publish (probe_event payload user_id) else pure tt)
      (λ _. pure tt)

unfoldable pub get_user_by_id : Context → ℕ → Request UserDb UserResponseDto
unfolding transaction find_user_by_id report_if_cross_tenant_attempt
get_user_by_id ctx id = do
  found ← transaction ctx (find_user_by_id ctx id)
  elim found [
    | none ↦ report_if_cross_tenant_attempt ctx id >> throw not_found
    | some found_user ↦ pure (to_user_dto found_user)
  ]

unfoldable pub get_role_for_auth_service : ℕ → Request UserDb (Option UserRole)
unfolding find_role_by_user_id
get_role_for_auth_service user_id = find_role_by_user_id user_id
