-- ===== src/ResourceService/Resources.antt =====
-- resources/resources.service.ts.
use multi_tenant_subscriptio.Base.{
  List, Option, eq_nullable, if◌then◌else◌, ltb, map, neg, none, pos, some, ℕ, ◌+◌,
}
use multi_tenant_subscriptio.Common.{
  DomainEvent, Error, EventType, LimitType, Payload, Role, TenantContextPayload, cross_tenant,
  cross_tenant_access_attempted, forbidden, includes, not_found, plan_limit_exceeded,
  platform_admin_context, resource_added, resource_created, resource_deleted, resource_events,
  resource_removed, resource_subject, security_events, type_error,
}
use multi_tenant_subscriptio.Database.{
  Action, Context, Request, Tx, catch, get_or_throw, or_throw, publish, pure, run_global, throw,
  transaction, ◌>>=◌, ◌>>◌,
}
use multi_tenant_subscriptio.ResourceService.Repositories.{
  StorageSnapshot, adjust_used_storage_bytes, create_resource, find_all_resources_for_report,
  find_resource_by_id, lock_storage, resource_exists, soft_delete,
}
use multi_tenant_subscriptio.ResourceService.Tables.{Resource, ResourceDb}

pub record CreateResourceDto : Type 0 where
  pub name : ℕ
  pub description : Option ℕ
  pub size_bytes : ℕ

pub record ResourceResponseDto : Type 0 where
  pub id : ℕ
  pub name : ℕ
  pub description : Option ℕ
  pub size_bytes : ℕ
  pub created_by : ℕ
  pub created_at : ℕ

abbrev pub to_dto : Resource → ResourceResponseDto
to_dto r = record {
  id = r.id;
  name = r.name;
  description = r.description;
  size_bytes = r.size_bytes;
  created_by = r.created_by;
  created_at = r.created_at;
}

-- The user of the ambient context, for the envelope of an event.
abbrev pub acting_user : Context → Option ℕ
acting_user none = none
acting_user (some payload) = payload.user_id

abbrev pub resource_event : Context → ℕ → EventType → Payload → DomainEvent
resource_event ctx organization_id event_type payload = record {
  topic = resource_events;
  event_type = event_type;
  organization_id = some organization_id;
  actor_user_id = acting_user ctx;
  payload = payload;
}

abbrev pub storage_rejected : StorageSnapshot → Error
storage_rejected counter = plan_limit_exceeded (record {
  limit_type = LimitType.storage;
  limit = counter.max_storage_bytes;
  current = counter.used_storage_bytes;
  plan_code = none;
  active_users = none;
  pending_invitations = none;
})

-- The body of the transaction of `create`. `id` and `now` are the database's.
unfoldable pub create_work : Context → ℕ → ℕ → ℕ → ℕ → CreateResourceDto → Tx ResourceDb Resource
unfolding lock_storage create_resource adjust_used_storage_bytes
create_work ctx now id organization_id created_by dto = do
  counter ← lock_storage organization_id
  if ltb counter.max_storage_bytes (counter.used_storage_bytes + dto.size_bytes)
      then throw (storage_rejected counter)
      else (do
        saved ← create_resource ctx id now (record {
          name = dto.name;
          description = dto.description;
          size_bytes = dto.size_bytes;
          created_by = created_by;
        })
        adjust_used_storage_bytes now organization_id (pos dto.size_bytes)
        pure saved)

-- `ctx.organizationId!` and `ctx.userId!`: the routes are open to users of an organisation only, and
-- the database refuses a NULL in these columns.
unfoldable pub create : Context → ℕ → ℕ → CreateResourceDto → Request ResourceDb ResourceResponseDto
unfolding get_or_throw transaction create_work publish
create ctx now id dto = do
  payload ← get_or_throw ctx
  organization_id ← or_throw payload.organization_id platform_admin_context
  created_by ← or_throw payload.user_id type_error
  resource ← transaction ctx (create_work ctx now id organization_id created_by dto)
  publish (
      resource_event ctx organization_id resource_created
        (resource_added resource.id resource.name resource.size_bytes))
  pure (to_dto resource)

abbrev pub security_event : TenantContextPayload → ℕ → DomainEvent
security_event payload id = record {
  topic = security_events;
  event_type = cross_tenant_access_attempted;
  organization_id = payload.organization_id;
  actor_user_id = payload.user_id;
  payload = cross_tenant resource_subject id payload.organization_id payload.user_id;
}

-- A failure of the probe is logged and goes no further.
unfoldable pub report_if_cross_tenant_attempt : Context → ℕ → Request ResourceDb (Unit {0})
unfolding get_or_throw run_global resource_exists publish
report_if_cross_tenant_attempt ctx id =
    catch
      (do
        payload ← get_or_throw ctx
        exists_elsewhere ← run_global (resource_exists id)
        if exists_elsewhere then publish (security_event payload id) else pure tt)
      (λ _. pure tt)

unfoldable pub get_by_id : Context → ℕ → Request ResourceDb ResourceResponseDto
unfolding transaction find_resource_by_id report_if_cross_tenant_attempt
get_by_id ctx id = do
  found ← transaction ctx (find_resource_by_id ctx id)
  elim found [
    | none ↦ report_if_cross_tenant_attempt ctx id >> throw not_found
    | some resource ↦ pure (to_dto resource)
  ]

unfoldable pub assert_may_modify : {S : Type 0} → Context → Resource → Action S (Unit {0})
unfolding get_or_throw
assert_may_modify ctx resource = do
  payload ← get_or_throw ctx
  if includes payload.roles Role.org_admin
      then pure tt
      else if eq_nullable resource.created_by payload.user_id
      then pure tt
      else throw forbidden

-- The transaction of `remove` after a row is found.
unfoldable pub delete_found : Context → ℕ → ℕ → ℕ → Resource → Tx ResourceDb (Option Resource)
unfolding assert_may_modify lock_storage soft_delete adjust_used_storage_bytes
delete_found ctx now organization_id id resource = do
  assert_may_modify ctx resource
  lock_storage organization_id
  soft_delete ctx now id
  adjust_used_storage_bytes now organization_id (neg resource.size_bytes)
  pure (some resource)

unfoldable pub remove_resource_work : Context → ℕ → ℕ → ℕ → Tx ResourceDb (Option Resource)
unfolding find_resource_by_id delete_found
remove_resource_work ctx now organization_id id = do
  found ← find_resource_by_id ctx id
  elim found [ none ↦ pure none | some resource ↦ delete_found ctx now organization_id id resource ]

unfoldable pub remove_resource : Context → ℕ → ℕ → Request ResourceDb (Unit {0})
unfolding get_or_throw transaction remove_resource_work report_if_cross_tenant_attempt publish
remove_resource ctx now id = do
  payload ← get_or_throw ctx
  organization_id ← or_throw payload.organization_id platform_admin_context
  removed ← transaction ctx (remove_resource_work ctx now organization_id id)
  elim removed [
    | none ↦ report_if_cross_tenant_attempt ctx id >> throw not_found
    | some resource ↦ publish (
        resource_event ctx organization_id resource_deleted
          (resource_removed resource.id resource.size_bytes))
  ]

unfoldable pub find_all_for_report : Context → Request ResourceDb (List ResourceResponseDto)
unfolding transaction find_all_resources_for_report
find_all_for_report ctx = do
  rows ← transaction ctx find_all_resources_for_report
  pure (map to_dto rows)
