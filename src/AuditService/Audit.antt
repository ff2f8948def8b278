-- ===== src/AuditService/Audit.antt =====
-- audit/audit.service.ts.
use multi_tenant_subscriptio.Base.{Bool, Option, if◌then◌else◌, is_none, ℕ, ◌&&◌}
use multi_tenant_subscriptio.Common.{EventType, Payload, forbidden, includes, platform_admin}
use multi_tenant_subscriptio.AuditService.Repositories.{
  ListAuditQueryDto, list_all_for_platform_admin, list_records,
}
use multi_tenant_subscriptio.AuditService.Tables.{
  AuditDb, AuditRecord, AuditSeverity, audit_events_table, security_events_table,
}
use multi_tenant_subscriptio.Database.{
  Action, Context, Request, get_or_throw, pure, run_global, throw, transaction, ◌>>=◌, ◌>>◌,
}
use multi_tenant_subscriptio.Pagination.{CursorPage, map_page}

pub record AuditEventMetadataResponseDto : Type 0 where
  pub id : ℕ
  pub event_id : ℕ
  pub event_type : EventType
  pub organization_id : Option ℕ
  pub actor_user_id : Option ℕ
  pub correlation_id : ℕ
  pub severity : AuditSeverity
  pub occurred_at : ℕ

-- `AuditEventMetadataResponseDto`, or `AuditEventResponseDto`, which adds the payload.
pub data AuditDto : Type 0 where
  metadata_only : AuditEventMetadataResponseDto → AuditDto
  with_payload : AuditEventMetadataResponseDto → Payload → AuditDto

abbrev pub metadata_of : AuditRecord → AuditEventMetadataResponseDto
metadata_of row = record {
  id = row.id;
  event_id = row.event_id;
  event_type = row.event_type;
  organization_id = row.organization_id;
  actor_user_id = row.actor_user_id;
  correlation_id = row.correlation_id;
  severity = row.severity;
  occurred_at = row.occurred_at;
}

abbrev pub to_metadata_dto : AuditRecord → AuditDto
to_metadata_dto row = metadata_only (metadata_of row)

abbrev pub to_full_dto : AuditRecord → AuditDto
to_full_dto row = with_payload (metadata_of row) row.payload

unfoldable pub is_platform_admin_context : {S : Type 0} → Context → Action S Bool
unfolding get_or_throw
is_platform_admin_context ctx = do
  payload ← get_or_throw ctx
  pure (includes payload.roles platform_admin && is_none payload.organization_id)

unfoldable pub list_audit_events :
    Context → ListAuditQueryDto → Request AuditDb (CursorPage AuditDto)
unfolding is_platform_admin_context run_global list_all_for_platform_admin transaction list_records
list_audit_events ctx query = do
  platform ← is_platform_admin_context ctx
  if platform
      then (do
        found ← run_global (list_all_for_platform_admin audit_events_table query)
        pure (map_page to_metadata_dto found))
      else (do
        found ← transaction ctx (list_records audit_events_table ctx query)
        pure (map_page to_full_dto found))

unfoldable pub require_platform_admin : {S : Type 0} → Context → Action S (Unit {0})
unfolding is_platform_admin_context
require_platform_admin ctx = do
  platform ← is_platform_admin_context ctx
  if platform then pure tt else throw forbidden

unfoldable pub list_security_events :
    Context → ListAuditQueryDto → Request AuditDb (CursorPage AuditDto)
unfolding require_platform_admin run_global list_all_for_platform_admin
list_security_events ctx query = do
  require_platform_admin ctx
  found ← run_global (list_all_for_platform_admin security_events_table query)
  pure (map_page to_full_dto found)
