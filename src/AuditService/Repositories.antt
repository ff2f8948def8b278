-- ===== src/AuditService/Repositories.antt =====
-- audit/audit-record.repository.ts. `app_user` may SELECT and INSERT, and nothing else.
use multi_tenant_subscriptio.Base.{
  Bool, Option, [], eq_nullable, first, if◌then◌else◌, none, select, some, true, ℕ, ◌&&◌, ◌++◌,
  ◌==◌, ◌||◌, ◌∷◌,
}
use multi_tenant_subscriptio.Common.{
  EventType, Payload, authentication_failed, cross_tenant_access_attempted, invitation_accepted,
  invitation_expired, invitation_revoked, onboarding_failed, organization_created,
  organization_provisioned, organization_suspended, plan_limit_exceeded_event, resource_created,
  resource_deleted, rls_violation, subscription_assigned, subscription_changed, unique_violation,
  usage_updated, user_created, user_credentials_created, user_invited, user_removed,
  user_role_changed,
}
use multi_tenant_subscriptio.AuditService.Tables.{
  AuditDb, AuditRecord, AuditSeverity, AuditTable, sees_record,
}
use multi_tenant_subscriptio.Database.{Context, Tx, returned, tenant_id, thrown, ◌>>=◌}
use multi_tenant_subscriptio.Pagination.{
  Cursor, CursorPage, CursorQuery, Listing, after_cursor, fetched,
}

pub record CreateAuditRecordData : Type 0 where
  pub event_id : ℕ
  pub event_type : EventType
  pub organization_id : Option ℕ
  pub actor_user_id : Option ℕ
  pub correlation_id : ℕ
  pub severity : AuditSeverity
  pub payload : Payload
  pub occurred_at : ℕ

-- `id` and `now` are the database's gen_random_uuid() and now().
abbrev pub record_of : (id now : ℕ) → CreateAuditRecordData → AuditRecord
record_of id now fields = record {
  id = id;
  event_id = fields.event_id;
  event_type = fields.event_type;
  organization_id = fields.organization_id;
  actor_user_id = fields.actor_user_id;
  correlation_id = fields.correlation_id;
  severity = fields.severity;
  payload = fields.payload;
  occurred_at = fields.occurred_at;
  created_at = now;
}

-- The primary key, and uq_audit_events_event_id or uq_security_events_event_id.
abbrev pub record_clashes : (id event_id : ℕ) → AuditRecord → Bool
record_clashes id event_id r = r.id == id || r.event_id == event_id

-- The name of an event's type as a number; 0 is the empty text.
abbrev pub type_code : EventType → ℕ
type_code organization_created = 1
type_code organization_provisioned = 2
type_code onboarding_failed = 3
type_code organization_suspended = 4
type_code user_credentials_created = 5
type_code user_invited = 6
type_code user_created = 7
type_code user_removed = 8
type_code user_role_changed = 9
type_code invitation_accepted = 10
type_code invitation_revoked = 11
type_code invitation_expired = 12
type_code subscription_assigned = 13
type_code subscription_changed = 14
type_code usage_updated = 15
type_code plan_limit_exceeded_event = 16
type_code resource_created = 17
type_code resource_deleted = 18
type_code cross_tenant_access_attempted = 19
type_code authentication_failed = 20

pub record ListAuditQueryDto : Type 0 where
  pub cursor : Option Cursor
  pub limit : Option ℕ
  pub event_type : Option ℕ

abbrev pub type_filter : Option ℕ → AuditRecord → Bool
type_filter none r = true
type_filter (some text) r = text == 0 || type_code r.event_type == text

-- `if (organizationId !== null) qb.andWhere(…)`
abbrev pub organization_filter : Option ℕ → AuditRecord → Bool
organization_filter none r = true
organization_filter (some organization_id) r = eq_nullable organization_id r.organization_id

-- occurred_at was written from a Date: it reaches the cursor as it is.
abbrev pub audit_listing : Listing AuditRecord
audit_listing = record { sort_value = λ r. r.occurred_at; id = λ r. r.id; shown = λ v. v }

abbrev pub audit_paging : ListAuditQueryDto → CursorQuery
audit_paging query = record { cursor = query.cursor; limit = query.limit }

abbrev pub audit_filter : ListAuditQueryDto → Option ℕ → AuditRecord → Bool
audit_filter query organization_id r =
    organization_filter organization_id r && type_filter query.event_type r

module _ (t : AuditTable) where
  unfoldable pub create_record : (id now : ℕ) → CreateAuditRecordData → Tx AuditDb AuditRecord
  create_record id now fields c =
      if sees_record c.current_org fields.organization_id
      then (elim (first (record_clashes id fields.event_id) (t.rows c.tables)) [
        | some _ ↦ (thrown unique_violation, c)
        | none ↦ (
          returned (record_of id now fields),
          record c { tables = t.put c.tables (t.rows c.tables ++ record_of id now fields ∷ []) },
        )
      ])
      else (thrown rls_violation, c)

  unfoldable pub paginate : ListAuditQueryDto → Option ℕ → Tx AuditDb (CursorPage AuditRecord)
  paginate query organization_id c = (
    returned (
        fetched audit_listing (audit_paging query) (
          select
            (λ r.
              (sees_record c.current_org r.organization_id && audit_filter query organization_id r)
              && after_cursor audit_listing query.cursor r)
            (t.rows c.tables))),
    c,
  )

  unfoldable pub list_records : Context → ListAuditQueryDto → Tx AuditDb (CursorPage AuditRecord)
  unfolding tenant_id paginate
  list_records ctx query = do organization_id ← tenant_id ctx; paginate query (some organization_id)

  unfoldable pub list_all_for_platform_admin :
      ListAuditQueryDto → Tx AuditDb (CursorPage AuditRecord)
  unfolding paginate
  list_all_for_platform_admin query = paginate query none
