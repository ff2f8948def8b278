-- ===== src/AuditService/Tables.antt =====
-- audit/audit-record-base.entity.ts, audit-event.entity.ts, security-event.entity.ts and the
-- migrations, with the policy that they write out for these two tables.
use multi_tenant_subscriptio.Base.{Bool, List, Option, false, none, some, true, ℕ, ◌==◌}
use multi_tenant_subscriptio.Common.{EventType, Payload}
use multi_tenant_subscriptio.Kafka.{ConsumedEvents}

pub data AuditSeverity : Type 0 where
  info warn security : AuditSeverity

pub record AuditRecord : Type 0 where
  pub id : ℕ
  pub event_id : ℕ
  pub event_type : EventType
  pub organization_id : Option ℕ
  pub actor_user_id : Option ℕ
  pub correlation_id : ℕ
  pub severity : AuditSeverity
  pub payload : Payload
  pub occurred_at : ℕ
  pub created_at : ℕ

pub record AuditDb : Type 0 where
  pub audit_events : List AuditRecord
  pub security_events : List AuditRecord
  pub consumed_events : List ℕ

pub record AuditTable : Type 0 where
  pub rows : AuditDb → List AuditRecord
  pub put : AuditDb → List AuditRecord → AuditDb

abbrev pub audit_events_table : AuditTable
audit_events_table = record {
  rows = λ d. d.audit_events;
  put = λ d rows. record d { audit_events = rows };
}

abbrev pub security_events_table : AuditTable
security_events_table = record {
  rows = λ d. d.security_events;
  put = λ d rows. record d { security_events = rows };
}

abbrev pub consumed_events_table : ConsumedEvents AuditDb
consumed_events_table = record {
  event_ids = λ d. d.consumed_events;
  put = λ d ids. record d { consumed_events = ids };
}

-- organization_id = current_org, or both are NULL.
abbrev pub sees_record : Option ℕ → Option ℕ → Bool
sees_record (some scope) (some owner) = owner == scope
sees_record none none = true
sees_record _ _ = false
