-- ===== src/AuditService/Consumers.antt =====
-- events/audit-sink.consumer.ts, content-topic.consumers.ts and security-events.consumer.ts.
use multi_tenant_subscriptio.Base.{Option, none, some, ℕ}
use multi_tenant_subscriptio.Common.{
  EventType, KafkaTopic, organization_events, plan_limit_exceeded_event, resource_events,
  subscription_events, user_events,
}
use multi_tenant_subscriptio.AuditService.Repositories.{CreateAuditRecordData, create_record}
use multi_tenant_subscriptio.AuditService.Tables.{
  AuditDb, AuditRecord, AuditSeverity, AuditTable, audit_events_table, consumed_events_table, info,
  security, security_events_table, warn,
}
use multi_tenant_subscriptio.Database.{
  Action, Context, Request, Tx, World, pure, run_global, transaction_for_organization, ◌>>◌,
}
use multi_tenant_subscriptio.Kafka.{BaseKafkaConsumer, EventEnvelope, mark_consumed, was_consumed}

-- What the five consumers differ in.
pub record AuditSink : Type 0 where
  pub topic : KafkaTopic
  pub table : AuditTable
  pub severity_for : EventType → AuditSeverity

abbrev pub content_severity : EventType → AuditSeverity
content_severity plan_limit_exceeded_event = warn
content_severity _ = info

abbrev pub content_sink : KafkaTopic → AuditSink
content_sink topic = record {
  topic = topic;
  table = audit_events_table;
  severity_for = content_severity;
}

abbrev pub organization_events_consumer : AuditSink
organization_events_consumer = content_sink organization_events

abbrev pub user_events_consumer : AuditSink
user_events_consumer = content_sink user_events

abbrev pub subscription_events_consumer : AuditSink
subscription_events_consumer = content_sink subscription_events

abbrev pub resource_events_consumer : AuditSink
resource_events_consumer = content_sink resource_events

-- An unknown type is logged, and recorded all the same.
abbrev pub security_events_consumer : AuditSink
security_events_consumer = record {
  topic = KafkaTopic.security_events;
  table = security_events_table;
  severity_for = λ event_type. security;
}

abbrev pub audit_data : AuditSink → EventEnvelope → CreateAuditRecordData
audit_data sink envelope = record {
  event_id = envelope.event_id;
  event_type = envelope.event_type;
  organization_id = envelope.organization_id;
  actor_user_id = envelope.actor_user_id;
  correlation_id = envelope.correlation_id;
  severity = sink.severity_for envelope.event_type;
  payload = envelope.payload;
  occurred_at = envelope.occurred_at;
}

module _ (sink : AuditSink) where
  -- The organisation of the envelope chooses the scope.
  unfoldable pub create_scoped : Option ℕ → Tx AuditDb AuditRecord → Request AuditDb AuditRecord
  unfolding run_global transaction_for_organization
  create_scoped none work = run_global work
  create_scoped (some organization_id) work = transaction_for_organization organization_id work

  -- The ambient scope that the base class opens plays no part.
  unfoldable pub handle : (id now : ℕ) → Context → EventEnvelope → Request AuditDb (Unit {0})
  unfolding create_scoped create_record
  handle id now ctx envelope =
      create_scoped envelope.organization_id
        (create_record sink.table id now (audit_data sink envelope))
      >> pure tt

-- The broker, as the consumers use it.
pub record Broker (B : Type 0) : Type 0 where
  pub commit_offsets : (topic partition offset : ℕ) → Action B (Unit {0})
  pub connect : Action B (Unit {0})
  pub send : EventEnvelope → Action B (Unit {0})
  pub disconnect : Action B (Unit {0})

module _ {W B A : Type 0} where
  abbrev pub in_service : Action W A → Action (W × B) A
  in_service m (w, b) = let (r, w') = m w in (r, (w', b))

  abbrev pub at_broker : Action B A → Action (W × B) A
  at_broker m (w, b) = let (r, b') = m b in (r, (w, b'))

-- One of the five consumers, with its table of consumed events. `id` and `now` are the database's, for
-- the INSERT that succeeds.
abbrev pub audit_consumer :
    {B : Type 0} → AuditSink → Broker B → (id now : ℕ) → BaseKafkaConsumer (World AuditDb × B)
audit_consumer sink broker id now = record {
  consumed_events = record {
    was_consumed = λ event_id. in_service (was_consumed consumed_events_table event_id);
    mark_consumed = λ event_id. in_service (mark_consumed consumed_events_table event_id);
  };
  handle = λ ctx envelope. in_service (handle sink id now ctx envelope);
  commit_offsets =
      λ topic partition offset. at_broker (broker.commit_offsets topic partition offset);
  connect = at_broker broker.connect;
  send = λ envelope. at_broker (broker.send envelope);
  disconnect = at_broker broker.disconnect;
}
