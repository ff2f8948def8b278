-- ===== src/AuditService/Tests.antt =====
-- Two events of an organisation and one of none, and the theorems at them.
use multi_tenant_subscriptio.Base.{
  List, Option, [], arith, false, none, refl, some, true, ℕ, ◌+◌, ◌∷◌, ◌≡◌,
}
use multi_tenant_subscriptio.Common.{
  Role, TenantContextPayload, cross_tenant, cross_tenant_access_attempted, org_admin,
  platform_admin, resource_subject,
}
use multi_tenant_subscriptio.AuditService.Audit.{
  list_audit_events, list_security_events, to_full_dto,
}
use multi_tenant_subscriptio.AuditService.Consumers.{
  Broker, audit_consumer, audit_data, handle, security_events_consumer,
}
use multi_tenant_subscriptio.AuditService.Record.{Appended, handle-Appended}
use multi_tenant_subscriptio.AuditService.Replay.{process_message-replay}
use multi_tenant_subscriptio.AuditService.Repositories.{ListAuditQueryDto, record_of}
use multi_tenant_subscriptio.AuditService.Scope.{
  OnlyPlatformEvents, if_page, list_audit_events-scope, list_security_events-scope, may_see,
}
use multi_tenant_subscriptio.AuditService.Tables.{AuditDb, AuditRecord}
use multi_tenant_subscriptio.Database.{World, pure, returned}
use multi_tenant_subscriptio.Kafka.{
  BaseKafkaConsumer, EachMessagePayload, EventEnvelope, give_up, mark_consumed, process_message,
  was_consumed,
}

abbrev envelope : ℕ → Option ℕ → EventEnvelope
envelope event_id organization_id = record {
  event_id = event_id;
  event_type = cross_tenant_access_attempted;
  event_version = 1;
  organization_id = organization_id;
  correlation_id = 3;
  causation_id = none;
  actor_user_id = some 2;
  occurred_at = 100 + event_id;
  payload = cross_tenant resource_subject 20 organization_id (some 2);
}

abbrev recorded : ℕ → Option ℕ → AuditRecord
recorded event_id organization_id =
    record_of (event_id + 40) 500
      (audit_data security_events_consumer (envelope event_id organization_id))

abbrev world : World AuditDb
world = record {
  db = record {
    audit_events = recorded 1 (some 9) ∷ recorded 2 (some 8) ∷ [];
    security_events = recorded 1 (some 9) ∷ recorded 3 none ∷ [];
    consumed_events = 1 ∷ [];
  };
  published = [];
}

abbrev reader : List Role → Option ℕ → TenantContextPayload
reader roles organization_id = record {
  user_id = some 2;
  organization_id = organization_id;
  roles = roles;
  correlation_id = 3;
  iat = 0;
  exp = 60;
}

abbrev everything : ListAuditQueryDto
everything = record { cursor = none; limit = none; event_type = none }

-- The attempt that organisation 9 is charged with is not shown.
shown_to_platform :
    (list_security_events (some (reader (platform_admin ∷ []) none)) everything world).0
    ≡ returned (record {
      items = to_full_dto (recorded 3 none) ∷ [];
      next_cursor = none;
      has_more = false;
    })
unfolding list_security_events
shown_to_platform = refl

abbrev deliver : ℕ → World AuditDb
deliver event_id =
    (handle security_events_consumer 60 500 none (envelope event_id (some 9)) world).1

delivered :
    (deliver 4).db.security_events
    ≡ recorded 1 (some 9) ∷ recorded 3 none ∷ record (recorded 4 (some 9)) { id = 60 } ∷ []
unfolding handle
delivered = refl

handle-Appended_example : Appended world.db.security_events (deliver 4).db.security_events
handle-Appended_example =
    handle-Appended security_events_consumer 60 500 none (envelope 4 (some 9)) world
      (λ d rows. refl) (λ event_id. ground arith)

list_audit_events-scope_example :
    if_page
      (may_see (some 9))
      (list_audit_events (some (reader (org_admin ∷ []) (some 9))) everything world).0
    ≡ true
list_audit_events-scope_example =
    list_audit_events-scope (reader (org_admin ∷ []) (some 9)) everything world

list_security_events-scope_example :
    OnlyPlatformEvents
      (reader (platform_admin ∷ []) none)
      (list_security_events (some (reader (platform_admin ∷ []) none)) everything world).0
list_security_events-scope_example =
    list_security_events-scope (reader (platform_admin ∷ []) none) everything world

-- A broker that counts the messages of the dead letter queue and the commits.
abbrev counting : Broker (ℕ × ℕ)
counting = record {
  commit_offsets = λ topic partition offset (dead, commits). (returned tt, (dead, commits + 1));
  connect = pure tt;
  send = λ e (dead, commits). (returned tt, (dead + 1, commits));
  disconnect = pure tt;
}

abbrev message : EachMessagePayload
message = record {
  topic = 1;
  partition = 0;
  offset = 20;
  value = some (returned (envelope 3 none));
}

abbrev sink_consumer : BaseKafkaConsumer (World AuditDb × (ℕ × ℕ))
sink_consumer = audit_consumer security_events_consumer counting 60 500

dead_letter : (process_message sink_consumer message (world, (0, 0))).1.1 ≡ (1, 1)
unfolding process_message handle was_consumed mark_consumed
dead_letter = refl

process_message-replay_example :
    (process_message sink_consumer message (world, (0, 0))
      ≡ give_up sink_consumer message (envelope 3 none) (world, (0, 0)))
    × ((process_message sink_consumer message (world, (0, 0))).1.0 ≡ world)
process_message-replay_example =
    process_message-replay security_events_consumer counting 60 500 world (0, 0) (envelope 3 none)
      message (recorded 3 none) refl refl refl
