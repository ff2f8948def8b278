-- ===== src/Kafka/Tests.antt =====
-- A consumer over the table consumed_events, a broker that takes everything, and a handler that fails
-- a given number of times.
use multi_tenant_subscriptio.Base.{
  ==_refl, Bool, List, [], ap, arith, if◌then◌else◌, length, ltb, map, none, refl, select, some,
  true, ℕ, ◌++◌, ◌+◌, ◌-◌, ◌==◌, ◌∷◌, ◌≡◌,
}
use multi_tenant_subscriptio.Common.{
  DomainEvent, Payload, not_found, organization, organization_events, organization_suspended,
  resource_deleted, service_unavailable,
}
use multi_tenant_subscriptio.Database.{Action, Context, Request, World, pure, returned, thrown}
use multi_tenant_subscriptio.Kafka.Attempts.{AttemptLaws, process_message-gives_up}
use multi_tenant_subscriptio.Kafka.Consumer.{
  BaseKafkaConsumer, EachMessagePayload, EventEnvelope, commit, process_message, scope_of,
}
use multi_tenant_subscriptio.Kafka.Delivery.{
  DeliveryLaws, is_committed, process_message-Delivered, process_message-dedupes, settled,
}
use multi_tenant_subscriptio.Kafka.PostgresStore.{ConsumedEvents, mark_consumed, was_consumed}
use multi_tenant_subscriptio.Kafka.Publisher.{
  Producer, ProducerMessage, messages_from, organization_key, publish_all,
}
use multi_tenant_subscriptio.Kafka.Publishing.{publish_all-scopes, told}
use multi_tenant_subscriptio.Kafka.Store.{mark_consumed-was_consumed}

record Plant : Type 0 where
  pub store : World (List ℕ)
  pub failures : ℕ
  pub handled : ℕ
  pub dead_letters : List ℕ
  pub offsets : List ℕ

abbrev ids : ConsumedEvents (List ℕ)
ids = record { event_ids = λ d. d; put = λ d event_ids. event_ids }

abbrev on_store : {A : Type 0} → Request (List ℕ) A → Action Plant A
on_store m s = let (r, w) = m s.store in (r, record s { store = w })

abbrev handler : Context → EventEnvelope → Action Plant (Unit {0})
handler ctx e s =
    if s.failures == 0
    then (returned tt, record s { handled = s.handled + 1 })
    else (thrown not_found, record s { handled = s.handled + 1; failures = s.failures - 1 })

-- One topic and one partition.
abbrev consumer : BaseKafkaConsumer Plant
consumer = record {
  consumed_events = record {
    was_consumed = λ id. on_store (was_consumed ids id);
    mark_consumed = λ id. on_store (mark_consumed ids id);
  };
  handle = handler;
  commit_offsets = λ t p o s. (returned tt, record s { offsets = o ∷ s.offsets });
  connect = pure tt;
  send = λ e s. (returned tt, record s { dead_letters = e.event_id ∷ s.dead_letters });
  disconnect = pure tt;
}

abbrev has : List ℕ → ℕ → Bool
has xs x = ltb 0 (length (select (λ y. y == x) xs))

has-head : (x : ℕ) (xs : List ℕ) → has (x ∷ xs) x ≡ true
has-head x xs = let self = ==_refl x in ground arith

store-remembers : (id : ℕ) (w : World (List ℕ)) → has (mark_consumed ids id w).1.db id ≡ true
unfolding was_consumed
store-remembers id w =
    let (h, asked) = mark_consumed-was_consumed ids (λ d event_ids. refl) id w in ground arith

handler-counts :
    (ctx : Context) (e : EventEnvelope) (s : Plant) → (handler ctx e s).1.handled ≡ s.handled + 1
handler-counts ctx e s = ground arith

handler-keeps :
    (ctx : Context) (e : EventEnvelope) (s : Plant)
    → (handler ctx e s).1.dead_letters ≡ s.dead_letters
handler-keeps ctx e s = ground arith

unfoldable laws : DeliveryLaws consumer
unfolding mark_consumed was_consumed
laws = record {
  consumed = λ id s. has s.store.db id;
  dead = λ e s. has s.dead_letters e.event_id;
  committed = λ t p o s. has s.offsets o;
  was_consumed_answers = λ id s. refl;
  mark_consumed_marks = λ id s ok. store-remembers id s.store;
  commit_returns = λ t p o s. refl;
  commit_commits = λ t p o s. has-head o s.offsets;
  commit_keeps_consumed = λ id t p o s. refl;
  commit_keeps_dead = λ e t p o s. refl;
  connect_returns = λ s. refl;
  send_returns = λ e s. refl;
  send_delivers = λ e s. has-head e.event_id s.dead_letters;
  disconnect_returns = λ s. refl;
  disconnect_keeps_dead = λ e s. refl;
}

unfoldable attempt_laws : AttemptLaws consumer
unfolding mark_consumed was_consumed
attempt_laws = record {
  runs = λ s. s.handled;
  dead = λ e s. has s.dead_letters e.event_id;
  handle_counts = handler-counts;
  handle_keeps = λ ctx e e' s. ap (λ xs. has xs e'.event_id) (handler-keeps ctx e s);
  was_consumed_keeps = λ id e s. (refl, refl);
  mark_consumed_keeps = λ id e s. (refl, refl);
  commit_keeps = λ t p o e s. (refl, refl);
  connect_keeps = λ s. refl;
  send_keeps = λ e s. refl;
  disconnect_keeps = λ s. refl;
}

abbrev envelope : EventEnvelope
envelope = record {
  event_id = 7;
  event_type = resource_deleted;
  event_version = 1;
  organization_id = some 9;
  correlation_id = 3;
  causation_id = none;
  actor_user_id = none;
  occurred_at = 100;
  payload = Payload.user 2;
}

abbrev message : EachMessagePayload
message = record { topic = 1; partition = 0; offset = 20; value = some (returned envelope) }

abbrev plant : ℕ → Plant
plant failures = record {
  store = record { db = []; published = [] };
  failures = failures;
  handled = 0;
  dead_letters = [];
  offsets = [];
}

-- The third retry succeeds.
retried : (process_message consumer message (plant 3)).1.handled ≡ 4
unfolding process_message mark_consumed was_consumed
retried = refl

given_up : (process_message consumer message (plant 4)).1.dead_letters ≡ 7 ∷ []
unfolding process_message mark_consumed was_consumed
given_up = refl

-- The same consumer with a broker that refuses one commit.
abbrev flaky : BaseKafkaConsumer Plant
flaky = record consumer {
  commit_offsets = λ t p o s.
      if s.failures == 0
      then (returned tt, record s { offsets = o ∷ s.offsets })
      else (thrown service_unavailable, record s { failures = s.failures - 1 });
  handle = λ ctx e s. (returned tt, record s { handled = s.handled + 1 });
}

-- The event is marked after its first run, and handled a second time.
handled_again : (process_message flaky message (plant 1)).1.handled ≡ 2
unfolding process_message mark_consumed was_consumed
handled_again = refl

process_message-Delivered_example :
    ((process_message consumer message (plant 4)).0 ≡ returned tt)
    × (settled consumer laws envelope (process_message consumer message (plant 4)).1 ≡ true)
    × (is_committed consumer laws message (process_message consumer message (plant 4)).1 ≡ true)
process_message-Delivered_example =
    process_message-Delivered consumer laws message envelope refl (plant 4)

process_message-dedupes_example :
    process_message consumer
      (record message { offset = 21 })
      (process_message consumer message (plant 2)).1
    ≡ commit consumer
        (record message { offset = 21 })
        (process_message consumer message (plant 2)).1
unfolding laws process_message mark_consumed was_consumed
process_message-dedupes_example =
    process_message-dedupes consumer laws message (record message { offset = 21 }) envelope refl
      refl (plant 2) refl

process_message-gives_up_example : (process_message consumer message (plant 4)).1.handled ≡ 4
unfolding attempt_laws process_message mark_consumed was_consumed
process_message-gives_up_example =
    process_message-gives_up consumer attempt_laws message envelope refl (plant 4) refl refl

-- A broker that takes the messages and then does not answer.
abbrev unreachable : Producer (List ProducerMessage)
unreachable = record {
  send = λ topic messages s. (thrown service_unavailable, s ++ messages);
  now = 9;
  random_id = λ n. 100 + n;
  random_correlation = 5;
}

abbrev suspended : DomainEvent
suspended = record {
  topic = organization_events;
  event_type = organization_suspended;
  organization_id = some 4;
  actor_user_id = none;
  payload = organization 4 0;
}

abbrev publishing : Context
publishing = some (record {
  user_id = some 3;
  organization_id = some 8;
  roles = [];
  correlation_id = 77;
  iat = 0;
  exp = 60;
})

abbrev suspension_scope : Context
suspension_scope = some (record {
  user_id = none;
  organization_id = some 4;
  roles = [];
  correlation_id = 77;
  iat = 0;
  exp = 0;
})

abbrev sent : List ProducerMessage
sent = messages_from unreachable 0 77 (suspended ∷ suspended ∷ [])

publish_all-scopes_example :
    (publish_all unreachable publishing organization_events (suspended ∷ suspended ∷ []) []
      ≡ (returned tt, sent))
    × (map told sent
        ≡ (organization_key 4, organization_suspended, organization 4 0)
          ∷ (organization_key 4, organization_suspended, organization 4 0)
          ∷ [])
    × (map (λ m. scope_of m.value) sent ≡ suspension_scope ∷ suspension_scope ∷ [])
publish_all-scopes_example =
    publish_all-scopes unreachable publishing organization_events suspended (suspended ∷ []) []
