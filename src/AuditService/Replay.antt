-- ===== src/AuditService/Replay.antt =====
-- An event that is delivered again although it is recorded: the consumer stopped between the INSERT
-- of the record and that of the consumed event, which are two transactions.
use multi_tenant_subscriptio.Base.{
  Bool, [], ap, arith, false, first, inl, inr, refl, select, some, ℕ, ◌==◌, ◌∙◌, ◌≡◌,
}
use multi_tenant_subscriptio.Common.{Error, unique_violation}
use multi_tenant_subscriptio.AuditService.Consumers.{AuditSink, Broker, audit_consumer, handle}
use multi_tenant_subscriptio.AuditService.Record.{handle-inserted}
use multi_tenant_subscriptio.AuditService.Repositories.{record_clashes}
use multi_tenant_subscriptio.AuditService.Tables.{AuditDb, AuditRecord, consumed_events_table}
use multi_tenant_subscriptio.Database.{
  Action, Outcome, Outcome-cases, World, catch, returned, throw, thrown, ◌>>=◌, ◌>>◌,
}
use multi_tenant_subscriptio.Kafka.{
  BaseKafkaConsumer, EachMessagePayload, EventEnvelope, commit, finally, give_up, process_message,
  scope_of, send_to_dlq, was_consumed,
}
use multi_tenant_subscriptio.Kafka.Refusal.{process_message-give_up}

-- The action changes nothing but the broker.
abbrev AtBroker : {W B A : Type 0} → Action (W × B) A → Type 0
AtBroker {W} {B} m = (s : W × B) → (m s).1.0 ≡ s.0

>>=-AtBroker :
    {W B A C : Type 0} (m : Action (W × B) A) (f : A → Action (W × B) C)
    → AtBroker m
    → ((a : A) → AtBroker (f a))
    → AtBroker (m >>= f)
>>=-AtBroker m f first rest s =
    let kept = first s in
    elim (Outcome-cases (m s).0) [
      | inl (a, ok) ↦ let then_kept = rest a (m s).1 in ground arith
      | inr (e, ko) ↦ ground arith
    ]

catch-AtBroker :
    {W B A : Type 0} (m : Action (W × B) A) (handler : Error → Action (W × B) A)
    → AtBroker m
    → ((e : Error) → AtBroker (handler e))
    → AtBroker (catch m handler)
catch-AtBroker m handler first rest s =
    let kept = first s in
    elim (Outcome-cases (m s).0) [
      | inl (a, ok) ↦ ground arith
      | inr (e, ko) ↦ let then_kept = rest e (m s).1 in ground arith
    ]

module _ {B : Type 0} (sink : AuditSink) (broker : Broker B) (id now : ℕ) (w : World AuditDb)
    (b : B) (e : EventEnvelope) where
  abbrev k : BaseKafkaConsumer (World AuditDb × B)
  k = audit_consumer sink broker id now

  give_up-world :
      (m : EachMessagePayload) → (give_up (audit_consumer sink broker id now) m e (w, b)).1.0 ≡ w
  unfolding give_up
  give_up-world m =
      >>=-AtBroker (send_to_dlq k e) (λ _. commit k m)
        (>>=-AtBroker k.connect (λ _. finally (k.send e) k.disconnect) (λ s. refl)
          (λ _.
            >>=-AtBroker (catch (k.send e) (λ err. k.disconnect >> throw err)) (λ _. k.disconnect)
              (catch-AtBroker (k.send e) (λ err. k.disconnect >> throw err) (λ s. refl)
                (λ err. >>=-AtBroker k.disconnect (λ _. throw err) (λ s. refl) (λ _ s. refl)))
              (λ _ s. refl)))
        (λ _ s. refl) (w, b)

  unconsumed :
      select (λ event_id. event_id == e.event_id) w.db.consumed_events ≡ []
      → was_consumed consumed_events_table e.event_id w ≡ (returned false, w)
  unfolding was_consumed
  unconsumed fresh = ground arith

  -- Where an event is recorded and not marked as consumed, its next delivery records nothing and
  -- leaves the tables as they are, and after the last retry the event goes to the dead letter queue.
  pub process_message-replay :
      (m : EachMessagePayload) (r : AuditRecord)
      → m.value ≡ some (returned e)
      → select (λ event_id. event_id == e.event_id) w.db.consumed_events ≡ []
      → first (record_clashes id e.event_id) (sink.table.rows w.db) ≡ some r
      → (process_message (audit_consumer sink broker id now) m (w, b)
          ≡ give_up (audit_consumer sink broker id now) m e (w, b))
        × ((process_message (audit_consumer sink broker id now) m (w, b)).1.0 ≡ w)
  process_message-replay m r parsed fresh recorded =
      let refuses : handle sink id now (scope_of e) e w ≡ (thrown unique_violation, w) =
        handle-inserted sink id now (scope_of e) e w ∙ rw recorded refl in
      let gives =
        process_message-give_up (audit_consumer sink broker id now) m e (w, b) unique_violation
          (ap (λ (a : Outcome (Unit {0}) × World AuditDb). (a.0, (a.1, b))) refuses) parsed
          (ap (λ (a : Outcome Bool × World AuditDb). (a.0, (a.1, b))) (unconsumed fresh)) in
      (gives, ap (λ (a : Outcome (Unit {0}) × (World AuditDb × B)). a.1.0) gives ∙ give_up-world m)
