-- ===== src/Kafka/Consumer.antt =====
-- consumer/base-consumer.ts, over the interface of consumer/consumed-event-store.interface.ts.
use multi_tenant_subscriptio.Base.{Bool, Option, [], if◌then◌else◌, none, some, suc, zero, ℕ, ◌+◌}
use multi_tenant_subscriptio.Common.{EventType, Payload}
use multi_tenant_subscriptio.Database.{
  Action, Context, Outcome, await, catch, pure, throw, ◌>>=◌, ◌>>◌,
}

pub record EventEnvelope : Type 0 where
  pub event_id : ℕ
  pub event_type : EventType
  pub event_version : ℕ
  pub organization_id : Option ℕ
  pub correlation_id : ℕ
  pub causation_id : Option ℕ
  pub actor_user_id : Option ℕ
  pub occurred_at : ℕ
  pub payload : Payload

-- `value` is the text of the message as JSON.parse reads it.
pub record EachMessagePayload : Type 0 where
  pub topic : ℕ
  pub partition : ℕ
  pub offset : ℕ
  pub value : Option (Outcome EventEnvelope)

pub record ConsumedEventStore (S : Type 0) : Type 0 where
  pub was_consumed : ℕ → Action S Bool
  pub mark_consumed : ℕ → Action S (Unit {0})

-- What the class takes from outside: the broker's client, and the `handle` of the concrete consumer.
-- `S` is the state of all of them, which may also say when one of them fails.
pub record BaseKafkaConsumer (S : Type 0) : Type 0 where
  pub consumed_events : ConsumedEventStore S
  pub handle : Context → EventEnvelope → Action S (Unit {0})
  pub commit_offsets : (topic partition offset : ℕ) → Action S (Unit {0})
  pub connect : Action S (Unit {0})  -- the producer of the dead letter queue
  pub send : EventEnvelope → Action S (Unit {0})  -- to the topic `dlqTopic(this.topic)`
  pub disconnect : Action S (Unit {0})

abbrev pub max_retries : ℕ
max_retries = 3

-- The scope that is opened for `handle`. The user `none` is the text 'system'.
abbrev pub scope_of : EventEnvelope → Context
scope_of envelope = some (record {
  user_id = envelope.actor_user_id;
  organization_id = envelope.organization_id;
  roles = [];
  correlation_id = envelope.correlation_id;
  iat = 0;
  exp = 0;
})

-- `try { m } finally { cleanup }`: an error of `cleanup` replaces that of `m`.
abbrev pub finally : {S : Type 0} → Action S (Unit {0}) → Action S (Unit {0}) → Action S (Unit {0})
finally m cleanup = catch m (λ e. cleanup >> throw e) >> cleanup

module _ {S : Type 0} (consumer : BaseKafkaConsumer S) where
  unfoldable pub commit : EachMessagePayload → Action S (Unit {0})
  commit message = consumer.commit_offsets message.topic message.partition (message.offset + 1)

  unfoldable pub send_to_dlq : EventEnvelope → Action S (Unit {0})
  send_to_dlq envelope = consumer.connect >> finally (consumer.send envelope) consumer.disconnect

  -- The body of `try` in the loop.
  unfoldable pub attempt : EachMessagePayload → EventEnvelope → Action S (Unit {0})
  unfolding commit
  attempt message envelope =
      consumer.handle (scope_of envelope) envelope
      >> consumer.consumed_events.mark_consumed envelope.event_id
      >> commit message

  unfoldable pub give_up : EachMessagePayload → EventEnvelope → Action S (Unit {0})
  unfolding commit send_to_dlq
  give_up message envelope = send_to_dlq envelope >> commit message

  -- The loop, by the number of retries that are left. The delay before a retry is left out.
  unfoldable pub attempts : (left : ℕ) → EachMessagePayload → EventEnvelope → Action S (Unit {0})
  unfolding attempt give_up
  attempts zero message envelope =
      catch (attempt message envelope) (λ err. give_up message envelope)
  attempts (suc left) message envelope =
      catch (attempt message envelope) (λ err. attempts left message envelope)

  unfoldable pub process_envelope : EachMessagePayload → EventEnvelope → Action S (Unit {0})
  unfolding commit attempts
  process_envelope message envelope = do
    consumed ← consumer.consumed_events.was_consumed envelope.event_id
    if consumed then commit message else attempts max_retries message envelope

  unfoldable pub process_message : EachMessagePayload → Action S (Unit {0})
  unfolding process_envelope
  process_message message = elim message.value [
    | none ↦ pure tt
    | some parsed ↦ await parsed >>= process_envelope message
  ]
