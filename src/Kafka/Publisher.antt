-- ===== src/Kafka/Publisher.antt =====
-- producer/event-publisher.ts and the envelope of libs/common.
use multi_tenant_subscriptio.Base.{List, Option, [], none, some, suc, ℕ, ◌∷◌}
use multi_tenant_subscriptio.Common.{DomainEvent, KafkaTopic}
use multi_tenant_subscriptio.Database.{Action, Context, catch, pure}
use multi_tenant_subscriptio.Kafka.Consumer.{EventEnvelope}

-- The key chooses the partition; without an organisation it is the text 'platform'.
pub data MessageKey : Type 0 where
  organization_key : ℕ → MessageKey
  platform_key : MessageKey

-- `value` is the JSON text of the envelope.
pub record ProducerMessage : Type 0 where
  pub key : MessageKey
  pub value : EventEnvelope

-- The producer of kafkajs, the clock, and the random ids of one call: `random_id n` is that of the
-- n-th event, and `random_correlation` is used outside every scope.
pub record Producer (S : Type 0) : Type 0 where
  pub send : KafkaTopic → List ProducerMessage → Action S (Unit {0})
  pub now : ℕ
  pub random_id : ℕ → ℕ
  pub random_correlation : ℕ

abbrev pub correlation_of : Context → ℕ → ℕ
correlation_of (some payload) random = payload.correlation_id
correlation_of none random = random

abbrev pub key_of : Option ℕ → MessageKey
key_of (some organization_id) = organization_key organization_id
key_of none = platform_key

abbrev pub envelope_of : (event_id correlation_id now : ℕ) → DomainEvent → EventEnvelope
envelope_of event_id correlation_id now event = record {
  event_id = event_id;
  event_type = event.event_type;
  event_version = 1;
  organization_id = event.organization_id;
  correlation_id = correlation_id;
  causation_id = none;
  actor_user_id = event.actor_user_id;
  occurred_at = now;
  payload = event.payload;
}

module _ {S : Type 0} (producer : Producer S) where
  -- The messages of the events from number `n` on.
  abbrev pub messages_from : (n correlation_id : ℕ) → List DomainEvent → List ProducerMessage
  messages_from n correlation_id [] = []
  messages_from n correlation_id (event ∷ events) =
      record {
        key = key_of event.organization_id;
        value = envelope_of (producer.random_id n) correlation_id producer.now event;
      }
      ∷ messages_from (suc n) correlation_id events

  abbrev pub send_all : Context → KafkaTopic → List DomainEvent → Action S (Unit {0})
  send_all ctx topic events =
      catch
        (producer.send topic
          (messages_from 0 (correlation_of ctx producer.random_correlation) events))
        (λ e. pure tt)

  unfoldable pub publish_all : Context → KafkaTopic → List DomainEvent → Action S (Unit {0})
  publish_all ctx topic [] = pure tt
  publish_all ctx topic (event ∷ events) = send_all ctx topic (event ∷ events)

  unfoldable pub publish_one : Context → KafkaTopic → DomainEvent → Action S (Unit {0})
  unfolding publish_all
  publish_one ctx topic event = publish_all ctx topic (event ∷ [])
