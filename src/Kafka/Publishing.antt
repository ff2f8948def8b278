-- ===== src/Kafka/Publishing.antt =====
-- What a published event is handled with, and what a failing broker means for who publishes.
use multi_tenant_subscriptio.Base.{
  List, Option, [], ap, arith, inl, inr, map, none, refl, some, suc, ℕ, ◌∷◌, ◌≡◌,
}
use multi_tenant_subscriptio.Common.{DomainEvent, EventType, KafkaTopic, Payload}
use multi_tenant_subscriptio.Database.{Context, Outcome-cases, returned}
use multi_tenant_subscriptio.Kafka.Consumer.{scope_of}
use multi_tenant_subscriptio.Kafka.Publisher.{
  MessageKey, Producer, ProducerMessage, key_of, messages_from, organization_key, platform_key,
  publish_all,
}

-- The correlation id of the publisher's request, or the random one outside every request.
abbrev pub asked_with : Context → ℕ → ℕ
asked_with none random = random
asked_with (some request) random = request.correlation_id

-- What a message says beside its ids: the key that chooses its partition, the kind of the event, and
-- its payload.
abbrev pub said : DomainEvent → MessageKey × EventType × Payload
said event = (
  elim event.organization_id [ none ↦ platform_key | some o ↦ organization_key o ],
  event.event_type,
  event.payload,
)

abbrev pub told : ProducerMessage → MessageKey × EventType × Payload
told m = (m.key, m.value.event_type, m.value.payload)

-- The scope that an event is handled in: the publisher's correlation id, and the event's own
-- organisation and user, where no user stands for the text 'system'.
abbrev pub scope_for : ℕ → DomainEvent → Context
scope_for correlation_id event = some (record {
  user_id = event.actor_user_id;
  organization_id = event.organization_id;
  roles = [];
  correlation_id = correlation_id;
  iat = 0;
  exp = 0;
})

module _ {S : Type 0} (producer : Producer S) where
  messages-scopes :
      (n correlation_id : ℕ) (events : List DomainEvent)
      → map (λ m. scope_of m.value) (messages_from producer n correlation_id events)
        ≡ map (scope_for correlation_id) events
  messages-scopes n correlation_id [] = refl
  messages-scopes n correlation_id (event ∷ events) =
      ap (λ scopes. scope_for correlation_id event ∷ scopes)
        (messages-scopes (suc n) correlation_id events)

  key_of-said :
      (organization_id : Option ℕ)
      → key_of organization_id
        ≡ (elim organization_id [ none ↦ platform_key | some o ↦ organization_key o ])
  key_of-said none = refl
  key_of-said (some o) = refl

  messages-said :
      (n correlation_id : ℕ) (events : List DomainEvent)
      → map told (messages_from producer n correlation_id events) ≡ map said events
  messages-said n correlation_id [] = refl
  messages-said n correlation_id (event ∷ events) =
      let rest = messages-said (suc n) correlation_id events in
      rw (key_of-said event.organization_id, rest) refl

  publish_all-sends :
      (ctx : Context) (topic : KafkaTopic) (event : DomainEvent) (events : List DomainEvent) (s : S)
      → publish_all producer ctx topic (event ∷ events) s ≡ (
        returned tt,
        (producer.send topic
            (messages_from producer 0 (asked_with ctx producer.random_correlation) (event ∷ events))
            s).1,
      )
  unfolding publish_all
  publish_all-sends none topic event events s =
      let messages : List ProducerMessage =
        messages_from producer 0 producer.random_correlation (event ∷ events) in
      elim (Outcome-cases (producer.send topic messages s).0) [
        | inl (tt, sent) ↦ ground arith
        | inr (e, refused) ↦ ground arith
      ]
  publish_all-sends (some request) topic event events s =
      let messages : List ProducerMessage =
        messages_from producer 0 request.correlation_id (event ∷ events) in
      elim (Outcome-cases (producer.send topic messages s).0) [
        | inl (tt, sent) ↦ ground arith
        | inr (e, refused) ↦ ground arith
      ]

  -- The publishing of some events ends well for its caller, whatever the broker answers. The broker
  -- is called once, with one message for each event, in their order: keyed by the event's
  -- organisation, or by 'platform' if it has none, with its kind and its payload. Whoever consumes
  -- one handles it with the correlation id of the publisher's request, or a random one outside every
  -- request, and with the event's own organisation and user.
  pub publish_all-scopes :
      (ctx : Context) (topic : KafkaTopic) (event : DomainEvent) (events : List DomainEvent) (s : S)
      → let correlation_id = asked_with ctx producer.random_correlation in
        let messages = messages_from producer 0 correlation_id (event ∷ events) in
        (publish_all producer ctx topic (event ∷ events) s
          ≡ (returned tt, (producer.send topic messages s).1))
        × (map told messages ≡ map said (event ∷ events))
        × (map (λ m. scope_of m.value) messages ≡ map (scope_for correlation_id) (event ∷ events))
  publish_all-scopes ctx topic event events s =
      let correlation_id = asked_with ctx producer.random_correlation in
      (
        publish_all-sends ctx topic event events s,
        messages-said 0 correlation_id (event ∷ events),
        messages-scopes 0 correlation_id (event ∷ events),
      )
