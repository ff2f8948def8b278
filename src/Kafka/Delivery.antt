-- ===== src/Kafka/Delivery.antt =====
-- What becomes of a message: no event is lost, and none that was recorded is handled again.
use multi_tenant_subscriptio.Base.{
  Bool, Bool-cases, arith, false, inl, inr, refl, some, suc, true, zero, ℕ, ◌+◌, ◌||◌, ◌∙◌, ◌≡◌,
}
use multi_tenant_subscriptio.Database.{Outcome, Outcome-cases, returned}
use multi_tenant_subscriptio.Kafka.Consumer.{
  BaseKafkaConsumer, EachMessagePayload, EventEnvelope, attempt, attempts, commit, give_up,
  max_retries, process_envelope, process_message, scope_of, send_to_dlq,
}

-- What the consumer relies on of its store and of the broker: the store remembers what it marked,
-- and the broker takes what it is sent, and forgets nothing. The first three are what can be asked
-- of a state: whether an event is in the store, whether it is in the dead letter queue, and whether
-- an offset of a partition is committed. `handle` and the marking may fail.
pub record DeliveryLaws {S : Type 0} (k : BaseKafkaConsumer S) : Type 0 where
  pub consumed : ℕ → S → Bool
  pub dead : EventEnvelope → S → Bool
  pub committed : (topic partition offset : ℕ) → S → Bool
  pub was_consumed_answers :
      (id : ℕ) (s : S) → k.consumed_events.was_consumed id s ≡ (returned (consumed id s), s)
  pub mark_consumed_marks :
      (id : ℕ) (s : S)
      → (k.consumed_events.mark_consumed id s).0 ≡ returned tt
      → consumed id (k.consumed_events.mark_consumed id s).1 ≡ true
  pub commit_returns : (t p o : ℕ) (s : S) → (k.commit_offsets t p o s).0 ≡ returned tt
  pub commit_commits : (t p o : ℕ) (s : S) → committed t p o (k.commit_offsets t p o s).1 ≡ true
  pub commit_keeps_consumed :
      (id t p o : ℕ) (s : S) → consumed id (k.commit_offsets t p o s).1 ≡ consumed id s
  pub commit_keeps_dead :
      (e : EventEnvelope) (t p o : ℕ) (s : S) → dead e (k.commit_offsets t p o s).1 ≡ dead e s
  pub connect_returns : (s : S) → (k.connect s).0 ≡ returned tt
  pub send_returns : (e : EventEnvelope) (s : S) → (k.send e s).0 ≡ returned tt
  pub send_delivers : (e : EventEnvelope) (s : S) → dead e (k.send e s).1 ≡ true
  pub disconnect_returns : (s : S) → (k.disconnect s).0 ≡ returned tt
  pub disconnect_keeps_dead : (e : EventEnvelope) (s : S) → dead e (k.disconnect s).1 ≡ dead e s

module _ {S : Type 0} (k : BaseKafkaConsumer S) (laws : DeliveryLaws k) where
  -- The event is in the store or in the dead letter queue.
  abbrev pub settled : EventEnvelope → S → Bool
  settled e s = laws.consumed e.event_id s || laws.dead e s

  -- The offset after the message's is committed.
  abbrev pub is_committed : EachMessagePayload → S → Bool
  is_committed m s = laws.committed m.topic m.partition (m.offset + 1) s

  -- The run returned, in a state in which the event is settled and the message committed.
  abbrev pub Delivered : EachMessagePayload → EventEnvelope → Outcome (Unit {0}) × S → Type 0
  Delivered m e r = (r.0 ≡ returned tt) × (settled e r.1 ≡ true) × (is_committed m r.1 ≡ true)

  module _ (m : EachMessagePayload) (e : EventEnvelope) where
    commit-Delivered : (s : S) → settled e s ≡ true → Delivered m e (commit k m s)
    unfolding commit
    commit-Delivered s done = (
      laws.commit_returns m.topic m.partition (m.offset + 1) s,
      rw (laws.commit_keeps_consumed e.event_id m.topic m.partition (m.offset + 1) s)
          (rw (laws.commit_keeps_dead e m.topic m.partition (m.offset + 1) s) done),
      laws.commit_commits m.topic m.partition (m.offset + 1) s,
    )

    send_to_dlq-lands :
        (s : S) → ((send_to_dlq k e s).0 ≡ returned tt) × (laws.dead e (send_to_dlq k e s).1 ≡ true)
    unfolding send_to_dlq
    send_to_dlq-lands s =
        let s1 : S = (k.connect s).1 in
        let s2 : S = (k.send e s1).1 in
        let h1 : (k.connect s).0 ≡ returned tt = laws.connect_returns s in
        let h2 : (k.send e s1).0 ≡ returned tt = laws.send_returns e s1 in
        let h3 : (k.disconnect s2).0 ≡ returned tt = laws.disconnect_returns s2 in
        let h4 : laws.dead e (k.disconnect s2).1 ≡ laws.dead e s2 =
          laws.disconnect_keeps_dead e s2 in
        let h5 : laws.dead e s2 ≡ true = laws.send_delivers e s1 in (ground arith, ground arith)

    give_up-Delivered : (s : S) → Delivered m e (give_up k m e s)
    unfolding give_up
    give_up-Delivered s =
        let (sent, dead) = send_to_dlq-lands s in
        let (h1, h2, h3) = commit-Delivered (send_to_dlq k e s).1 (ground arith) in
        (ground arith, ground arith, ground arith)

    attempt-Delivered :
        (s : S) → (attempt k m e s).0 ≡ returned tt → Delivered m e (attempt k m e s)
    unfolding attempt
    attempt-Delivered s ok =
        let s1 : S = (k.handle (scope_of e) e s).1 in
        let s2 : S = (k.consumed_events.mark_consumed e.event_id s1).1 in
        let marks = laws.mark_consumed_marks e.event_id s1 in
        elim (Outcome-cases (k.handle (scope_of e) e s).0) [
          | inr (x, h) ↦ (ground arith, ground arith, ground arith)
          | inl (tt, h) ↦ elim (Outcome-cases (k.consumed_events.mark_consumed e.event_id s1).0) [
            | inr (x, h') ↦ (ground arith, ground arith, ground arith)
            | inl (tt, h') ↦
                let marked : laws.consumed e.event_id s2 ≡ true = marks h' in
                let (h1, h2, h3) = commit-Delivered s2 (ground arith) in
                (ground arith, ground arith, ground arith)
          ]
        ]

    attempts-Delivered : (left : ℕ) (s : S) → Delivered m e (attempts k left m e s)
    unfolding attempts
    attempts-Delivered zero s =
        let delivered = attempt-Delivered s in
        let (h1, h2, h3) = give_up-Delivered (attempt k m e s).1 in
        elim (Outcome-cases (attempt k m e s).0) [
          | inl (tt, h) ↦
              let (k1, k2, k3) = delivered h in (ground arith, ground arith, ground arith)
          | inr (x, h) ↦ (ground arith, ground arith, ground arith)
        ]
    attempts-Delivered (suc left) s =
        let delivered = attempt-Delivered s in
        let (h1, h2, h3) = attempts-Delivered left (attempt k m e s).1 in
        elim (Outcome-cases (attempt k m e s).0) [
          | inl (tt, h) ↦
              let (k1, k2, k3) = delivered h in (ground arith, ground arith, ground arith)
          | inr (x, h) ↦ (ground arith, ground arith, ground arith)
        ]

    process_envelope-Delivered : (s : S) → Delivered m e (process_envelope k m e s)
    unfolding process_envelope
    process_envelope-Delivered s =
        let asked = laws.was_consumed_answers e.event_id s in
        let known = commit-Delivered s in
        let (h1, h2, h3) = attempts-Delivered max_retries s in
        elim (Bool-cases (laws.consumed e.event_id s)) [
          | inl marked ↦
              let (k1, k2, k3) = known (ground arith) in (ground arith, ground arith, ground arith)
          | inr unmarked ↦ (ground arith, ground arith, ground arith)
        ]

    module _ (parsed : m.value ≡ some (returned e)) where
      process_message-eq : (s : S) → process_message k m s ≡ process_envelope k m e s
      unfolding process_message
      process_message-eq s = rw parsed refl

      -- Under the laws of the store and the broker, the processing of a message with a well-formed
      -- envelope returns whatever `handle` and the marking do, and then the event is in the store
      -- or in the dead letter queue, and the offset after the message's is committed.
      pub process_message-Delivered : (s : S) → Delivered m e (process_message k m s)
      process_message-Delivered s = rw (process_message-eq s) (process_envelope-Delivered s)

  marked-commits :
      (m : EachMessagePayload) (e : EventEnvelope) (s : S)
      → laws.consumed e.event_id s ≡ true
      → process_envelope k m e s ≡ commit k m s
  unfolding process_envelope
  marked-commits m e s marked = let asked = laws.was_consumed_answers e.event_id s in ground arith

  -- Under the laws of the store and the broker, by which asking the store, connecting and sending to
  -- the dead letter queue and the commit of an offset do not fail and nothing is forgotten: if the processing of a message did not end with its event in
  -- the dead letter queue, then a second message with that event only commits its own offset:
  -- `handle` does not run again.
  pub process_message-dedupes :
      (first_delivery second_delivery : EachMessagePayload) (e : EventEnvelope)
      → first_delivery.value ≡ some (returned e)
      → second_delivery.value ≡ some (returned e)
      → (s : S) → laws.dead e (process_message k first_delivery s).1 ≡ false
      → process_message k second_delivery (process_message k first_delivery s).1
        ≡ commit k second_delivery (process_message k first_delivery s).1
  process_message-dedupes m m' e parsed parsed' s alive =
      let s' : S = (process_message k m s).1 in
      let (ok, done, c) = process_message-Delivered m e parsed s in
      process_message-eq m' e parsed' s' ∙ marked-commits m' e s' (ground arith)
