-- ===== src/Kafka/Attempts.antt =====
-- How often `handle` runs for one message.
use multi_tenant_subscriptio.Base.{
  Bool, Bool-cases, Option-cases, arith, false, inl, inr, some, suc, true, zero, ℕ, ◌+◌, ◌≡◌, ◌≤◌,
}
use multi_tenant_subscriptio.Database.{Context, Outcome-cases, returned}
use multi_tenant_subscriptio.Kafka.Consumer.{
  BaseKafkaConsumer, EachMessagePayload, EventEnvelope, attempt, attempts, commit, give_up,
  max_retries, process_envelope, process_message, scope_of, send_to_dlq,
}

-- A count of the runs of `handle`, which nothing else changes, and a view of the dead letter queue,
-- which only the sending of an envelope changes.
pub record AttemptLaws {S : Type 0} (k : BaseKafkaConsumer S) : Type 0 where
  pub runs : S → ℕ
  pub dead : EventEnvelope → S → Bool
  pub handle_counts :
      (ctx : Context) (e : EventEnvelope) (s : S) → runs (k.handle ctx e s).1 ≡ runs s + 1
  pub handle_keeps :
      (ctx : Context) (e e' : EventEnvelope) (s : S) → dead e' (k.handle ctx e s).1 ≡ dead e' s
  pub was_consumed_keeps :
      (id : ℕ) (e : EventEnvelope) (s : S)
      → (runs (k.consumed_events.was_consumed id s).1 ≡ runs s)
        × (dead e (k.consumed_events.was_consumed id s).1 ≡ dead e s)
  pub mark_consumed_keeps :
      (id : ℕ) (e : EventEnvelope) (s : S)
      → (runs (k.consumed_events.mark_consumed id s).1 ≡ runs s)
        × (dead e (k.consumed_events.mark_consumed id s).1 ≡ dead e s)
  pub commit_keeps :
      (t p o : ℕ) (e : EventEnvelope) (s : S)
      → (runs (k.commit_offsets t p o s).1 ≡ runs s)
        × (dead e (k.commit_offsets t p o s).1 ≡ dead e s)
  pub connect_keeps : (s : S) → runs (k.connect s).1 ≡ runs s
  pub send_keeps : (e : EventEnvelope) (s : S) → runs (k.send e s).1 ≡ runs s
  pub disconnect_keeps : (s : S) → runs (k.disconnect s).1 ≡ runs s

module _ {S : Type 0} (k : BaseKafkaConsumer S) (laws : AttemptLaws k) (m : EachMessagePayload)
    (e : EventEnvelope) where
  commit-keeps :
      (s : S)
      → (laws.runs (commit k m s).1 ≡ laws.runs s) × (laws.dead e (commit k m s).1 ≡ laws.dead e s)
  unfolding commit
  commit-keeps s = laws.commit_keeps m.topic m.partition (m.offset + 1) e s

  send_to_dlq-keeps : (s : S) → laws.runs (send_to_dlq k e s).1 ≡ laws.runs s
  unfolding send_to_dlq
  send_to_dlq-keeps s =
      let h1 = laws.connect_keeps s in
      let h2 = laws.send_keeps e (k.connect s).1 in
      let h3 = laws.disconnect_keeps (k.send e (k.connect s).1).1 in ground arith

  give_up-keeps : (s : S) → laws.runs (give_up k m e s).1 ≡ laws.runs s
  unfolding give_up
  give_up-keeps s =
      let h = send_to_dlq-keeps s in
      let (h', d) = commit-keeps (send_to_dlq k e s).1 in ground arith

  attempt-counts :
      (s : S)
      → (laws.runs (attempt k m e s).1 ≡ laws.runs s + 1)
        × (laws.dead e (attempt k m e s).1 ≡ laws.dead e s)
  unfolding attempt
  attempt-counts s =
      let s1 : S = (k.handle (scope_of e) e s).1 in
      let s2 : S = (k.consumed_events.mark_consumed e.event_id s1).1 in
      let h1 = laws.handle_counts (scope_of e) e s in
      let d1 = laws.handle_keeps (scope_of e) e e s in
      let (h2, d2) = laws.mark_consumed_keeps e.event_id e s1 in
      let (h3, d3) = commit-keeps s2 in
      elim (Outcome-cases (k.handle (scope_of e) e s).0) [
        | inr (x, h) ↦ (ground arith, ground arith)
        | inl (tt, h) ↦ elim (Outcome-cases (k.consumed_events.mark_consumed e.event_id s1).0) [
          | inr (x, h') ↦ (ground arith, ground arith)
          | inl (tt, h') ↦ (ground arith, ground arith)
        ]
      ]

  -- `n` more runs at most; and exactly `n` if the event went to the dead letter queue.
  abbrev pub Runs : ℕ → S → S → Type 0
  Runs n s s' =
      (laws.runs s' ≤ laws.runs s + n)
      × (laws.dead e s ≡ false → laws.dead e s' ≡ true → laws.runs s' ≡ laws.runs s + n)

  attempts-Runs : (left : ℕ) (s : S) → Runs (left + 1) s (attempts k left m e s).1
  unfolding attempts
  attempts-Runs zero s =
      let (h, d) = attempt-counts s in
      let g = give_up-keeps (attempt k m e s).1 in
      elim (Outcome-cases (attempt k m e s).0) [
        | inl (tt, ok) ↦ (ground arith, λ alive dead. ground arith)
        | inr (x, ko) ↦ (ground arith, λ alive dead. ground arith)
      ]
  attempts-Runs (suc left) s =
      let (h, d) = attempt-counts s in
      let (bound, exact) = attempts-Runs left (attempt k m e s).1 in
      elim (Outcome-cases (attempt k m e s).0) [
        | inl (tt, ok) ↦ (ground arith, λ alive dead. ground arith)
        | inr (x, ko) ↦ (ground arith, λ alive dead. ground arith)
      ]

  process_envelope-Runs : (s : S) → Runs (max_retries + 1) s (process_envelope k m e s).1
  unfolding process_envelope
  process_envelope-Runs s =
      let s1 : S = (k.consumed_events.was_consumed e.event_id s).1 in
      let (h, d) = laws.was_consumed_keeps e.event_id e s in
      let (h', d') = commit-keeps s1 in
      let (bound, exact) = attempts-Runs max_retries s1 in
      elim (Outcome-cases (k.consumed_events.was_consumed e.event_id s).0) [
        | inr (x, ko) ↦ (ground arith, λ alive dead. ground arith)
        | inl (consumed, ok) ↦ elim (Bool-cases consumed) [
          | inl marked ↦ (ground arith, λ alive dead. ground arith)
          | inr unmarked ↦ (ground arith, λ alive dead. ground arith)
        ]
      ]

module _ {S : Type 0} (k : BaseKafkaConsumer S) (laws : AttemptLaws k) where
  -- The processing of one message, whatever its value, runs `handle` at most four times.
  pub process_message-bound :
      (m : EachMessagePayload) (s : S)
      → laws.runs (process_message k m s).1 ≤ laws.runs s + (max_retries + 1)
  unfolding process_message
  process_message-bound m s = elim (Option-cases m.value) [
    | inl empty ↦ ground arith
    | inr (parsed, h) ↦ elim (Outcome-cases parsed) [
      | inr (x, ko) ↦ ground arith
      | inl (e, ok) ↦ let (bound, exact) = process_envelope-Runs k laws m e s in ground arith
    ]
  ]

  -- If the processing of a message puts its event into the dead letter queue, `handle` ran exactly
  -- four times before: no event is given up early.
  pub process_message-gives_up :
      (m : EachMessagePayload) (e : EventEnvelope)
      → m.value ≡ some (returned e)
      → (s : S) → laws.dead e s ≡ false
      → laws.dead e (process_message k m s).1 ≡ true
      → laws.runs (process_message k m s).1 ≡ laws.runs s + (max_retries + 1)
  unfolding process_message
  process_message-gives_up m e parsed s alive dead =
      let (bound, exact) = process_envelope-Runs k laws m e s in ground arith
