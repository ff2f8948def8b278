-- ===== src/Kafka/Refusal.antt =====
-- An event that `handle` always refuses.
use multi_tenant_subscriptio.Base.{false, if◌then◌else◌, some, suc, zero, ℕ, ◌∙◌, ◌≡◌}
use multi_tenant_subscriptio.Common.{Error}
use multi_tenant_subscriptio.Database.{catch, returned, thrown, ◌>>=◌, ◌>>◌}
use multi_tenant_subscriptio.Kafka.Consumer.{
  BaseKafkaConsumer, EachMessagePayload, EventEnvelope, attempt, attempts, commit, give_up,
  max_retries, process_message, scope_of,
}

module _ {S : Type 0} (k : BaseKafkaConsumer S) (m : EachMessagePayload) (e : EventEnvelope) (s : S)
    (err : Error) (refused : k.handle (scope_of e) e s ≡ (thrown err, s)) where
  attempt-refused : attempt k m e s ≡ (thrown err, s)
  unfolding attempt
  attempt-refused =
      λ i. (((λ _. refused i) >> k.consumed_events.mark_consumed e.event_id) >> commit k m) s

  attempts-give_up : (left : ℕ) → attempts k left m e s ≡ give_up k m e s
  unfolding attempts
  attempts-give_up zero = λ i. catch (λ _. attempt-refused i) (λ err. give_up k m e) s
  attempts-give_up (suc left) =
      (λ i. catch (λ _. attempt-refused i) (λ err. attempts k left m e) s) ∙ attempts-give_up left

  -- A handler that refuses an event and changes nothing: after the last retry the event goes to the
  -- dead letter queue.
  pub process_message-give_up :
      m.value ≡ some (returned e)
      → k.consumed_events.was_consumed e.event_id s ≡ (returned false, s)
      → process_message k m s ≡ give_up k m e s
  unfolding process_message
  process_message-give_up parsed fresh = rw parsed (
      (λ i.
        ((λ _. fresh i) >>= λ consumed. if consumed then commit k m else attempts k max_retries m e)
          s)
      ∙ attempts-give_up max_retries)
