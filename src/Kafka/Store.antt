-- ===== src/Kafka/Store.antt =====
-- The table consumed_events keeps what the consumers ask of their store.
use multi_tenant_subscriptio.Base.{
  ==_refl, Bool, Bool-cases, List, Option-cases, [], arith, first, inl, inr, length, ltb, select,
  some, true, ℕ, ◌++◌, ◌==◌, ◌∷◌, ◌≡◌,
}
use multi_tenant_subscriptio.Database.{World, returned}
use multi_tenant_subscriptio.Kafka.PostgresStore.{ConsumedEvents, mark_consumed, was_consumed}

first-nonempty :
    {A : Type 0} (p : A → Bool) (xs : List A) (x : A)
    → first p xs ≡ some x
    → ltb 0 (length (select p xs)) ≡ true
first-nonempty p [] x found = ground arith
first-nonempty p (y ∷ ys) x found =
    let rest = first-nonempty p ys x in
    elim (Bool-cases (p y)) [
      | inl yes' ↦ ground arith
      | inr no' ↦ let h = rest (ground arith) in ground arith
    ]

append-nonempty :
    {A : Type 0} (p : A → Bool) (xs : List A) (x : A)
    → p x ≡ true
    → ltb 0 (length (select p (xs ++ x ∷ []))) ≡ true
append-nonempty p [] x h = ground arith
append-nonempty p (y ∷ ys) x h = let rest = append-nonempty p ys x h in ground arith

-- The marking of an event returns, marked or not before, and the store then says that the event was
-- consumed.
pub mark_consumed-was_consumed :
    {D : Type 0} (t : ConsumedEvents D)
    → ((d : D) (ids : List ℕ) → t.event_ids (t.put d ids) ≡ ids)
    → (event_id : ℕ) (w : World D)
    → ((mark_consumed t event_id w).0 ≡ returned tt)
      × (was_consumed t event_id (mark_consumed t event_id w).1
          ≡ (returned true, (mark_consumed t event_id w).1))
unfolding mark_consumed was_consumed
mark_consumed-was_consumed t kept event_id w =
    let self = ==_refl event_id in
    let put = kept w.db (t.event_ids w.db ++ event_id ∷ []) in
    let fresh = append-nonempty (λ id. id == event_id) (t.event_ids w.db) event_id self in
    let old = first-nonempty (λ id. id == event_id) (t.event_ids w.db) in
    elim (Option-cases (first (λ id. id == event_id) (t.event_ids w.db))) [
      | inl absent ↦ (ground arith, ground arith)
      | inr (x, found) ↦ let h = old x found in (ground arith, ground arith)
    ]
