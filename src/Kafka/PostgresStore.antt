-- ===== src/Kafka/PostgresStore.antt =====
-- events/postgres-consumed-event.store.ts, the same in each service but for the schema: the table
-- consumed_events has no organization_id and no policy.
use multi_tenant_subscriptio.Base.{
  Bool, List, [], first, length, ltb, none, select, some, ℕ, ◌++◌, ◌==◌, ◌∷◌,
}
use multi_tenant_subscriptio.Common.{Error, unique_violation}
use multi_tenant_subscriptio.Database.{
  Request, Tx, catch, pure, returned, run_global, throw, thrown, ◌>>=◌,
}

-- A database with the table, of which `event_ids` is the primary key.
pub record ConsumedEvents (D : Type 0) : Type 0 where
  pub event_ids : D → List ℕ
  pub put : D → List ℕ → D

module _ {D : Type 0} (t : ConsumedEvents D) where
  -- `SELECT event_id FROM consumed_events WHERE event_id = $1`
  select_event : ℕ → Tx D (List ℕ)
  select_event event_id c = (returned (select (λ id. id == event_id) (t.event_ids c.tables)), c)

  -- `INSERT INTO consumed_events (event_id) VALUES ($1)`
  insert_event : ℕ → Tx D (Unit {0})
  insert_event event_id c = elim (first (λ id. id == event_id) (t.event_ids c.tables)) [
    | some _ ↦ (thrown unique_violation, c)
    | none ↦
        (returned tt, record c { tables = t.put c.tables (t.event_ids c.tables ++ event_id ∷ []) })
  ]

  -- The handler of the INSERT's error.
  ignore_duplicate : Error → Tx D (Unit {0})
  ignore_duplicate unique_violation = pure tt
  ignore_duplicate err = throw err

  unfoldable pub was_consumed : ℕ → Request D Bool
  unfolding run_global select_event
  was_consumed event_id = run_global (do rows ← select_event event_id; pure (ltb 0 (length rows)))

  unfoldable pub mark_consumed : ℕ → Request D (Unit {0})
  unfolding run_global insert_event ignore_duplicate
  mark_consumed event_id = run_global (catch (insert_event event_id) ignore_duplicate)
