-- ===== src/Database/Queries.antt =====
-- The queries that the repositories issue, as PostgreSQL answers them under the policy of
-- rls-migration.helper.ts:
--   USING (organization_id = NULLIF(current_setting('app.current_org', true), '')::uuid).
-- A row is seen only where its organisation is the one that the connection is scoped to, and with
-- no scope no row is: the comparison with NULL is not true of any row.
use multi_tenant_subscriptio.Base.{
  ℕ, Bool, ◌&&◌, Option, none, some, List, [], ◌∷◌, ◌++◌, eq_nullable, if◌then◌else◌, first, count,
  select, update_where, all_where,
}
use multi_tenant_subscriptio.Common.{unique_violation, check_violation, rls_violation}
use multi_tenant_subscriptio.Database.Actions.{Action, returned, thrown}

-- A connection with an open transaction: `app.current_org`, and the tables as it sees them.
pub record Connection (D : Type 0) : Type 0 where
  pub current_org : Option ℕ
  pub tables : D

abbrev pub Tx : Type 0 → Type 0 → Type 0
Tx D A = Action (Connection D) A

-- A table of the database `D` that carries an organization_id.
pub record Table (D A : Type 0) : Type 0 where
  pub rows : D → List A
  pub put : D → List A → D
  pub owner : A → ℕ

abbrev pub sees : Option ℕ → ℕ → Bool
sees scope owner = eq_nullable owner scope

module _ {D A : Type 0} (t : Table D A) where
  unfoldable pub find_one : (A → Bool) → Tx D (Option A)
  find_one p c =
      (returned (first (λ r. sees c.current_org (t.owner r) && p r) (t.rows c.tables)), c)

  unfoldable pub count_rows : (A → Bool) → Tx D ℕ
  count_rows p c =
      (returned (count (λ r. sees c.current_org (t.owner r) && p r) (t.rows c.tables)), c)

  unfoldable pub find_rows : (A → Bool) → Tx D (List A)
  find_rows p c =
      (returned (select (λ r. sees c.current_org (t.owner r) && p r) (t.rows c.tables)), c)

  unfoldable pub update_rows : (A → Bool) → (A → A) → Tx D (Unit {0})
  update_rows p f c = (
    returned tt,
    record c {
      tables =
          t.put c.tables
            (update_where (λ r. sees c.current_org (t.owner r) && p r) f (t.rows c.tables));
    },
  )

  -- The UPDATE has no effect at all if a CHECK refuses the new version of one of its rows.
  unfoldable pub update_checked : (A → Bool) → (allowed : A → Bool) → (A → A) → Tx D (Unit {0})
  unfolding update_rows
  update_checked p allowed f c =
      if all_where (λ r. sees c.current_org (t.owner r) && p r) allowed (t.rows c.tables)
      then update_rows p f c
      else (thrown check_violation, c)

  -- `clashes` says with which rows of the whole table a unique index forbids the new one: an index
  -- is not subject to the policy. WITH CHECK refuses a row of another organisation.
  unfoldable pub insert_row : (clashes : A → Bool) → A → Tx D A
  insert_row clashes r c =
      if sees c.current_org (t.owner r)
      then (elim (first clashes (t.rows c.tables)) [
        | some _ ↦ (thrown unique_violation, c)
        | none ↦ (returned r, record c { tables = t.put c.tables (t.rows c.tables ++ r ∷ []) })
      ])
      else (thrown rls_violation, c)
