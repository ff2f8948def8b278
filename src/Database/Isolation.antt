-- ===== src/Database/Isolation.antt =====
-- What the policy guarantees of the writes of a scoped connection, whatever their WHERE clauses: the
-- rows of all other organisations stay as they are.
use multi_tenant_subscriptio.Base.{
  Bool, Bool-cases, List, Option, Option-cases, [], all_where, arith, every, every-select, first,
  first_holds, inl, inr, none, not, refl, select, select-update_where, some, true, ℕ, ◌&&◌, ◌++◌,
  ◌==◌, ◌∙◌, ◌∷◌, ◌≡◌,
}
use multi_tenant_subscriptio.Database.Actions.{Outcome, returned, thrown}
use multi_tenant_subscriptio.Database.Preservation.{Preserves}
use multi_tenant_subscriptio.Database.Queries.{
  Connection, Table, find_one, find_rows, insert_row, sees, update_checked, update_rows,
}

-- The rows of the other organisations.
abbrev pub others {ℓ} : {A : Type ℓ} → (A → ℕ) → ℕ → List A → List A
others owner o = select (λ r. not (owner r == o))

-- `foreign o` is what a database holds for the organisations other than `o`; a table keeps to it
-- if new rows that agree with the old ones on the others leave it alone.
pub record Separates {D F A : Type 0} (foreign : ℕ → D → F) (t : Table D A) : Type 0 where
  pub put_back :
      (o : ℕ) (d : D) (rows : List A)
      → others t.owner o rows ≡ others t.owner o (t.rows d)
      → foreign o (t.put d rows) ≡ foreign o d

-- The connection stays scoped to `o`, and what the others hold stays `before`.
abbrev pub Kept : {D F : Type 0} → (ℕ → D → F) → ℕ → F → Connection D → Type 0
Kept foreign o before c = (c.current_org ≡ some o) × (foreign o c.tables ≡ before)

module _ {D F A : Type 0} {foreign : ℕ → D → F} (t : Table D A) (separates : Separates foreign t)
    (o : ℕ) (before : F) where
  pub update_rows-Kept :
      (p : A → Bool) (f : A → A)
      → ((r : A) → t.owner (f r) ≡ t.owner r)
      → Preserves (Kept foreign o before) (update_rows t p f)
  unfolding update_rows
  update_rows-Kept p f same = record {
    keeps = λ c (e, before_eq). (
      e,
      separates.put_back o c.tables _ (
            rw e (
              select-update_where (λ r. not (t.owner r == o)) (λ r. (t.owner r == o) && p r) f
                (t.rows c.tables) (λ x h. ground arith) (λ x h. ground (arith, same x))))
          ∙ before_eq,
    );
  }

  pub update_checked-Kept :
      (p allowed : A → Bool) (f : A → A)
      → ((r : A) → t.owner (f r) ≡ t.owner r)
      → Preserves (Kept foreign o before) (update_checked t p allowed f)
  unfolding update_checked
  update_checked-Kept p allowed f same = record {
    keeps = λ c h.
        elim (Bool-cases
          (all_where (λ r. sees c.current_org (t.owner r) && p r) allowed (t.rows c.tables))) [
            | inl fits ↦ rw fits ((update_rows-Kept p f same).keeps c h)
            | inr refused ↦ rw refused h
          ];
  }

  others-insert :
      (r : A) (rows : List A)
      → (t.owner r == o) ≡ true
      → others t.owner o (rows ++ r ∷ []) ≡ others t.owner o rows
  others-insert r [] own = rw own refl
  others-insert r (x ∷ rows) own = ground (arith, others-insert r rows own)

  pub insert_row-Kept :
      (clashes : A → Bool) (r : A) → Preserves (Kept foreign o before) (insert_row t clashes r)
  unfolding insert_row
  insert_row-Kept clashes r = record {
    keeps = λ c (e, before_eq). elim (Bool-cases (sees c.current_org (t.owner r))) [
      | inr denied ↦ rw denied (e, before_eq)
      | inl own ↦ elim (Option-cases (first clashes (t.rows c.tables))) [
        | inr (x, taken) ↦ rw (own, taken) (e, before_eq)
        | inl free ↦
            rw (own, free)
              (
                e,
                separates.put_back o c.tables _ (others-insert r (t.rows c.tables) (ground arith))
                    ∙ before_eq,
              )
      ]
    ];
  }

abbrev pub every_of : {A : Type 0} → (A → Bool) → Outcome (List A) → Bool
every_of q (returned rows) = every q rows
every_of q (thrown e) = true

abbrev pub every_found : {A : Type 0} → (A → Bool) → Outcome (Option A) → Bool
every_found q (returned (some r)) = q r
every_found q (returned none) = true
every_found q (thrown e) = true

-- Whatever a query asks for, each row that it answers is a row of the organisation that the
-- connection is scoped to, and on a connection without a scope it answers no row.
pub queries-isolate :
    {D A : Type 0} (t : Table D A) (p : A → Bool) (c : Connection D)
    → (every_of (λ r. sees c.current_org (t.owner r)) (find_rows t p c).0 ≡ true)
      × (every_found (λ r. sees c.current_org (t.owner r)) (find_one t p c).0 ≡ true)
unfolding find_rows find_one
queries-isolate t p c = (
  every-select (λ r. sees c.current_org (t.owner r)) (λ r. sees c.current_org (t.owner r) && p r)
      (t.rows c.tables) (λ x h. ground arith),
  elim (Option-cases (first (λ r. sees c.current_org (t.owner r) && p r) (t.rows c.tables))) [
    | inl absent ↦ rw absent refl
    | inr (r, found) ↦ rw found (
        ground
          (arith, first_holds (λ r. sees c.current_org (t.owner r) && p r) (t.rows c.tables) found))
  ],
)
