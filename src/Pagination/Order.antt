-- ===== src/Pagination/Order.antt =====
-- ORDER BY lists the rows in descending order, and keeps which rows a test selects.
use multi_tenant_subscriptio.Base.{
  Bool, Bool-cases, List, [], ap, arith, every, if◌then◌else◌, inl, inr, length, not, refl, select,
  suc, true, ℕ, ◌&&◌, ◌++◌, ◌==◌, ◌∙◌, ◌∷◌, ◌≡◌,
}
use multi_tenant_subscriptio.Pagination.Pages.{Listing, after, insert_desc, order_desc}

-- No two rows have the same id.
abbrev pub Distinct : {A : Type 0} → (A → ℕ) → List A → Type 0
Distinct id [] = Unit
Distinct id (x ∷ xs) = (every (λ y. not (id y == id x)) xs ≡ true) × Distinct id xs

module _ {A : Type 0} (l : Listing A) where
  -- Each row comes after those before it.
  abbrev pub Descends : List A → Type 0
  Descends [] = Unit
  Descends (x ∷ xs) = (every (λ y. after l y x) xs ≡ true) × Descends xs

  every-insert_desc :
      (q : A → Bool) (r : A) (xs : List A) → every q (insert_desc l r xs) ≡ (q r && every q xs)
  every-insert_desc q r [] = refl
  every-insert_desc q r (x ∷ xs) = ground (arith, every-insert_desc q r xs)

  pub every-order_desc : (q : A → Bool) (rows : List A) → every q (order_desc l rows) ≡ every q rows
  every-order_desc q [] = refl
  every-order_desc q (r ∷ rows) =
      every-insert_desc q r (order_desc l rows) ∙ ap (λ b. q r && b) (every-order_desc q rows)

  length-insert_desc : (r : A) (xs : List A) → length (insert_desc l r xs) ≡ suc (length xs)
  length-insert_desc r [] = refl
  length-insert_desc r (x ∷ xs) = ground (arith, length-insert_desc r xs)

  pub length-order_desc : (rows : List A) → length (order_desc l rows) ≡ length rows
  length-order_desc [] = refl
  length-order_desc (r ∷ rows) =
      length-insert_desc r (order_desc l rows) ∙ ap (λ k. suc k) (length-order_desc rows)

  every-after :
      (x r : A) (ys : List A)
      → after l x r ≡ true
      → every (λ y. after l y x) ys ≡ true
      → every (λ y. after l y r) ys ≡ true
  every-after x r [] h k = refl
  every-after x r (y ∷ ys) h k = ground (arith, every-after x r ys)

  insert_desc-Descends :
      (r : A) (xs : List A)
      → every (λ y. not (l.id y == l.id r)) xs ≡ true
      → Descends xs
      → Descends (insert_desc l r xs)
  insert_desc-Descends r [] fresh d = (refl, tt)
  insert_desc-Descends r (x ∷ xs) fresh (ahead, rest) = elim (Bool-cases (after l x r)) [
    | inl front ↦
        let behind = every-after x r xs front ahead in rw front (ground arith, (ahead, rest))
    | inr back ↦
        let tail = insert_desc-Descends r xs (ground arith) rest in
        let split = every-insert_desc (λ y. after l y x) r xs in rw back (ground arith, tail)
  ]

  pub order_desc-Descends : (rows : List A) → Distinct l.id rows → Descends (order_desc l rows)
  order_desc-Descends [] d = tt
  order_desc-Descends (r ∷ rows) (fresh, d) =
      insert_desc-Descends r (order_desc l rows)
        (every-order_desc (λ y. not (l.id y == l.id r)) rows ∙ fresh) (order_desc-Descends rows d)

  insert_desc-front :
      (r : A) (ys : List A) → every (λ y. after l y r) ys ≡ true → insert_desc l r ys ≡ r ∷ ys
  insert_desc-front r [] h = refl
  insert_desc-front r (y ∷ ys) h = ground arith

  every-select_sub :
      (q p : A → Bool) (xs : List A) → every q xs ≡ true → every q (select p xs) ≡ true
  every-select_sub q p [] h = refl
  every-select_sub q p (x ∷ xs) h = ground (arith, every-select_sub q p xs)

  select-insert_desc :
      (p : A → Bool) (r : A) (xs : List A)
      → Descends xs
      → select p (insert_desc l r xs) ≡ (if p r then insert_desc l r (select p xs) else select p xs)
  select-insert_desc p r [] d = refl
  select-insert_desc p r (x ∷ xs) (ahead, rest) =
      let later = select-insert_desc p r xs rest in
      elim (Bool-cases (after l x r)) [
        | inl front ↦
            let behind =
              every-select_sub (λ y. after l y r) p xs (every-after x r xs front ahead) in
            let head = insert_desc-front r (select p xs) behind in ground arith
        | inr back ↦ ground arith
      ]

  pub select-order_desc :
      (p : A → Bool) (rows : List A)
      → Distinct l.id rows
      → select p (order_desc l rows) ≡ order_desc l (select p rows)
  select-order_desc p [] d = refl
  select-order_desc p (r ∷ rows) (fresh, d) =
      let inserted = select-insert_desc p r (order_desc l rows) (order_desc-Descends rows d) in
      let rest = select-order_desc p rows d in ground arith

  select-after_all :
      (x : A) (ys : List A) → every (λ y. after l y x) ys ≡ true → select (λ y. after l y x) ys ≡ ys
  select-after_all x [] h = refl
  select-after_all x (y ∷ ys) h = let rest = select-after_all x ys in ground (arith, rest)

  pub every-mem_append :
      (q : A → Bool) (xs : List A) (x : A) (ys : List A)
      → every q (xs ++ x ∷ ys) ≡ true
      → q x ≡ true
  every-mem_append q [] x ys h = ground arith
  every-mem_append q (y ∷ xs) x ys h = ground (arith, every-mem_append q xs x ys)

  -- The rows after a row of the list.
  pub select-after :
      (xs : List A) (x : A) (ys : List A)
      → Descends (xs ++ x ∷ ys)
      → select (λ y. after l y x) (xs ++ x ∷ ys) ≡ ys
  select-after [] x ys (ahead, rest) = let tail = select-after_all x ys ahead in ground arith
  select-after (y ∷ xs) x ys (ahead, rest) =
      let behind = every-mem_append (λ z. after l z y) xs x ys ahead in
      let tail = select-after xs x ys rest in ground arith
