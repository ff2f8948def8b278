-- ===== src/Base/Marked.antt =====
-- `UPDATE ... WHERE id IN (ids)`, for the ids of the rows that a SELECT before it found.
use Prim.Native.Nat.{ℕ, ◌+◌, ◌≤◌}
use mathlib.Core.Path.{◌≡◌, refl}
use mathlib.Core.Logic.{inl, inr}
use mathlib.Core.Bool.{Bool, true, false, ◌&&◌, ◌||◌}
use mathlib.Core.List.{List, [], ◌∷◌, map}
use native.Mathlib.Omega.{arith}
use multi_tenant_subscriptio.Base.Tests.{◌==◌, Bool-cases}
use multi_tenant_subscriptio.Base.Rows.{length, select, count, update_where}

-- `ids.includes(id)`
abbrev pub member : ℕ → List ℕ → Bool
member id [] = false
member id (x ∷ xs) = x == id || member id xs

module _ {ℓ} {A : Type ℓ} (key : A → ℕ) (e : A → Bool) where
  abbrev pub keys_where : List A → List ℕ
  keys_where xs = map key (select e xs)

  pub length-keys_where : (xs : List A) → length (keys_where xs) ≡ count e xs
  length-keys_where [] = refl
  length-keys_where (x ∷ xs) = ground (arith, length-keys_where xs)

  abbrev Agree : (ℕ → Bool) → List A → Type 0
  Agree m [] = Unit
  Agree m (x ∷ xs) = (m (key x) ≡ e x) × Agree m xs

  Agree-cons :
      (m : ℕ → Bool) (k : ℕ) (xs : List A)
      → count (λ x. key x == k) xs ≡ 0
      → Agree m xs
      → Agree (λ j. k == j || m j) xs
  Agree-cons m k [] h a = tt
  Agree-cons m k (x ∷ xs) h (a, b) = (ground arith, Agree-cons m k xs (ground arith) b)

  member-keys_where :
      (k : ℕ) (xs : List A) → count (λ x. key x == k) xs ≡ 0 → member k (keys_where xs) ≡ false
  member-keys_where k [] h = refl
  member-keys_where k (x ∷ xs) h = ground (arith, member-keys_where k xs)

  Agree-member :
      (ks ls : List ℕ) (xs : List A)
      → ks ≡ ls
      → Agree (λ j. member j ls) xs
      → Agree (λ j. member j ks) xs
  Agree-member ks ls xs e a = rw e a

  keys_where-Agree :
      (xs : List A)
      → ((k : ℕ) → count (λ x. key x == k) xs ≤ 1)
      → Agree (λ j. member j (keys_where xs)) xs
  keys_where-Agree [] once = tt
  keys_where-Agree (x ∷ xs) once =
      let rest = keys_where-Agree xs (λ k. ground (arith, once k)) in
      let alone : count (λ y. key y == key x) xs ≡ 0 = ground (arith, once (key x)) in
      elim (Bool-cases (e x)) [
        | inl chosen ↦ (
          ground arith,
          Agree-member (keys_where (x ∷ xs)) (key x ∷ keys_where xs) xs (rw chosen refl)
              (Agree-cons (λ j. member j (keys_where xs)) (key x) xs alone rest),
        )
        | inr other ↦ (
          ground (arith, member-keys_where (key x) xs alone),
          Agree-member (keys_where (x ∷ xs)) (keys_where xs) xs (rw other refl) rest,
        )
      ]

  module _ (held : A → Bool) (f : A → A) (h : (x : A) → e x ≡ true → held x ≡ true)
      (k : (x : A) → e x ≡ true → held (f x) ≡ false) where
    count-Agree :
        (p : A → Bool) (m : ℕ → Bool) (xs : List A)
        → ((x : A) → e x ≡ true → p x ≡ true)
        → Agree m xs
        → count held (update_where (λ x. p x && m (key x)) f xs) + count e xs ≡ count held xs
    count-Agree p m [] w a = refl
    count-Agree p m (x ∷ xs) w (a, b) = ground (arith, a, h x, k x, w x, count-Agree p m xs w b)

    -- Each row that was found ceases to count, and no other row does.
    pub count-marked :
        (p : A → Bool) (xs : List A)
        → ((x : A) → e x ≡ true → p x ≡ true)
        → ((k : ℕ) → count (λ x. key x == k) xs ≤ 1)
        → count held (update_where (λ x. p x && member (key x) (keys_where xs)) f xs)
            + length (keys_where xs)
          ≡ count held xs
    count-marked p xs w once =
        rw (length-keys_where xs)
          (count-Agree p (λ j. member j (keys_where xs)) xs w (keys_where-Agree xs once))
