-- ===== src/Base/Sums.antt =====
-- SUM over the rows that a WHERE clause selects.
use Prim.Native.Nat.{ℕ, ◌+◌, ◌≤◌}
use mathlib.Core.Path.{◌≡◌, refl}
use mathlib.Core.Bool.{Bool, true, false}
use mathlib.Core.Option.{some}
use mathlib.Core.List.{List, [], ◌∷◌, ◌++◌}
use native.Mathlib.Omega.{arith}
use multi_tenant_subscriptio.Base.Tests.{if◌then◌else◌}
use multi_tenant_subscriptio.Base.Rows.{select, first, count, update_where}

module _ {ℓ} {A : Type ℓ} where
  abbrev pub sum_where : (A → Bool) → (A → ℕ) → List A → ℕ
  sum_where q size [] = 0
  sum_where q size (x ∷ xs) = (if q x then size x else 0) + sum_where q size xs

  pub sum_where-append :
      (q : A → Bool) (size : A → ℕ) (xs ys : List A)
      → sum_where q size (xs ++ ys) ≡ sum_where q size xs + sum_where q size ys
  sum_where-append q size [] ys = omega arith
  sum_where-append q size (x ∷ xs) ys = omega (arith, sum_where-append q size xs ys)

  sum_where-update_none :
      (q p : A → Bool) (size : A → ℕ) (f : A → A) (xs : List A)
      → count p xs ≡ 0
      → sum_where q size (update_where p f xs) ≡ sum_where q size xs
  sum_where-update_none q p size f [] h = refl
  sum_where-update_none q p size f (x ∷ xs) h = ground (arith, sum_where-update_none q p size f xs)

  -- An UPDATE of at most one row, by which that row drops out of the sum.
  pub sum_where-update_one :
      (q p : A → Bool) (size : A → ℕ) (f : A → A) (xs : List A) {x : A}
      → ((y : A) → p y ≡ true → q (f y) ≡ false)
      → count p xs ≤ 1
      → first p xs ≡ some x
      → q x ≡ true
      → sum_where q size (update_where p f xs) + size x ≡ sum_where q size xs
  sum_where-update_one q p size f [] h once found k = cc
  sum_where-update_one q p size f (y ∷ xs) {x} h once found k = ground (
    arith,
    h y,
    sum_where-update_one q p size f xs {x = x} h,
    sum_where-update_none q p size f xs,
  )

  pub sum_where-select :
      (q r : A → Bool) (size : A → ℕ) (xs : List A)
      → ((x : A) → q x ≡ true → r x ≡ true)
      → sum_where q size (select r xs) ≡ sum_where q size xs
  sum_where-select q r size [] h = refl
  sum_where-select q r size (x ∷ xs) h = ground (arith, h x, sum_where-select q r size xs h)
