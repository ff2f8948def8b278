-- ===== src/Base/Rows.antt =====
-- A table is the list of its rows: what SELECT, COUNT and UPDATE with a WHERE clause do to it.
use Prim.Native.Nat.{ℕ, suc, ◌+◌, ◌≤◌}
use mathlib.Core.Path.{◌≡◌, refl, ap}
use mathlib.Core.Bool.{Bool, true, false, ◌&&◌}
use mathlib.Core.Option.{Option, none, some}
use mathlib.Core.List.{List, [], ◌∷◌, ◌++◌, map}
use native.Mathlib.Omega.{arith}
use multi_tenant_subscriptio.Base.Tests.{if◌then◌else◌}

module _ {ℓ} {A : Type ℓ} where
  abbrev pub length : List A → ℕ
  length [] = 0
  length (x ∷ xs) = suc (length xs)

  abbrev pub select : (A → Bool) → List A → List A
  select p [] = []
  select p (x ∷ xs) = if p x then x ∷ select p xs else select p xs

  abbrev pub first : (A → Bool) → List A → Option A
  first p [] = none
  first p (x ∷ xs) = if p x then some x else first p xs

  abbrev pub count : (A → Bool) → List A → ℕ
  count p [] = 0
  count p (x ∷ xs) = (if p x then 1 else 0) + count p xs

  abbrev pub update_where : (A → Bool) → (A → A) → List A → List A
  update_where p f [] = []
  update_where p f (x ∷ xs) = (if p x then f x else x) ∷ update_where p f xs

  pub count_mono :
      (p q : A → Bool) (xs : List A) → ((x : A) → p x ≡ true → q x ≡ true) → count p xs ≤ count q xs
  count_mono p q [] h = omega arith
  count_mono p q (x ∷ xs) h = ground (arith, h x, count_mono p q xs h)

  -- Every row that `p` selects passes `q`.
  abbrev pub all_where : (A → Bool) → (A → Bool) → List A → Bool
  all_where p q [] = true
  all_where p q (x ∷ xs) = (if p x then q x else true) && all_where p q xs

  -- The row found by a test that an UPDATE does not touch.
  pub first-update_where :
      (q p : A → Bool) (f : A → A) (xs : List A) {x : A}
      → ((y : A) → p y ≡ true → q (f y) ≡ q y)
      → first q xs ≡ some x
      → first q (update_where p f xs) ≡ some (if p x then f x else x)
  first-update_where q p f [] h k = cc
  first-update_where q p f (y ∷ xs) {x} h k =
      ground (arith, h y, first-update_where q p f xs {x = x} h)

  pub all_where-first :
      (p q : A → Bool) (xs : List A) {x : A} (r : A → Bool)
      → all_where p q xs ≡ true
      → first r xs ≡ some x
      → p x ≡ true
      → q x ≡ true
  all_where-first p q [] r h k l = cc
  all_where-first p q (y ∷ xs) {x} r h k l = ground (arith, all_where-first p q xs {x = x} r)

  pub count-update_where_none :
      (q p : A → Bool) (f : A → A) (xs : List A)
      → count p xs ≡ 0
      → count q (update_where p f xs) ≡ count q xs
  count-update_where_none q p f [] h = refl
  count-update_where_none q p f (x ∷ xs) h = ground (arith, count-update_where_none q p f xs)

  -- An UPDATE of at most one row, by which that row ceases to count.
  pub count-update_where_one :
      (q p : A → Bool) (f : A → A) (xs : List A) {x : A}
      → ((y : A) → p y ≡ true → q (f y) ≡ false)
      → count p xs ≤ 1
      → first p xs ≡ some x
      → q x ≡ true
      → count q (update_where p f xs) + 1 ≡ count q xs
  count-update_where_one q p f [] h once found k = cc
  count-update_where_one q p f (y ∷ xs) {x} h once found k =
      ground
        (arith, h y, count-update_where_one q p f xs {x = x} h, count-update_where_none q p f xs)

  -- How often `q` holds after an UPDATE, where every row the WHERE clause selects changes `q` alike.
  pub count-update_where_same :
      (q p : A → Bool) (f : A → A) (xs : List A)
      → ((x : A) → p x ≡ true → q (f x) ≡ q x)
      → count q (update_where p f xs) ≡ count q xs
  count-update_where_same q p f [] h = refl
  count-update_where_same q p f (x ∷ xs) h = ground (arith, h x, count-update_where_same q p f xs h)

  pub count-append : (q : A → Bool) (xs ys : List A) → count q (xs ++ ys) ≡ count q xs + count q ys
  count-append q [] ys = omega arith
  count-append q (x ∷ xs) ys = omega (arith, count-append q xs ys)

  pub first_holds : (p : A → Bool) (xs : List A) {x : A} → first p xs ≡ some x → p x ≡ true
  first_holds p [] h = cc
  first_holds p (y ∷ xs) {x} h = ground (arith, first_holds p xs {x = x})

  pub first-eq-none : (p : A → Bool) (xs : List A) → first p xs ≡ none → count p xs ≡ 0
  first-eq-none p [] h = refl
  first-eq-none p (y ∷ xs) h = ground (arith, first-eq-none p xs)

  pub count-pos_of_first :
      (p q : A → Bool) (xs : List A) {x : A} → first p xs ≡ some x → q x ≡ true → 1 ≤ count q xs
  count-pos_of_first p q [] h k = cc
  count-pos_of_first p q (y ∷ xs) {x} h k = ground (arith, count-pos_of_first p q xs {x = x})

  -- An UPDATE leaves alone the rows that its WHERE clause does not select.
  pub select-update_where :
      (q p : A → Bool) (f : A → A) (xs : List A)
      → ((x : A) → p x ≡ true → q x ≡ false)
      → ((x : A) → p x ≡ true → q (f x) ≡ false)
      → select q (update_where p f xs) ≡ select q xs
  select-update_where q p f [] h k = refl
  select-update_where q p f (x ∷ xs) h k =
      ground (arith, h x, k x, select-update_where q p f xs h k)

  pub select-append :
      (q : A → Bool) (xs ys : List A) → select q (xs ++ ys) ≡ select q xs ++ select q ys
  select-append q [] ys = refl
  select-append q (x ∷ xs) ys = ground (arith, select-append q xs ys)

  -- With a key that no two rows share, the row that some test finds is the row that the key finds.
  pub first_by_key :
      (p q : A → Bool) (xs : List A) {x : A}
      → count p xs ≤ 1
      → first q xs ≡ some x
      → p x ≡ true
      → first p xs ≡ some x
  first_by_key p q [] once found h = cc
  first_by_key p q (y ∷ xs) {x} once found h =
      ground (arith, count-pos_of_first q p xs {x = x}, first_by_key p q xs {x = x})

  pub first_of_count_zero :
      (p q : A → Bool) (xs : List A)
      → ((x : A) → p x ≡ true → q x ≡ true)
      → count q xs ≡ 0
      → first p xs ≡ none
  first_of_count_zero p q [] h e = refl
  first_of_count_zero p q (y ∷ xs) h e = ground (arith, h y, first_of_count_zero p q xs h)

  -- What a test counts and finds among the rows that a wider test selects.
  pub count-select :
      (q r : A → Bool) (xs : List A)
      → ((x : A) → q x ≡ true → r x ≡ true)
      → count q (select r xs) ≡ count q xs
  count-select q r [] h = refl
  count-select q r (x ∷ xs) h = ground (arith, h x, count-select q r xs h)

  pub first-select :
      (q r : A → Bool) (xs : List A)
      → ((x : A) → q x ≡ true → r x ≡ true)
      → first q (select r xs) ≡ first q xs
  first-select q r [] h = refl
  first-select q r (x ∷ xs) h = ground (arith, h x, first-select q r xs h)

  -- An UPDATE costs a test no more rows than it selects.
  pub count-update_where_loses :
      (q p : A → Bool) (f : A → A) (xs : List A)
      → count q xs ≤ count q (update_where p f xs) + count p xs
  count-update_where_loses q p f [] = omega arith
  count-update_where_loses q p f (x ∷ xs) = ground (arith, count-update_where_loses q p f xs)

  -- An UPDATE of one row that did not count costs nothing.
  pub count-update_where_spares :
      (q p : A → Bool) (f : A → A) (xs : List A) {x : A}
      → count p xs ≤ 1
      → first p xs ≡ some x
      → q x ≡ false
      → count q xs ≤ count q (update_where p f xs)
  count-update_where_spares q p f [] once found h = cc
  count-update_where_spares q p f (y ∷ xs) {x} once found h =
      ground (arith, count-update_where_spares q p f xs {x = x}, count-update_where_none q p f xs)

  -- An UPDATE that leaves the test true where it was true.
  pub count-update_where_grows :
      (q p : A → Bool) (f : A → A) (xs : List A)
      → ((x : A) → q x ≡ true → q (f x) ≡ true)
      → count q xs ≤ count q (update_where p f xs)
  count-update_where_grows q p f [] h = omega arith
  count-update_where_grows q p f (x ∷ xs) h =
      ground (arith, h x, count-update_where_grows q p f xs h)

  pub select-eq-nil : (q : A → Bool) (xs : List A) → ((x : A) → q x ≡ false) → select q xs ≡ []
  select-eq-nil q [] h = refl
  select-eq-nil q (x ∷ xs) h = ground (arith, h x, select-eq-nil q xs h)

  pub first-append :
      (q : A → Bool) (xs : List A) (y : A)
      → first q xs ≡ none
      → first q (xs ++ y ∷ []) ≡ (if q y then some y else none)
  first-append q [] y h = refl
  first-append q (x ∷ xs) y h = ground (arith, first-append q xs y)

  all_where-none : (p q : A → Bool) (xs : List A) → count p xs ≡ 0 → all_where p q xs ≡ true
  all_where-none p q [] h = refl
  all_where-none p q (x ∷ xs) h = ground (arith, all_where-none p q xs)

  -- Where one row at most is selected, that one decides.
  pub all_where-one :
      (p q : A → Bool) (xs : List A) {x : A}
      → count p xs ≤ 1
      → first p xs ≡ some x
      → all_where p q xs ≡ q x
  all_where-one p q [] once found = cc
  all_where-one p q (y ∷ xs) {x} once found =
      ground (arith, all_where-one p q xs {x = x}, all_where-none p q xs)

  pub first-never : (xs : List A) → first (λ x. false) xs ≡ none
  first-never [] = refl
  first-never (x ∷ xs) = first-never xs

  pub length-snoc : (xs : List A) (x : A) → length (xs ++ x ∷ []) ≡ length xs + 1
  length-snoc [] x = omega arith
  length-snoc (y ∷ xs) x = omega (arith, length-snoc xs x)

  pub first-append_found :
      (q : A → Bool) (xs ys : List A) {x : A} → first q xs ≡ some x → first q (xs ++ ys) ≡ some x
  first-append_found q [] ys h = cc
  first-append_found q (y ∷ xs) ys {x} h = ground (arith, first-append_found q xs ys {x = x})

  -- All rows pass the test.
  abbrev pub every : (A → Bool) → List A → Bool
  every q [] = true
  every q (x ∷ xs) = q x && every q xs

  pub every-select :
      (q p : A → Bool) (xs : List A)
      → ((x : A) → p x ≡ true → q x ≡ true)
      → every q (select p xs) ≡ true
  every-select q p [] h = refl
  every-select q p (x ∷ xs) h = ground (arith, h x, every-select q p xs h)

  pub select_ext :
      (p q : A → Bool) (xs : List A) → ((x : A) → p x ≡ q x) → select p xs ≡ select q xs
  select_ext p q [] h = refl
  select_ext p q (x ∷ xs) h = ground (arith, h x, select_ext p q xs h)

  pub select-and :
      (p q : A → Bool) (xs : List A) → select (λ x. p x && q x) xs ≡ select q (select p xs)
  select-and p q [] = refl
  select-and p q (x ∷ xs) = ground (arith, select-and p q xs)

  -- What holds of the rows that pass both tests.
  pub every-select_where :
      (q h p : A → Bool) (xs : List A)
      → every h xs ≡ true
      → ((x : A) → h x ≡ true → p x ≡ true → q x ≡ true)
      → every q (select p xs) ≡ true
  every-select_where q h p [] all k = refl
  every-select_where q h p (x ∷ xs) all k = ground (arith, k x, every-select_where q h p xs)

pub every-map :
    {A B : Type 0} (q : B → Bool) (f : A → B) (xs : List A)
    → every q (map f xs) ≡ every (λ x. q (f x)) xs
every-map q f [] = refl
every-map q f (x ∷ xs) = ap (λ b. q (f x) && b) (every-map q f xs)
