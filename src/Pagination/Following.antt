-- ===== src/Pagination/Following.antt =====
-- What a client reads who follows the cursors.
use multi_tenant_subscriptio.Base.{
  ==_iff, Bool-cases, List, Option, Option-cases, [], ap, append-nil, append_assoc, arith, every,
  false, inl, inr, length, ltb, map, map-append, none, refl, select, some, suc, sym, true, zero, ℕ,
  ◌++◌, ◌-◌, ◌<◌, ◌==◌, ◌∙◌, ◌∷◌, ◌≡◌, ◌≤◌,
}
use multi_tenant_subscriptio.Pagination.Order.{
  Distinct, every-mem_append, every-order_desc, length-order_desc, order_desc-Descends,
  select-after, select-order_desc,
}
use multi_tenant_subscriptio.Pagination.Pages.{
  Cursor, CursorPage, CursorQuery, Listing, after_cursor, encode_cursor, last, map_page, order_desc,
  page, page_limit, page_of, take,
}

-- The rows of the pages from `q` on, page after page, for `n` requests at most.
pub follow : {A : Type 0} → ℕ → (CursorQuery → CursorPage A) → CursorQuery → List A
follow zero fetch q = []
follow (suc n) fetch q =
    let p = fetch q in
    p.items
    ++ (elim p.next_cursor [ none ↦ [] | some c ↦ follow n fetch (record q { cursor = some c }) ])

-- The first request, by what it answers.
follow_step :
    {A : Type 0} (n : ℕ) (fetch : CursorQuery → CursorPage A) (q : CursorQuery) (p : CursorPage A)
    → fetch q ≡ p
    → follow (suc n) fetch q
      ≡ p.items ++ (elim p.next_cursor [
        | none ↦ []
        | some c ↦ follow n fetch (record q { cursor = some c })
      ])
unfolding follow
follow_step n fetch q p e = rw e refl

abbrev query : Option ℕ → Option Cursor → CursorQuery
query limit c = record { cursor = c; limit = limit }

pub follow-map_page :
    {A B : Type 0} (f : A → B) (n : ℕ) (fetch : CursorQuery → CursorPage A) (q : CursorQuery)
    → follow n (λ q. map_page f (fetch q)) q ≡ map f (follow n fetch q)
unfolding follow
follow-map_page f zero fetch q = refl
follow-map_page f (suc n) fetch q = elim (Option-cases (fetch q).next_cursor) [
  | inl stop ↦ rw stop (append-nil _ ∙ ap (map f) (sym (append-nil _)))
  | inr (c, next) ↦ rw next (
      ap (λ ys. map f (fetch q).items ++ ys)
        (follow-map_page f n fetch (record q { cursor = some c }))
      ∙ sym (map-append f _ _))
]

-- A list that is longer than `n`, split after its first `n + 1` elements.
split_at :
    {A : Type 0} (n : ℕ) (xs : List A)
    → n < length xs
    → (init : List A) × (x : A) × (rest : List A) × (xs ≡ init ++ x ∷ rest)
      × (take (suc n) xs ≡ init ++ x ∷ [])
      × (length rest < length xs)
split_at n [] h = absurd (omega arith)
split_at zero (x ∷ xs) h = ([], x, xs, refl, refl, omega arith)
split_at (suc n) (x ∷ xs) h =
    let (init, y, rest, whole, front, shorter) = split_at n xs (omega arith) in
    (x ∷ init, y, rest, ap (◌∷◌ x) whole, ap (◌∷◌ x) front, omega arith)

last-append : {A : Type 0} (xs : List A) (x : A) → last (xs ++ x ∷ []) ≡ some x
last-append [] x = refl
last-append (y ∷ []) x = refl
last-append (y ∷ z ∷ xs) x = last-append (z ∷ xs) x

take-all : {A : Type 0} (n : ℕ) (xs : List A) → length xs ≤ n → take n xs ≡ xs
take-all zero [] h = refl
take-all zero (x ∷ xs) h = absurd (omega arith)
take-all (suc n) [] h = refl
take-all (suc n) (x ∷ xs) h = ap (◌∷◌ x) (take-all n xs (omega arith))

take-take-suc : {A : Type 0} (n : ℕ) (xs : List A) → take n (take (suc n) xs) ≡ take n xs
take-take-suc zero xs = refl
take-take-suc (suc n) [] = refl
take-take-suc (suc n) (x ∷ xs) = ap (◌∷◌ x) (take-take-suc n xs)

length-take-suc :
    {A : Type 0} (n : ℕ) (xs : List A) → n < length xs → length (take (suc n) xs) ≡ suc n
length-take-suc n [] h = absurd (omega arith)
length-take-suc zero (x ∷ xs) h = refl
length-take-suc (suc n) (x ∷ xs) h = ap (λ k. suc k) (length-take-suc n xs (omega arith))

module _ {A : Type 0} (l : Listing A) where
  -- A page that is not full is the last.
  page_of-short :
      (limit : ℕ) (rows : List A)
      → length rows ≤ limit
      → page_of l limit (take (suc limit) rows)
        ≡ record { items = rows; next_cursor = none; has_more = false }
  page_of-short limit rows h = let whole = take-all (suc limit) rows (omega arith) in ground arith

  page_of-cut :
      (n : ℕ) (rows items : List A) (x : A)
      → length rows ≡ suc (suc n)
      → take (suc n) rows ≡ items
      → last items ≡ some x
      → page_of l (suc n) rows
        ≡ record { items = items; next_cursor = some (encode_cursor l x); has_more = true }
  page_of-cut n rows items x size cut end =
      let more : ltb (suc n) (length rows) ≡ true = ground arith in rw more (rw cut (rw end refl))

  -- A full page, and the cursor of its last row.
  page_of-full :
      (n : ℕ) (rows init : List A) (x : A)
      → suc n < length rows
      → take (suc n) rows ≡ init ++ x ∷ []
      → page_of l (suc n) (take (suc (suc n)) rows)
        ≡ record { items = init ++ x ∷ []; next_cursor = some (encode_cursor l x); has_more = true }
  page_of-full n rows init x h front =
      page_of-cut n (take (suc (suc n)) rows) (init ++ x ∷ []) x (length-take-suc (suc n) rows h)
        (take-take-suc (suc n) rows ∙ front) (last-append init x)

  module _ (rows : List A) (distinct : Distinct l.id rows)
      (exact : every (λ r. l.shown (l.sort_value r) == l.sort_value r) rows ≡ true)
      (limit : Option ℕ) (n : ℕ)
      (positive : page_limit (record { cursor = none; limit = limit }) ≡ suc n) where
    page-suffix :
        (c : Option Cursor) (suf : List A)
        → select (after_cursor l c) (order_desc l rows) ≡ suf
        → page l rows (query limit c) ≡ page_of l (suc n) (take (suc (suc n)) suf)
    page-suffix c suf chosen =
        let ordered = sym (select-order_desc l (after_cursor l c) rows distinct) ∙ chosen in
        rw positive (ap (λ xs. page_of l (suc n) (take (suc (suc n)) xs)) ordered)

    -- The cursor of a row selects the rows after it.
    select-cursor :
        (pre : List A) (x : A) (rest : List A)
        → order_desc l rows ≡ pre ++ x ∷ rest
        → select (after_cursor l (some (encode_cursor l x))) (order_desc l rows) ≡ rest
    select-cursor pre x rest whole =
        let all_exact =
          every-order_desc l (λ r. l.shown (l.sort_value r) == l.sort_value r) rows ∙ exact in
        let whole_value : l.shown (l.sort_value x) ≡ l.sort_value x = (==_iff _ _).0 (
          every-mem_append l (λ r. l.shown (l.sort_value r) == l.sort_value r) pre x rest
            (rw whole at all_exact)) in
        let descends = order_desc-Descends l rows distinct in
        rw whole_value (rw whole (select-after l pre x rest (rw whole at descends)))

    follow-suffix :
        (fuel : ℕ) (pre suf : List A) (c : Option Cursor)
        → order_desc l rows ≡ pre ++ suf
        → select (after_cursor l c) (order_desc l rows) ≡ suf
        → length suf < fuel
        → follow fuel (page l rows) (query limit c) ≡ suf
    unfolding follow
    follow-suffix zero pre suf c whole chosen enough = absurd (omega arith)
    follow-suffix (suc fuel) pre suf c whole chosen enough =
        let answer = page-suffix c suf chosen in
        elim (Bool-cases (ltb (suc n) (length suf))) [
          | inr fits ↦
              let short = page_of-short (suc n) suf (ground arith) in
              follow_step fuel (page l rows) (query limit c) _ (answer ∙ short) ∙ append-nil suf
          | inl more ↦
              let longer : suc n < length suf = ground arith in
              let (init, x, rest, parts, front, shorter) = split_at n suf (omega arith) in
              let full = page_of-full n suf init x longer front in
              let here : order_desc l rows ≡ (pre ++ init) ++ x ∷ rest =
                whole ∙ ap (λ ys. pre ++ ys) parts ∙ sym (append_assoc pre init (x ∷ rest)) in
              let next =
                follow-suffix fuel ((pre ++ init) ++ x ∷ []) rest (some (encode_cursor l x))
                  (here ∙ sym (append_assoc (pre ++ init) (x ∷ []) rest))
                  (select-cursor (pre ++ init) x rest here) (omega arith) in
              follow_step fuel (page l rows) (query limit c) _ (answer ∙ full)
              ∙ ap (λ ys. (init ++ x ∷ []) ++ ys) next
              ∙ append_assoc init (x ∷ []) rest
              ∙ sym parts
        ]

  select-every : (xs : List A) → select (after_cursor l none) xs ≡ xs
  select-every [] = refl
  select-every (x ∷ xs) = ap (◌∷◌ x) (select-every xs)

  -- Whoever follows the cursors from the first page on, with one limit of at least 1, has read all
  -- rows, each once and in order, after no more requests than there are rows and one more. The
  -- rows have different ids, and the ordered column reaches the cursor as it is.
  pub follow-page :
      (rows : List A) (limit : Option ℕ)
      → Distinct l.id rows
      → every (λ r. l.shown (l.sort_value r) == l.sort_value r) rows ≡ true
      → 1 ≤ page_limit (record { cursor = none; limit = limit })
      → (fuel : ℕ) → length rows < fuel
      → follow fuel (page l rows) (record { cursor = none; limit = limit }) ≡ order_desc l rows
  follow-page rows limit distinct exact positive fuel enough =
      let n : ℕ = page_limit (record { cursor = none; limit = limit }) - 1 in
      follow-suffix rows distinct exact limit n (omega arith) fuel [] (order_desc l rows) none refl
        (select-every (order_desc l rows)) (omega (arith, length-order_desc l rows))
