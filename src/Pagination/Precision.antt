-- ===== src/Pagination/Precision.antt =====
-- A column of PostgreSQL counts microseconds, and a Date of JavaScript milliseconds.
use multi_tenant_subscriptio.Base.{
  Bool, List, Option, arith, every, ltb, not, some, true, ℕ, ◌%◌, ◌&&◌, ◌/◌, ◌==◌, ◌||◌, ◌≡◌,
}
use multi_tenant_subscriptio.Pagination.Items.{every-page}
use multi_tenant_subscriptio.Pagination.Pages.{below, by_time, encode_cursor, page, whole_ms}

-- `t` lies in the millisecond of `u`, and not at its start.
abbrev pub within_ms : ℕ → ℕ → Bool
within_ms u t = t / 1000 == u / 1000 && ltb 0 (t % 1000)

skipped : (v i w j : ℕ) → below v i (whole_ms w) j ≡ true → not (within_ms w v) ≡ true
skipped v i w j h = ground arith

apart :
    (i j v w u : ℕ)
    → not (i == j) || v == w ≡ true
    → within_ms u w ≡ true
    → not (within_ms u v) ≡ true
    → not (i == j) ≡ true
apart i j v w u same near away = ground arith

-- Every row with the id of `r` has its time.
abbrev pub TimeOf : {A : Type 0} → (A → ℕ) → (A → ℕ) → A → List A → Type 0
TimeOf sort_value id r rows =
    every (λ y. not (id y == id r) || sort_value y == sort_value r) rows ≡ true

-- Where a list is ordered by a time in microseconds, the page after a row `x` lacks each row `r` whose
-- time lies in the millisecond of `x` and past its start, also if `r` comes after `x` in the order.
pub page-skips :
    {A : Type 0} (sort_value id : A → ℕ) (rows : List A) (x r : A) (limit : Option ℕ)
    → TimeOf sort_value id r rows
    → within_ms (sort_value x) (sort_value r) ≡ true
    → every
        (λ y. not (id y == id r))
        (page
          (by_time sort_value id)
          rows
          (record { cursor = some (encode_cursor (by_time sort_value id) x); limit = limit })).items
      ≡ true
page-skips sort_value id rows x r limit timed near =
    every-page (by_time sort_value id) (λ y. not (id y == id r))
      (λ y. not (id y == id r) || sort_value y == sort_value r) rows
      (record { cursor = some (encode_cursor (by_time sort_value id) x); limit = limit }) timed
      λ y same later.
        apart (id y) (id r) (sort_value y) (sort_value r) (sort_value x) same near
          (skipped (sort_value y) (id y) (sort_value x) (id x) later)
