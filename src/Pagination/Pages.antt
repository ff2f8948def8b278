-- ===== src/Pagination/Pages.antt =====
-- ORDER BY a column and the id, both DESC, with LIMIT, and what `listPage` makes of the rows. The text
-- of a cursor is base64url of `value|id`: neither part has a '|', so it stands for the pair.
use multi_tenant_subscriptio.Base.{
  Bool, List, Option, [], get_or, if◌then◌else◌, leb, length, ltb, map, none, select, some, suc,
  true, zero, ℕ, ◌&&◌, ◌*◌, ◌/◌, ◌==◌, ◌||◌, ◌∷◌,
}

pub record Cursor : Type 0 where
  pub sort_value : ℕ
  pub id : ℕ

pub record CursorQuery : Type 0 where
  pub cursor : Option Cursor
  pub limit : Option ℕ

pub record CursorPage (A : Type 0) : Type 0 where
  pub items : List A
  pub next_cursor : Option Cursor
  pub has_more : Bool

-- The column that a list is ordered by, and its value as it reaches the text of a cursor.
pub record Listing (A : Type 0) : Type 0 where
  pub sort_value : A → ℕ
  pub id : A → ℕ
  pub shown : ℕ → ℕ

abbrev pub default_page_size : ℕ
default_page_size = 20

-- `Math.min(query.limit ?? DEFAULT_PAGE_SIZE, 100)`
abbrev pub page_limit : CursorQuery → ℕ
page_limit q = let limit = get_or q.limit default_page_size in if leb limit 100 then limit else 100

-- The row comparison `(v, i) < (w, j)`.
abbrev pub below : (v i w j : ℕ) → Bool
below v i w j = ltb v w || (v == w && ltb i j)

abbrev pub take : {A : Type 0} → ℕ → List A → List A
take zero xs = []
take (suc n) [] = []
take (suc n) (x ∷ xs) = x ∷ take n xs

-- `items.at(-1)`
abbrev pub last : {A : Type 0} → List A → Option A
last [] = none
last (x ∷ []) = some x
last (x ∷ y ∷ xs) = last (y ∷ xs)

module _ {A : Type 0} (l : Listing A) where
  -- `x` comes after `y` in the order.
  abbrev pub after : A → A → Bool
  after x y = below (l.sort_value x) (l.id x) (l.sort_value y) (l.id y)

  abbrev pub insert_desc : A → List A → List A
  insert_desc r [] = r ∷ []
  insert_desc r (x ∷ xs) = if after x r then r ∷ x ∷ xs else x ∷ insert_desc r xs

  abbrev pub order_desc : List A → List A
  order_desc [] = []
  order_desc (r ∷ rows) = insert_desc r (order_desc rows)

  abbrev pub encode_cursor : A → Cursor
  encode_cursor r = record { sort_value = l.shown (l.sort_value r); id = l.id r }

  abbrev pub after_cursor : Option Cursor → A → Bool
  after_cursor none r = true
  after_cursor (some c) r = below (l.sort_value r) (l.id r) c.sort_value c.id

  abbrev pub next_of : Option A → Option Cursor
  next_of none = none
  next_of (some r) = some (encode_cursor r)

  -- `limit + 1` rows were asked for.
  abbrev pub page_of : ℕ → List A → CursorPage A
  page_of limit rows =
      let has_more = ltb limit (length rows) in
      let items = if has_more then take limit rows else rows in
      record {
        items = items;
        next_cursor = if has_more then next_of (last items) else none;
        has_more = has_more;
      }

  -- The page of the rows that the WHERE clause selects, the condition of the cursor included.
  abbrev pub fetched : CursorQuery → List A → CursorPage A
  fetched q rows = page_of (page_limit q) (take (suc (page_limit q)) (order_desc rows))

  -- The page of a list of rows.
  abbrev pub page : List A → CursorQuery → CursorPage A
  page rows q = fetched q (select (after_cursor q.cursor) rows)

abbrev pub map_page : {A B : Type 0} → (A → B) → CursorPage A → CursorPage B
map_page f p = record { items = map f p.items; next_cursor = p.next_cursor; has_more = p.has_more }

-- `toISOString()` of a time in microseconds.
abbrev pub whole_ms : ℕ → ℕ
whole_ms t = t / 1000 * 1000

-- An order by a time in microseconds.
abbrev pub by_time : {A : Type 0} → (A → ℕ) → (A → ℕ) → Listing A
by_time sort_value id = record { sort_value = sort_value; id = id; shown = whole_ms }
