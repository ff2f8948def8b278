-- ===== src/Frontend/CursorPaging.antt =====
-- components/common/data-table/useCursorPagination.ts. `none` is `undefined`, the first page.
use multi_tenant_subscriptio.Base.{
  Bool, List, Option, [], ltb, none, some, suc, zero, ℕ, ◌++◌, ◌+◌, ◌-◌, ◌∷◌,
}
use multi_tenant_subscriptio.Pagination.{Cursor, take}

pub record CursorPaging : Type 0 where
  pub cursor_stack : List (Option Cursor)
  pub index : ℕ

abbrev pub start_of_list : CursorPaging
start_of_list = record { cursor_stack = none ∷ []; index = 0 }

-- `cursorStack[index]`: `undefined` out of range.
abbrev pub entry_at : List (Option Cursor) → ℕ → Option Cursor
entry_at [] n = none
entry_at (c ∷ stack) zero = c
entry_at (c ∷ stack) (suc n) = entry_at stack n

abbrev pub cursor : CursorPaging → Option Cursor
cursor s = entry_at s.cursor_stack s.index

abbrev pub can_go_previous : CursorPaging → Bool
can_go_previous s = ltb 0 s.index

-- `index` is that of the render that made the callback; the two setters update the state of now.
unfoldable pub go_next : (index : ℕ) → Option Cursor → CursorPaging → CursorPaging
go_next index none s = s
go_next index (some next_cursor) s = record {
  cursor_stack = take (suc index) s.cursor_stack ++ some next_cursor ∷ [];
  index = s.index + 1;
}

unfoldable pub go_previous : CursorPaging → CursorPaging
go_previous s = record s { index = s.index - 1 }

unfoldable pub reset : CursorPaging → CursorPaging
reset s = start_of_list
