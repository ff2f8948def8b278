-- ===== src/Frontend/Visits.antt =====
-- Where a visitor of a list can be.
use multi_tenant_subscriptio.Base.{
  List, Option, [], arith, length, none, refl, some, subst, suc, zero, ℕ, ◌++◌, ◌+◌, ◌-◌, ◌<◌, ◌∙◌,
  ◌∷◌, ◌≡◌, ◌≤◌,
}
use multi_tenant_subscriptio.Frontend.CursorPaging.{
  CursorPaging, cursor, entry_at, go_next, go_previous, reset, start_of_list,
}
use multi_tenant_subscriptio.Pagination.{Cursor, take}

-- One call of a callback of the current render.
pub data Step (s : CursorPaging) : CursorPaging → Type 0 where
  nexts : (next_cursor : Option Cursor) → Step s (go_next s.index next_cursor s)
  goes_back : Step s (go_previous s)
  resets : Step s (reset s)

pub data Visit : CursorPaging → Type 0 where
  opens : Visit start_of_list
  continues : {s t : CursorPaging} → Visit s → Step s t → Visit t

-- There is an entry at the index, and the first entry is that of the first page.
abbrev pub OnPage : CursorPaging → Type 0
OnPage s = (s.index < length s.cursor_stack) × (entry_at s.cursor_stack 0 ≡ none)

first_kept :
    (index : ℕ) (stack : List (Option Cursor)) (c : Cursor)
    → 1 ≤ length stack
    → entry_at (take (suc index) stack ++ some c ∷ []) 0 ≡ entry_at stack 0
first_kept index [] c h = absurd (omega arith)
first_kept index (x ∷ stack) c h = refl

length-cut :
    (n : ℕ) (stack : List (Option Cursor)) (c : Cursor)
    → n < length stack
    → length (take (suc n) stack ++ some c ∷ []) ≡ n + 2
length-cut n [] c h = absurd (omega arith)
length-cut zero (x ∷ stack) c h = refl
length-cut (suc n) (x ∷ stack) c h = let rest = length-cut n stack c (omega arith) in omega arith

entry_kept :
    (n : ℕ) (stack : List (Option Cursor)) (c : Cursor)
    → n < length stack
    → entry_at (take (suc n) stack ++ some c ∷ []) n ≡ entry_at stack n
entry_kept n [] c h = absurd (omega arith)
entry_kept zero (x ∷ stack) c h = refl
entry_kept (suc n) (x ∷ stack) c h = entry_kept n stack c (omega arith)

Step-OnPage : (s t : CursorPaging) → Step s t → OnPage s → OnPage t
unfolding go_next go_previous reset
Step-OnPage s t (nexts none) on = on
Step-OnPage s t (nexts (some c)) (within, home) =
    let cut = length-cut s.index s.cursor_stack c within in
    (omega arith, first_kept s.index s.cursor_stack c (omega arith) ∙ home)
Step-OnPage s t goes_back (within, home) = (omega arith, home)
Step-OnPage s t resets on = (omega arith, refl)

Visit-OnPage : (s : CursorPaging) → Visit s → OnPage s
Visit-OnPage s opens = (omega arith, refl)
Visit-OnPage s (continues {s = t} visit step) = Step-OnPage t s step (Visit-OnPage t visit)

next_entry :
    (n : ℕ) (stack : List (Option Cursor)) (c : Cursor)
    → n < length stack
    → entry_at (take (suc n) stack ++ some c ∷ []) (suc n) ≡ some c
next_entry n [] c h = absurd (omega arith)
next_entry zero (x ∷ stack) c h = refl
next_entry (suc n) (x ∷ stack) c h = next_entry n stack c (omega arith)

past_end : (stack : List (Option Cursor)) (n : ℕ) → length stack ≤ n → entry_at stack n ≡ none
past_end [] n h = refl
past_end (x ∷ stack) zero h = absurd (omega arith)
past_end (x ∷ stack) (suc n) h = past_end stack n (omega arith)

-- Wherever a visitor is after calls of one callback for each render, the index is in the stack, whose
-- first entry is the first page. The button for the next page leads to the page of its cursor, and
-- the button back from there leads to the page before. If it is pressed twice in one render, the
-- index is past the stack, and the first page is asked for again.
pub Visit-pages :
    (s : CursorPaging) (c : Cursor)
    → Visit s
    → OnPage s
      × (cursor (go_next s.index (some c) s) ≡ some c)
      × (cursor (go_previous (go_next s.index (some c) s)) ≡ cursor s)
      × (cursor (go_next s.index (some c) (go_next s.index (some c) s)) ≡ none)
unfolding go_next go_previous
Visit-pages s c visit =
    let (within, home) = Visit-OnPage s visit in
    let grown : List (Option Cursor) = take (suc s.index) s.cursor_stack ++ some c ∷ [] in
    let size : length grown ≡ s.index + 2 = length-cut s.index s.cursor_stack c within in
    let again : length (take (suc s.index) grown ++ some c ∷ []) ≡ s.index + 2 =
      length-cut s.index grown c (omega arith) in
    let up : suc s.index ≡ s.index + 1 = omega arith in
    let back : s.index ≡ s.index + 1 - 1 = omega arith in
    (
      (within, home),
      subst (λ n. entry_at grown n ≡ some c) up (next_entry s.index s.cursor_stack c within),
      subst (λ n. entry_at grown n ≡ cursor s) back (entry_kept s.index s.cursor_stack c within),
      past_end (take (suc s.index) grown ++ some c ∷ []) (s.index + 1 + 1) (omega arith),
    )
