-- ===== src/Pagination/Items.antt =====
-- What holds of the rows that a query selects holds of the items of its page.
use multi_tenant_subscriptio.Base.{
  Bool, Bool-cases, List, [], arith, every, every-select_where, inl, inr, length, ltb, refl, suc,
  true, zero, ℕ, ◌∙◌, ◌∷◌, ◌≡◌,
}
use multi_tenant_subscriptio.Pagination.Order.{every-order_desc}
use multi_tenant_subscriptio.Pagination.Pages.{
  CursorQuery, Listing, after_cursor, fetched, page, page_limit, page_of, take,
}

module _ {A : Type 0} (l : Listing A) where
  every-take : (q : A → Bool) (n : ℕ) (xs : List A) → every q xs ≡ true → every q (take n xs) ≡ true
  every-take q zero xs h = refl
  every-take q (suc n) [] h = refl
  every-take q (suc n) (x ∷ xs) h = ground (arith, every-take q n xs)

  every-page_of :
      (q : A → Bool) (limit : ℕ) (rows : List A)
      → every q rows ≡ true
      → every q (page_of l limit rows).items ≡ true
  every-page_of q limit rows h = elim (Bool-cases (ltb limit (length rows))) [
    | inl more ↦ rw more (every-take q limit rows h)
    | inr fits ↦ rw fits h
  ]

  pub every-fetched :
      (q : A → Bool) (query : CursorQuery) (rows : List A)
      → every q rows ≡ true
      → every q (fetched l query rows).items ≡ true
  every-fetched q query rows h =
      every-page_of q (page_limit query) _
        (every-take q (suc (page_limit query)) _ (every-order_desc l q rows ∙ h))

  -- Of all rows, `h` holds.
  pub every-page :
      (q h : A → Bool) (rows : List A) (query : CursorQuery)
      → every h rows ≡ true
      → ((r : A) → h r ≡ true → after_cursor l query.cursor r ≡ true → q r ≡ true)
      → every q (page l rows query).items ≡ true
  every-page q h rows query all k =
      every-fetched q query _ (every-select_where q h (after_cursor l query.cursor) rows all k)
