-- ===== src/Frontend/Tests.antt =====
-- Two pages on and one back.
use multi_tenant_subscriptio.Base.{[], false, none, refl, some, true, ℕ, ◌∷◌, ◌≡◌, ◌≤◌}
use multi_tenant_subscriptio.Frontend.ApiClient.{
  ApiClient, get_refresh_token, handle_unauthorized, logged_in, refreshed,
}
use multi_tenant_subscriptio.Frontend.CursorPaging.{
  CursorPaging, cursor, go_next, go_previous, start_of_list,
}
use multi_tenant_subscriptio.Frontend.HashSeed.{hash_seed}
use multi_tenant_subscriptio.Frontend.SingleRefresh.{
  Session, Session-once, is_refreshed, loads, logs_in, meets_401, new_client, proceeds, times_sent,
}
use multi_tenant_subscriptio.Frontend.Visits.{OnPage, Visit, continues, nexts, opens, Visit-pages}
use multi_tenant_subscriptio.Pagination.{Cursor}

abbrev cursor_of : ℕ → Cursor
cursor_of n = record { sort_value = n; id = n }

abbrev second_page : CursorPaging
second_page = go_next 0 (some (cursor_of 9)) start_of_list

visit : Visit (go_next second_page.index (some (cursor_of 5)) second_page)
unfolding go_next
visit = continues (continues opens (nexts (some (cursor_of 9)))) (nexts (some (cursor_of 5)))

abbrev third_page : CursorPaging
third_page = go_next second_page.index (some (cursor_of 5)) second_page

Visit-pages_example :
    OnPage third_page
    × (cursor (go_next third_page.index (some (cursor_of 3)) third_page) ≡ some (cursor_of 3))
    × (cursor (go_previous (go_next third_page.index (some (cursor_of 3)) third_page))
        ≡ cursor third_page)
    × (cursor (
          go_next third_page.index
            (some (cursor_of 3))
            (go_next third_page.index (some (cursor_of 3)) third_page))
        ≡ none)
Visit-pages_example = Visit-pages third_page (cursor_of 3) visit

-- 'ab'
hash_run : hash_seed (97 ∷ 98 ∷ []) ≡ 3105
unfolding hash_seed
hash_run = refl

-- A login, two requests that are refused at once, and the new pair.
abbrev signed_in : ApiClient
signed_in = logged_in 1 2 (new_client true)

abbrev twice_refused : ApiClient
twice_refused = handle_unauthorized false false (handle_unauthorized false false signed_in)

session : Session true (refreshed 3 4 twice_refused)
unfolding handle_unauthorized logged_in
session =
    proceeds
      (proceeds (proceeds (proceeds loads (logs_in 1 2 refl)) (meets_401 false false))
        (meets_401 false false))
      (is_refreshed 3 4 refl)

Session-once_example : times_sent 2 (refreshed 3 4 twice_refused) ≤ 1
unfolding refreshed handle_unauthorized logged_in
Session-once_example = Session-once (refreshed 3 4 twice_refused) session refl 2

refreshed_run :
    ((refreshed 3 4 twice_refused).replayed ≡ 2)
    × (get_refresh_token (refreshed 3 4 twice_refused).tokens ≡ some 4)
unfolding refreshed handle_unauthorized logged_in
refreshed_run = (refl, refl)
