-- ===== src/Frontend/ApiClient.antt =====
-- services/tokenStore.ts, and what services/api.ts makes of a response 401.
use multi_tenant_subscriptio.Base.{
  Bool, List, Option, [], false, if◌then◌else◌, is_none, none, some, true, ℕ, ◌++◌, ◌+◌, ◌||◌, ◌∷◌,
}

-- `refresh_token` is the entry of sessionStorage, which may be disabled.
pub record TokenStore : Type 0 where
  pub access_token : Option ℕ
  pub refresh_token : Option ℕ
  pub storage_works : Bool

abbrev pub get_refresh_token : TokenStore → Option ℕ
get_refresh_token s = if s.storage_works then s.refresh_token else none

abbrev pub set_tokens : (access refresh : Option ℕ) → TokenStore → TokenStore
set_tokens access refresh s = record s {
  access_token = access;
  refresh_token = if s.storage_works then refresh else s.refresh_token;
}

-- The variables of the module, with the refresh tokens that were sent to the server, the requests that
-- wait for the refresh that is under way, and the requests that were sent again.
pub record ApiClient : Type 0 where
  pub tokens : TokenStore
  pub refreshing : Bool
  pub redirecting_to_login : Bool
  pub sent : List ℕ
  pub waiting : ℕ
  pub replayed : ℕ

-- The handler of AuthContext and the navigation itself are left out.
unfoldable pub redirect_to_login : ApiClient → ApiClient
redirect_to_login c =
    if c.redirecting_to_login
    then c
    else record c { tokens = set_tokens none none c.tokens; redirecting_to_login = true }

-- `performRefresh` up to its await.
abbrev pub perform_refresh : Option ℕ → ApiClient → ApiClient
perform_refresh none c = c
perform_refresh (some token) c = record c { sent = c.sent ++ token ∷ [] }

abbrev pub share_refresh : ApiClient → ApiClient
share_refresh c =
    if c.refreshing
    then record c { waiting = c.waiting + 1 }
    else record (perform_refresh (get_refresh_token c.tokens) c) {
      refreshing = true;
      waiting = c.waiting + 1;
    }

-- `retried` is the `_retry` of the request, which axios hands over with every response; without a
-- request (`!originalRequest`) the code does what it does for one that was retried.
unfoldable pub handle_unauthorized : (is_refresh_call retried : Bool) → ApiClient → ApiClient
unfolding redirect_to_login
handle_unauthorized is_refresh_call retried c =
    if is_refresh_call || (retried || is_none (get_refresh_token c.tokens))
    then redirect_to_login c
    else share_refresh c

-- The refresh is answered with a new pair.
unfoldable pub refreshed : (access refresh : ℕ) → ApiClient → ApiClient
refreshed access refresh c =
    if c.refreshing
    then record c {
      tokens = set_tokens (some access) (some refresh) c.tokens;
      refreshing = false;
      waiting = 0;
      replayed = c.replayed + c.waiting;
    }
    else c

unfoldable pub refresh_failed : ApiClient → ApiClient
unfolding redirect_to_login
refresh_failed c =
    if c.refreshing then redirect_to_login (record c { refreshing = false; waiting = 0 }) else c

unfoldable pub logged_in : (access refresh : ℕ) → ApiClient → ApiClient
logged_in access refresh c = record c { tokens = set_tokens (some access) (some refresh) c.tokens }
