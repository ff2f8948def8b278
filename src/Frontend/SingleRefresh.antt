-- ===== src/Frontend/SingleRefresh.antt =====
-- That the client uses each refresh token once, which auth-service's rotation asks for.
use multi_tenant_subscriptio.Base.{
  ==_iff, Bool, Bool-cases, Option, [], arith, count, count-append, false, if◌then◌else◌, inl, inr,
  is_none, none, refl, some, subst, true, ℕ, ◌+◌, ◌==◌, ◌||◌, ◌∷◌, ◌≡◌, ◌≤◌,
}
use multi_tenant_subscriptio.Frontend.ApiClient.{
  ApiClient, get_refresh_token, handle_unauthorized, logged_in, perform_refresh, redirect_to_login,
  refresh_failed, refreshed, set_tokens, share_refresh,
}

abbrev pub times_sent : ℕ → ApiClient → ℕ
times_sent token c = count (λ t. t == token) c.sent

-- The server never answers a token that it has seen before.
pub data Step (c : ApiClient) : ApiClient → Type 0 where
  meets_401 :
      (is_refresh_call retried : Bool) → Step c (handle_unauthorized is_refresh_call retried c)
  is_refreshed :
      (access refresh : ℕ) → times_sent refresh c ≡ 0 → Step c (refreshed access refresh c)
  is_refused : Step c (refresh_failed c)
  logs_in : (access refresh : ℕ) → times_sent refresh c ≡ 0 → Step c (logged_in access refresh c)

abbrev pub new_client : Bool → ApiClient
new_client storage_works = record {
  tokens = record { access_token = none; refresh_token = none; storage_works = storage_works };
  refreshing = false;
  redirecting_to_login = false;
  sent = [];
  waiting = 0;
  replayed = 0;
}

pub data Session (storage_works : Bool) : ApiClient → Type 0 where
  loads : Session storage_works (new_client storage_works)
  proceeds : {c d : ApiClient} → Session storage_works c → Step c d → Session storage_works d

-- Unless the page leaves for the login page: no token was sent twice, and the one that is kept was not
-- sent, if no refresh is under way.
pub record Fresh (c : ApiClient) : Type 0 where
  pub once : c.redirecting_to_login ≡ false → (token : ℕ) → times_sent token c ≤ 1
  pub unsent :
      c.redirecting_to_login ≡ false
      → c.refreshing ≡ false
      → (token : ℕ) → get_refresh_token c.tokens ≡ some token
      → times_sent token c ≡ 0

gone-Fresh : (c : ApiClient) → c.redirecting_to_login ≡ true → Fresh c
gone-Fresh c leaving = record {
  once = λ h token. ground arith;
  unsent = λ h idle token kept. ground arith;
}

redirect-Fresh : (c : ApiClient) → Fresh (redirect_to_login c)
unfolding redirect_to_login
redirect-Fresh c = gone-Fresh (redirect_to_login c) (ground arith)

-- The start of a refresh with what is kept.
begun :
    (c : ApiClient) (kept : Option ℕ)
    → get_refresh_token c.tokens ≡ kept
    → c.refreshing ≡ false
    → Fresh c
    → Fresh (record (perform_refresh kept c) { refreshing = true; waiting = c.waiting + 1 })
begun c none h idle fresh = record {
  once = fresh.once;
  unsent = λ staying busy token kept. ground arith;
}
begun c (some t) h idle fresh = record {
  once = λ staying token.
      let new = fresh.unsent staying idle t h in
      let old = fresh.once staying token in
      let all = count-append (λ x. x == token) c.sent (t ∷ []) in
      elim (Bool-cases (t == token)) [
        | inl this ↦
            let same : t ≡ token = (==_iff t token).0 this in
            let none_yet : times_sent token c ≡ 0 = subst (λ x. times_sent x c ≡ 0) same new in
            ground arith
        | inr another ↦ ground arith
      ];
  unsent = λ staying busy token kept. ground arith;
}

shared :
    (c : ApiClient) (busy : Bool)
    → c.refreshing ≡ busy
    → Fresh c
    → Fresh (
        if busy
        then record c { waiting = c.waiting + 1 }
        else record (perform_refresh (get_refresh_token c.tokens) c) {
          refreshing = true;
          waiting = c.waiting + 1;
        })
shared c true h fresh = record { once = fresh.once; unsent = fresh.unsent }
shared c false h fresh = begun c (get_refresh_token c.tokens) refl h fresh

-- The tokens are replaced by ones that were not sent.
replaced :
    (c : ApiClient) (access refresh : ℕ) (idle : Bool) (waiting replayed : ℕ)
    → times_sent refresh c ≡ 0
    → Fresh c
    → Fresh (record c {
      tokens = set_tokens (some access) (some refresh) c.tokens;
      refreshing = idle;
      waiting = waiting;
      replayed = replayed;
    })
replaced c access refresh idle waiting replayed new fresh = record {
  once = fresh.once;
  unsent = λ staying quiet token kept. elim (Bool-cases c.tokens.storage_works) [
    | inl works ↦
        let same : refresh ≡ token = ground arith in subst (λ x. times_sent x c ≡ 0) same new
    | inr disabled ↦ ground arith
  ];
}

answered :
    (c : ApiClient) (access refresh : ℕ) (busy : Bool)
    → times_sent refresh c ≡ 0
    → Fresh c
    → Fresh (
        if busy
        then record c {
          tokens = set_tokens (some access) (some refresh) c.tokens;
          refreshing = false;
          waiting = 0;
          replayed = c.replayed + c.waiting;
        }
        else c)
answered c access refresh true new fresh =
    replaced c access refresh false 0 (c.replayed + c.waiting) new fresh
answered c access refresh false new fresh = fresh

refused :
    (c : ApiClient) (busy : Bool)
    → Fresh c
    → Fresh (if busy then redirect_to_login (record c { refreshing = false; waiting = 0 }) else c)
refused c true fresh = redirect-Fresh (record c { refreshing = false; waiting = 0 })
refused c false fresh = fresh

unauthorized_met :
    (c : ApiClient) (lost : Bool)
    → Fresh c
    → Fresh (if lost then redirect_to_login c else share_refresh c)
unauthorized_met c true fresh = redirect-Fresh c
unauthorized_met c false fresh = shared c c.refreshing refl fresh

Step-Fresh : (c d : ApiClient) → Step c d → Fresh c → Fresh d
unfolding handle_unauthorized refreshed refresh_failed logged_in
Step-Fresh c d (meets_401 is_refresh_call retried) fresh =
    unauthorized_met c (is_refresh_call || (retried || is_none (get_refresh_token c.tokens))) fresh
Step-Fresh c d (is_refreshed access refresh new) fresh =
    answered c access refresh c.refreshing new fresh
Step-Fresh c d is_refused fresh = refused c c.refreshing fresh
Step-Fresh c d (logs_in access refresh new) fresh =
    replaced c access refresh c.refreshing c.waiting c.replayed new fresh

Session-Fresh : {storage_works : Bool} (c : ApiClient) → Session storage_works c → Fresh c
Session-Fresh c loads = record {
  once = λ staying token. omega arith;
  unsent = λ staying idle token kept. refl;
}
Session-Fresh c (proceeds {c = b} session step) = Step-Fresh b c step (Session-Fresh b session)

-- However many requests are refused with 401, and whenever the answers to refreshes and logins come
-- in between: until the page leaves for the login page, each refresh token is sent once at most. The
-- server answers only tokens that it has not seen before.
pub Session-once :
    {storage_works : Bool} (c : ApiClient)
    → Session storage_works c
    → c.redirecting_to_login ≡ false
    → (token : ℕ) → times_sent token c ≤ 1
Session-once c session = (Session-Fresh c session).once
