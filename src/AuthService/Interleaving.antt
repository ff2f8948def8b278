-- ===== src/AuthService/Interleaving.antt =====
-- Refreshes that run at the same time: AuthService.refresh of auth/auth.service.ts in the pieces that
-- other requests come between, each of them one statement or transaction after the last await.
pub mod Revoked
pub mod Race
use multi_tenant_subscriptio.Base.{
  Bool-cases, List, Option, Option-cases, [], arith, if◌then◌else◌, inl, inr, ltb, none, not, some,
  ℕ, ◌++◌, ◌∷◌, ◌≡◌,
}
use multi_tenant_subscriptio.Common.{unauthorized}
use multi_tenant_subscriptio.AuthService.Auth.{
  LoginResponseDto, refresh, refresh_with, refuse_reuse,
}
use multi_tenant_subscriptio.AuthService.Repositories.{find_by_token_hash}
use multi_tenant_subscriptio.AuthService.Rotation.{token_of}
use multi_tenant_subscriptio.AuthService.Tables.{AuthDb, RefreshToken, in_transaction, is_unrevoked}
use multi_tenant_subscriptio.AuthService.Tokens.{Runtime}
use multi_tenant_subscriptio.Database.{Outcome, World, returned, thrown}
use multi_tenant_subscriptio.Pagination.{after}

-- How far a refresh is: about to look the token up, past its check, about to revoke the tokens of the
-- credential, or done.
pub data Phase : Type 0 where
  asked : (refresh_token : ℕ) → Phase
  checked : (existing : RefreshToken) → Phase
  reused : (existing : RefreshToken) → Phase
  answered : Outcome LoginResponseDto → Phase

abbrev pub check_token : Runtime → RefreshToken → Phase
check_token rt existing =
    if not (is_unrevoked existing)
    then reused existing
    else if ltb existing.expires_at rt.now
    then answered (thrown unauthorized)
    else checked existing

abbrev pub checked_token : Runtime → Outcome (Option RefreshToken) → Phase
checked_token rt (returned (some existing)) = check_token rt existing
checked_token rt (returned none) = answered (thrown unauthorized)
checked_token rt (thrown e) = answered (thrown e)

abbrev pub finished : Outcome LoginResponseDto × World AuthDb → Phase × World AuthDb
finished (r, w) = (answered r, w)

-- The next piece, with the clock and the random values of its moment.
unfoldable pub proceed : Runtime → Phase → World AuthDb → Phase × World AuthDb
unfolding find_by_token_hash refuse_reuse refresh_with
proceed rt (asked refresh_token) w =
    let (found, w') = in_transaction (find_by_token_hash (rt.sha256 refresh_token)) w in
    (checked_token rt found, w')
proceed rt (checked existing) w = finished (refresh_with rt existing w)
proceed rt (reused existing) w = finished (refuse_reuse rt existing w)
proceed rt (answered r) w = (answered r, w)

-- The refreshes that run, and the database they share.
pub record Sessions : Type 0 where
  pub phases : List Phase
  pub world : World AuthDb

-- One of the refreshes goes on.
pub data Step (s : Sessions) : Sessions → Type 0 where
  proceeds :
      (rt : Runtime) (before after : List Phase) (p : Phase)
      → s.phases ≡ before ++ p ∷ after
      → Step s (record {
        phases = before ++ (proceed rt p s.world).0 ∷ after;
        world = (proceed rt p s.world).1;
      })

pub data Run (s : Sessions) : Sessions → Type 0 where
  start : Run s s
  next : {t u : Sessions} → Run s t → Step t u → Run s u

-- A refresh that nothing comes between, two pieces at one moment, is `refresh`.
pub alone-refresh :
    (rt : Runtime) (refresh_token : ℕ) (w : World AuthDb)
    → (let (p, w') = proceed rt (asked refresh_token) w in proceed rt p w')
      ≡ finished (refresh rt refresh_token w)
unfolding proceed refresh
alone-refresh rt refresh_token w = elim (Option-cases (token_of (rt.sha256 refresh_token) w.db)) [
  | inl unknown ↦ ground arith
  | inr (t, found) ↦ elim (Bool-cases (is_unrevoked t)) [
    | inl usable ↦ elim (Bool-cases (ltb t.expires_at rt.now)) [
      | inl expired ↦ ground arith
      | inr unexpired ↦ ground arith
    ]
    | inr spent ↦ ground arith
  ]
]
