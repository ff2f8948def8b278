-- ===== src/AuthService/Rotation.antt =====
-- Refresh tokens as a state machine: fresh, replaced, revoked (§11.4 of
-- docs/architecture/ARCHITECTURE.md).
use multi_tenant_subscriptio.Base.{
  ==_refl, Bool, List, Option, [], arith, count, false, first, first-append_found,
  first-update_where, is_none, ltb, refl, some, true, update_where, ℕ, ◌&&◌, ◌++◌, ◌==◌, ◌||◌, ◌∙◌,
  ◌∷◌, ◌≡◌,
}
use multi_tenant_subscriptio.Common.{Role, forbidden}
use multi_tenant_subscriptio.AuthService.Auth.{
  principal_of, refresh, refresh_with, resolve_roles, to_login_response,
}
use multi_tenant_subscriptio.AuthService.Repositories.{create_token, mark_replaced}
use multi_tenant_subscriptio.AuthService.Tables.{AuthDb, Credential, RefreshToken, is_unrevoked}
use multi_tenant_subscriptio.AuthService.Tokens.{Runtime, fresh_token, issued, rotate}
use multi_tenant_subscriptio.Database.{World, returned, thrown}

abbrev pub token_of : ℕ → AuthDb → Option RefreshToken
token_of token_hash d = first (λ t. t.token_hash == token_hash) d.refresh_tokens

-- The tokens of a credential with which a session can go on.
abbrev pub live_tokens : ℕ → AuthDb → ℕ
live_tokens credential_id d =
    count (λ t. t.credential_id == credential_id && is_unrevoked t) d.refresh_tokens

revoked-count :
    (now credential_id : ℕ) (ts : List RefreshToken)
    → count
        (λ t. t.credential_id == credential_id && is_unrevoked t)
        (update_where
          (λ t. t.credential_id == credential_id && is_unrevoked t)
          (λ t. record t { revoked_at = some now })
          ts)
      ≡ 0
revoked-count now credential_id [] = refl
revoked-count now credential_id (t ∷ ts) = ground (arith, revoked-count now credential_id ts)

-- A refresh with a token that is revoked already, by rotation or otherwise, is answered with
-- forbidden, and leaves its credential without any live token.
pub refresh-reuse :
    (rt : Runtime) (refresh_token : ℕ) (w : World AuthDb) (t : RefreshToken)
    → token_of (rt.sha256 refresh_token) w.db ≡ some t
    → is_unrevoked t ≡ false
    → ((refresh rt refresh_token w).0 ≡ thrown forbidden)
      × (live_tokens t.credential_id (refresh rt refresh_token w).1.db ≡ 0)
unfolding refresh
refresh-reuse rt refresh_token w t found spent =
    (ground arith, ground (arith, revoked-count rt.now t.credential_id w.db.refresh_tokens))

abbrev replaced : ℕ → ℕ → RefreshToken → RefreshToken
replaced now by t = record t { replaced_by = some by; revoked_at = some now }

-- The tables after a rotation of the token `t`.
abbrev pub rotated : Runtime → RefreshToken → AuthDb → AuthDb
rotated rt t d = record d {
  refresh_tokens =
      update_where (λ x. x.id == t.id) (replaced rt.now rt.next_id)
        (d.refresh_tokens ++ fresh_token rt t.credential_id ∷ []);
}

-- The new token's id and hash are those of no other token.
abbrev pub is_fresh : Runtime → AuthDb → Bool
is_fresh rt d =
    is_none (
      first (λ t. t.id == rt.next_id || t.token_hash == rt.sha256 rt.random_token) d.refresh_tokens)

module _ (rt : Runtime) (w : World AuthDb) (t : RefreshToken) (c : Credential) (roles : List Role)
    (owner : first (λ c. c.id == t.credential_id) w.db.credentials ≡ some c)
    (resolved : resolve_roles rt c w ≡ (returned roles, w)) (fresh : is_fresh rt w.db ≡ true) where
  rotate-eq :
      rotate rt t (principal_of c roles) w.db
      ≡ (returned (issued rt (principal_of c roles)), rotated rt t w.db)
  unfolding rotate create_token mark_replaced
  rotate-eq = ground arith

  -- The second half of a refresh, from the look-up of the credential, issues new tokens whatever has
  -- become of the presented token since its check: also if it is revoked or replaced by now.
  pub refresh_with-unchecked : refresh_with rt t w ≡ (
    returned (to_login_response (issued rt (principal_of c roles)) c roles),
    record w { db = rotated rt t w.db },
  )
  unfolding refresh_with
  refresh_with-unchecked = ground (arith, rotate-eq)

  rotated-first :
      (h : ℕ)
      → token_of h w.db ≡ some t
      → token_of h (rotated rt t w.db) ≡ some (replaced rt.now rt.next_id t)
  rotated-first h found =
      let self : (t.id == t.id) ≡ true = ==_refl t.id in
      first-update_where (λ x. x.token_hash == h) (λ x. x.id == t.id) (replaced rt.now rt.next_id)
        (w.db.refresh_tokens ++ fresh_token rt t.credential_id ∷ []) (λ y e. refl)
        (first-append_found (λ x. x.token_hash == h) w.db.refresh_tokens
          (fresh_token rt t.credential_id ∷ []) found)
      ∙ rw self refl

  module _ (refresh_token : ℕ) (found : token_of (rt.sha256 refresh_token) w.db ≡ some t)
      (usable : is_unrevoked t ≡ true) (unexpired : ltb t.expires_at rt.now ≡ false) where
    refresh-proceeds : refresh rt refresh_token w ≡ refresh_with rt t w
    unfolding refresh
    refresh-proceeds = rw found (rw usable (rw unexpired refl))

    refresh-rotates : refresh rt refresh_token w ≡ (
      returned (to_login_response (issued rt (principal_of c roles)) c roles),
      record w { db = rotated rt t w.db },
    )
    refresh-rotates = refresh-proceeds ∙ refresh_with-unchecked

    -- A refresh token is good for one refresh: after one that succeeded, the next with the same
    -- token, at whatever time, is answered with forbidden and leaves the credential without any
    -- live token.
    pub refresh-single_use :
        (later : Runtime)
        → later.sha256 refresh_token ≡ rt.sha256 refresh_token
        → ((refresh later refresh_token (refresh rt refresh_token w).1).0 ≡ thrown forbidden)
          × (live_tokens t.credential_id
                (refresh later refresh_token (refresh rt refresh_token w).1).1.db
              ≡ 0)
    refresh-single_use later same = rw refresh-rotates (
        refresh-reuse later refresh_token (record w { db = rotated rt t w.db })
          (replaced rt.now rt.next_id t) (rw same (rotated-first (rt.sha256 refresh_token) found))
          refl)
