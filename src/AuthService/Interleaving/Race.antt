-- ===== src/AuthService/Interleaving/Race.antt =====
-- Two refreshes of one token at the same time.
use multi_tenant_subscriptio.Base.{
  List, [], ap, false, first, ltb, refl, some, subst, true, ℕ, ◌++◌, ◌==◌, ◌∷◌, ◌≡◌,
}
use multi_tenant_subscriptio.Common.{Role}
use multi_tenant_subscriptio.AuthService.Auth.{
  LoginResponseDto, principal_of, resolve_roles, to_login_response,
}
use multi_tenant_subscriptio.AuthService.Interleaving.{
  Phase, Run, Sessions, answered, asked, checked, finished, next, proceed, proceeds, start,
}
use multi_tenant_subscriptio.AuthService.Rotation.{
  is_fresh, refresh_with-unchecked, rotated, token_of,
}
use multi_tenant_subscriptio.AuthService.Tables.{AuthDb, Credential, RefreshToken, is_unrevoked}
use multi_tenant_subscriptio.AuthService.Tokens.{Runtime, issued}
use multi_tenant_subscriptio.Database.{Outcome, World, returned}
use multi_tenant_subscriptio.Pagination.{after}

-- A refresh goes on in a run.
go_on :
    {s : Sessions} (rt : Runtime) (before after : List Phase) (p : Phase) {w : World AuthDb}
    {p' : Phase} {w' : World AuthDb}
    → Run s (record { phases = before ++ p ∷ after; world = w })
    → proceed rt p w ≡ (p', w')
    → Run s (record { phases = before ++ p' ∷ after; world = w' })
go_on {s = s} rt before after p {w = w} run here =
    subst
      (λ (r : Phase × World AuthDb). Run s (record { phases = before ++ r.0 ∷ after; world = r.1 }))
      here (next run (proceeds rt before after p refl))

module _ (w : World AuthDb) (t : RefreshToken) (c : Credential) (roles : List Role)
    (refresh_token : ℕ) where
  -- What a refresh of the token meets: its clock, and its answers from outside.
  pub record Meets (rt : Runtime) : Type 0 where
    pub found : token_of (rt.sha256 refresh_token) w.db ≡ some t
    pub unexpired : ltb t.expires_at rt.now ≡ false
    pub resolved : (u : World AuthDb) → resolve_roles rt c u ≡ (returned roles, u)

  abbrev pub new_pair : Runtime → Outcome LoginResponseDto
  new_pair rt = returned (to_login_response (issued rt (principal_of c roles)) c roles)

  abbrev pub both_rotated : Runtime → Runtime → World AuthDb
  both_rotated first second = record w { db = rotated second t (rotated first t w.db) }

  -- Two refreshes with one valid token that both look it up before either rotates it both answer a
  -- new pair of tokens, and no reuse is reported.
  pub Run-twice :
      (rt later : Runtime)
      → Meets rt
      → Meets later
      → is_unrevoked t ≡ true
      → first (λ c. c.id == t.credential_id) w.db.credentials ≡ some c
      → is_fresh rt w.db ≡ true
      → is_fresh later (rotated rt t w.db) ≡ true
      → Run
          (record { phases = asked refresh_token ∷ asked refresh_token ∷ []; world = w })
          (record {
            phases = answered (new_pair rt) ∷ answered (new_pair later) ∷ [];
            world = both_rotated rt later;
          })
  unfolding proceed
  Run-twice rt later meets meets_later usable owner fresh fresh_later =
      go_on later (answered (new_pair rt) ∷ []) [] (checked t)
        (go_on rt [] (checked t ∷ []) (checked t)
          (go_on later (checked t ∷ []) [] (asked refresh_token)
            (go_on rt [] (asked refresh_token ∷ []) (asked refresh_token) start (look_up rt meets))
            (look_up later meets_later))
          (rotates rt w (meets.resolved w) owner fresh))
        (rotates later (record w { db = rotated rt t w.db }) (meets_later.resolved _) owner
          fresh_later)
    where
      look_up : (rt : Runtime) → Meets rt → proceed rt (asked refresh_token) w ≡ (checked t, w)
      look_up rt meets = rw meets.found (rw usable (rw meets.unexpired refl))

      rotates :
          (rt : Runtime) (u : World AuthDb)
          → resolve_roles rt c u ≡ (returned roles, u)
          → first (λ c. c.id == t.credential_id) u.db.credentials ≡ some c
          → is_fresh rt u.db ≡ true
          → proceed rt (checked t) u ≡ (answered (new_pair rt), record u { db = rotated rt t u.db })
      rotates rt u resolved owner fresh =
          ap finished (refresh_with-unchecked rt u t c roles owner resolved fresh)
