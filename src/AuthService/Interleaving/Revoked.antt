-- ===== src/AuthService/Interleaving/Revoked.antt =====
-- What refreshes that run at the same time keep of a revoked token.
use multi_tenant_subscriptio.Base.{
  Bool, Bool-cases, Option, Option-cases, [], ap, false, first, first-append_found,
  first-update_where, if◌then◌else◌, inl, inr, none, refl, some, update_where, ℕ, ◌&&◌, ◌++◌, ◌==◌,
  ◌||◌, ◌∷◌, ◌≡◌,
}
use multi_tenant_subscriptio.Common.{Role, forbidden, unauthorized, unique_violation}
use multi_tenant_subscriptio.AuthService.Auth.{
  principal_of, publish_auth_failure, refresh, refresh_token_reuse, refresh_with, refuse_reuse,
  resolve_roles, role_of, to_login_response,
}
use multi_tenant_subscriptio.AuthService.Interleaving.{
  Phase, Run, Sessions, answered, asked, checked, next, proceed, proceeds, reused, start,
}
use multi_tenant_subscriptio.AuthService.Repositories.{
  create_token, find_by_id, mark_replaced, revoke_all_for_credential,
}
use multi_tenant_subscriptio.AuthService.Rotation.{live_tokens, refresh-reuse, token_of}
use multi_tenant_subscriptio.AuthService.Tables.{
  AuthDb, Credential, RefreshToken, in_transaction, is_unrevoked,
}
use multi_tenant_subscriptio.AuthService.Tokens.{
  Runtime, TokenPrincipal, fresh_token, issued, rotate,
}
use multi_tenant_subscriptio.Database.{Action, Outcome, World, publish, returned, thrown}
use multi_tenant_subscriptio.Database.Preservation.{
  Preserves, Preserves-await, Preserves-bind, Preserves-or_throw, Preserves-pure, Preserves-throw,
}
use multi_tenant_subscriptio.Pagination.{after}

-- The token with this hash is there and revoked.
abbrev pub Spent : ℕ → AuthDb → Type 0
Spent h d = (t : RefreshToken) × (token_of h d ≡ some t) × (is_unrevoked t ≡ false)

module _ (h : ℕ) where
  -- A committed transaction keeps what its work keeps, and one that fails changes nothing.
  in_transaction-Spent :
      {A : Type 0} {work : Action AuthDb A}
      → Preserves (Spent h) work
      → Preserves (λ w. Spent h w.db) (in_transaction work)
  in_transaction-Spent {work = work} kept = record {
    keeps = λ w spent. settled w (work w.db) spent (kept.keeps w.db spent);
  }
    where
      settled :
          {A : Type 0} (w : World AuthDb) (r : Outcome A × AuthDb)
          → Spent h w.db
          → Spent h r.1
          → Spent h (in_transaction (λ _. r) w).1.db
      settled w (returned a, d) before after = after
      settled w (thrown e, d) before after = before

  create_token-Spent : (new : RefreshToken) → Preserves (Spent h) (create_token new)
  unfolding create_token
  create_token-Spent new = record {
    keeps = λ d spent.
        created d spent
          (first (λ t. t.id == new.id || t.token_hash == new.token_hash) d.refresh_tokens);
  }
    where
      stored : AuthDb → Option RefreshToken → Outcome RefreshToken × AuthDb
      stored d clash = elim clash [
        | some _ ↦ (thrown unique_violation, d)
        | none ↦ (returned new, record d { refresh_tokens = d.refresh_tokens ++ new ∷ [] })
      ]

      created :
          (d : AuthDb) → Spent h d → (clash : Option RefreshToken) → Spent h (stored d clash).1
      created d spent (some clash) = spent
      created d (t, found, revoked) none = (
        t,
        first-append_found (λ t. t.token_hash == h) d.refresh_tokens (new ∷ []) found,
        revoked,
      )

  -- An UPDATE that revokes the tokens of a test.
  revoking-Spent :
      (p : RefreshToken → Bool) (f : RefreshToken → RefreshToken) (d : AuthDb)
      → ((t : RefreshToken) → (f t).token_hash ≡ t.token_hash)
      → ((t : RefreshToken) → is_unrevoked (f t) ≡ false)
      → Spent h d
      → Spent h (record d { refresh_tokens = update_where p f d.refresh_tokens })
  revoking-Spent p f d same revokes (t, found, revoked) = (
    if p t then f t else t,
    first-update_where (λ t. t.token_hash == h) p f d.refresh_tokens
        (λ y e. ap (λ x. x == h) (same y)) found,
    elim (Bool-cases (p t)) [ inl hit ↦ rw hit (revokes t) | inr miss ↦ rw miss revoked ],
  )

  mark_replaced-Spent :
      (now id replaced_by_id : ℕ) → Preserves (Spent h) (mark_replaced now id replaced_by_id)
  unfolding mark_replaced
  mark_replaced-Spent now id replaced_by_id = record {
    keeps = λ d.
        revoking-Spent (λ t. t.id == id)
          (λ t. record t { replaced_by = some replaced_by_id; revoked_at = some now }) d (λ t. refl)
          (λ t. refl);
  }

  revoke_all-Spent :
      (now credential_id : ℕ) → Preserves (Spent h) (revoke_all_for_credential now credential_id)
  unfolding revoke_all_for_credential
  revoke_all-Spent now credential_id = record {
    keeps = λ d.
        revoking-Spent (λ t. t.credential_id == credential_id && is_unrevoked t)
          (λ t. record t { revoked_at = some now }) d (λ t. refl) (λ t. refl);
  }

  rotate-Spent :
      (rt : Runtime) (presented : RefreshToken) (principal : TokenPrincipal)
      → Preserves (Spent h) (rotate rt presented principal)
  unfolding rotate
  rotate-Spent rt presented principal =
      Preserves-bind (create_token-Spent (fresh_token rt presented.credential_id)) (λ new_token.
        Preserves-bind (mark_replaced-Spent rt.now presented.id new_token.id)
          (λ _. Preserves-pure (issued rt principal)))

  resolve_roles-Spent :
      (rt : Runtime) (c : Credential) → Preserves (λ w. Spent h w.db) (resolve_roles rt c)
  unfolding resolve_roles
  resolve_roles-Spent rt c = elim (Option-cases c.organization_id) [
    | inl platform ↦ rw platform (Preserves-pure (Role.platform_admin ∷ []))
    | inr (o, tenant) ↦ rw tenant (
        Preserves-bind (Preserves-await (rt.get_role c.user_id))
          (λ role. Preserves-await (role_of role)))
  ]

  look_up-Spent : (id : ℕ) → Preserves (Spent h) (find_by_id id)
  unfolding find_by_id
  look_up-Spent id = record { keeps = λ d spent. spent }

  refresh_with-Spent :
      (rt : Runtime) (existing : RefreshToken)
      → Preserves (λ w. Spent h w.db) (refresh_with rt existing)
  unfolding refresh_with
  refresh_with-Spent rt existing =
      Preserves-bind (in_transaction-Spent (look_up-Spent existing.credential_id)) (λ found.
        Preserves-bind (Preserves-or_throw found unauthorized) (λ c.
          Preserves-bind (resolve_roles-Spent rt c) (λ roles.
            Preserves-bind (in_transaction-Spent (rotate-Spent rt existing (principal_of c roles)))
              (λ tokens. Preserves-pure (to_login_response tokens c roles)))))

  auth_failure-Spent :
      (organization_id email : Option ℕ) (reason : ℕ)
      → Preserves (λ w. Spent h w.db) (publish_auth_failure organization_id email reason)
  unfolding publish_auth_failure publish
  auth_failure-Spent organization_id email reason = record { keeps = λ w spent. spent }

  refuse_reuse-Spent :
      (rt : Runtime) (existing : RefreshToken)
      → Preserves (λ w. Spent h w.db) (refuse_reuse rt existing)
  unfolding refuse_reuse
  refuse_reuse-Spent rt existing =
      Preserves-bind
        (Preserves-bind (in_transaction-Spent (revoke_all-Spent rt.now existing.credential_id))
          (λ _. auth_failure-Spent none none refresh_token_reuse))
        (λ _. Preserves-throw forbidden)

  proceed-Spent :
      (rt : Runtime) (p : Phase) (w : World AuthDb) → Spent h w.db → Spent h (proceed rt p w).1.db
  unfolding proceed
  proceed-Spent rt (asked refresh_token) w spent = spent
  proceed-Spent rt (checked existing) w spent = (refresh_with-Spent rt existing).keeps w spent
  proceed-Spent rt (reused existing) w spent = (refuse_reuse-Spent rt existing).keeps w spent
  proceed-Spent rt (answered r) w spent = spent

  Run-Spent : (s t : Sessions) → Run s t → Spent h s.world.db → Spent h t.world.db
  Run-Spent s t start spent = spent
  Run-Spent s t (next {t = u} run (proceeds rt before after p here)) spent =
      proceed-Spent rt p u.world (Run-Spent s u run spent)

abbrev pub owner_of : Option RefreshToken → ℕ
owner_of (some t) = t.credential_id
owner_of none = 0

-- The credential of a token.
abbrev pub run_owner : Runtime → ℕ → Sessions → ℕ
run_owner rt refresh_token t = owner_of (token_of (rt.sha256 refresh_token) t.world.db)

-- Once a refresh token is revoked, a refresh with it is answered with forbidden, and leaves its
-- credential without any live token, whichever other refreshes were under way at that moment and
-- however their pieces came between each other since.
pub Run-refused :
    (rt : Runtime) (refresh_token : ℕ) (s t : Sessions)
    → Spent (rt.sha256 refresh_token) s.world.db
    → Run s t
    → ((refresh rt refresh_token t.world).0 ≡ thrown forbidden)
      × (live_tokens (run_owner rt refresh_token t) (refresh rt refresh_token t.world).1.db ≡ 0)
Run-refused rt refresh_token s t spent run =
    let (x, found, revoked) = Run-Spent (rt.sha256 refresh_token) s t run spent in
    rw found (refresh-reuse rt refresh_token t.world x found revoked)
