-- ===== src/AuthService/Repositories.antt =====
-- credentials/credential.repository.ts and credentials/refresh-token.repository.ts.
use multi_tenant_subscriptio.Base.{
  Option, [], first, none, some, update_where, ℕ, ◌&&◌, ◌++◌, ◌==◌, ◌||◌, ◌∷◌,
}
use multi_tenant_subscriptio.Common.{email_taken, unique_violation}
use multi_tenant_subscriptio.AuthService.Tables.{AuthDb, Credential, RefreshToken, is_unrevoked}
use multi_tenant_subscriptio.Database.{Action, returned, thrown}

-- CredentialRepository

unfoldable pub find_by_email : ℕ → Action AuthDb (Option Credential)
find_by_email email d = (returned (first (λ c. c.email == email) d.credentials), d)

unfoldable pub find_by_id : ℕ → Action AuthDb (Option Credential)
find_by_id id d = (returned (first (λ c. c.id == id) d.credentials), d)

-- The primary key is the database's gen_random_uuid(), uq_credentials_email is on the address.
unfoldable pub create_credential : Credential → Action AuthDb Credential
create_credential new d = elim (first (λ c. c.id == new.id || c.email == new.email) d.credentials) [
  | some _ ↦ (thrown email_taken, d)
  | none ↦ (returned new, record d { credentials = d.credentials ++ new ∷ [] })
]

-- RefreshTokenRepository

unfoldable pub find_by_token_hash : ℕ → Action AuthDb (Option RefreshToken)
find_by_token_hash token_hash d =
    (returned (first (λ t. t.token_hash == token_hash) d.refresh_tokens), d)

unfoldable pub create_token : RefreshToken → Action AuthDb RefreshToken
create_token new d =
    elim (first (λ t. t.id == new.id || t.token_hash == new.token_hash) d.refresh_tokens) [
      | some _ ↦ (thrown unique_violation, d)
      | none ↦ (returned new, record d { refresh_tokens = d.refresh_tokens ++ new ∷ [] })
    ]

unfoldable pub mark_replaced : ℕ → ℕ → ℕ → Action AuthDb (Unit {0})
mark_replaced now id replaced_by_id d = (
  returned tt,
  record d {
    refresh_tokens =
        update_where (λ t. t.id == id)
          (λ t. record t { replaced_by = some replaced_by_id; revoked_at = some now })
          d.refresh_tokens;
  },
)

unfoldable pub revoke_all_for_credential : ℕ → ℕ → Action AuthDb (Unit {0})
revoke_all_for_credential now credential_id d = (
  returned tt,
  record d {
    refresh_tokens =
        update_where (λ t. t.credential_id == credential_id && is_unrevoked t)
          (λ t. record t { revoked_at = some now }) d.refresh_tokens;
  },
)

unfoldable pub revoke : ℕ → ℕ → Action AuthDb (Unit {0})
revoke now id d = (
  returned tt,
  record d {
    refresh_tokens =
        update_where (λ t. t.id == id) (λ t. record t { revoked_at = some now }) d.refresh_tokens;
  },
)
