-- ===== src/AuthService/Tokens.antt =====
-- auth/token-issuer.service.ts.
use multi_tenant_subscriptio.Base.{Bool, List, Option, none, ℕ, ◌+◌}
use multi_tenant_subscriptio.Common.{Role}
use multi_tenant_subscriptio.AuthService.Repositories.{create_token, mark_replaced}
use multi_tenant_subscriptio.AuthService.Tables.{AuthDb, RefreshToken}
use multi_tenant_subscriptio.Database.{Action, Outcome, pure, ◌>>=◌, ◌>>◌}

pub record TokenPrincipal : Type 0 where
  pub user_id : ℕ
  pub organization_id : Option ℕ
  pub roles : List Role

-- What a request takes from outside: the clock, the random values that it draws, SHA-256, argon2, the
-- signing of access tokens, and user-service's answer to a question for a role.
pub record Runtime : Type 0 where
  pub now : ℕ
  pub random_uuid : ℕ  -- `randomUUID()`, for a new user id
  pub next_id : ℕ  -- gen_random_uuid() of the next INSERT
  pub random_token : ℕ  -- `randomUUID() + randomUUID()`
  pub refresh_lifetime : ℕ  -- JWT_REFRESH_EXPIRES_IN, in milliseconds
  pub sha256 : ℕ → ℕ
  pub argon2_hash : ℕ → ℕ
  pub argon2_verify : (hash password : ℕ) → Outcome Bool
  pub sign : TokenPrincipal → ℕ
  pub get_role : ℕ → Outcome (Option Role)

pub record IssuedTokens : Type 0 where
  pub access_token : ℕ
  pub refresh_token : ℕ

abbrev pub fresh_token : Runtime → ℕ → RefreshToken
fresh_token rt credential_id = record {
  id = rt.next_id;
  credential_id = credential_id;
  token_hash = rt.sha256 rt.random_token;
  expires_at = rt.now + rt.refresh_lifetime;
  revoked_at = none;
  replaced_by = none;
}

abbrev pub issued : Runtime → TokenPrincipal → IssuedTokens
issued rt principal = record { access_token = rt.sign principal; refresh_token = rt.random_token }

unfoldable pub issue : Runtime → ℕ → TokenPrincipal → Action AuthDb IssuedTokens
issue rt credential_id principal =
    create_token (fresh_token rt credential_id) >> pure (issued rt principal)

unfoldable pub rotate : Runtime → RefreshToken → TokenPrincipal → Action AuthDb IssuedTokens
rotate rt presented principal = do
  new_token ← create_token (fresh_token rt presented.credential_id)
  mark_replaced rt.now presented.id new_token.id
  pure (issued rt principal)
