-- ===== src/AuthService/Auth.antt =====
-- auth/auth.service.ts.
use multi_tenant_subscriptio.Base.{
  Bool, List, Option, [], false, if◌then◌else◌, ltb, none, not, some, ℕ, ◌∷◌,
}
use multi_tenant_subscriptio.Common.{
  Error, Role, auth_failure, authentication_failed, conflict, created, email_taken, forbidden,
  security_events, unauthorized, user_credentials_created, user_events,
}
use multi_tenant_subscriptio.AuthService.Repositories.{
  create_credential, find_by_email, find_by_id, find_by_token_hash, revoke,
  revoke_all_for_credential,
}
use multi_tenant_subscriptio.AuthService.Tables.{
  AuthDb, Credential, RefreshToken, active, in_transaction, is_enabled, is_unrevoked,
}
use multi_tenant_subscriptio.AuthService.Tokens.{
  IssuedTokens, Runtime, TokenPrincipal, issue, rotate,
}
use multi_tenant_subscriptio.Database.{
  Outcome, Request, await, catch, or_throw, publish, pure, returned, throw, thrown, ◌>>=◌, ◌>>◌,
}

pub record CreateCredentialsDto : Type 0 where
  pub organization_id : Option ℕ
  pub email : ℕ
  pub password : ℕ

abbrev pub taken_to_conflict : Error → Error
taken_to_conflict email_taken = conflict
taken_to_conflict e = e

abbrev pub credential_of : Runtime → CreateCredentialsDto → Credential
credential_of rt dto = record {
  id = rt.next_id;
  user_id = rt.random_uuid;
  organization_id = dto.organization_id;
  email = dto.email;
  password_hash = rt.argon2_hash dto.password;
  status = active;
}

-- It answers the new user's id.
unfoldable pub create_credentials : Runtime → CreateCredentialsDto → Request AuthDb ℕ
unfolding create_credential publish
create_credentials rt dto = do
  catch (in_transaction (create_credential (credential_of rt dto)))
      (λ e. throw (taken_to_conflict e))
  publish (record {
    topic = user_events;
    event_type = user_credentials_created;
    organization_id = dto.organization_id;
    actor_user_id = none;
    payload = created rt.random_uuid dto.email;
  })
  pure rt.random_uuid

abbrev pub unknown_email : ℕ
unknown_email = 0

abbrev pub bad_password : ℕ
bad_password = 1

abbrev pub credential_disabled : ℕ
credential_disabled = 2

abbrev pub refresh_token_reuse : ℕ
refresh_token_reuse = 3

unfoldable pub publish_auth_failure : Option ℕ → Option ℕ → ℕ → Request AuthDb (Unit {0})
unfolding publish
publish_auth_failure organization_id email reason = publish (record {
  topic = security_events;
  event_type = authentication_failed;
  organization_id = organization_id;
  actor_user_id = none;
  payload = auth_failure email reason;
})

abbrev pub role_of : Option Role → Outcome (List Role)
role_of (some Role.org_admin) = returned (Role.org_admin ∷ [])
role_of (some Role.org_member) = returned (Role.org_member ∷ [])
role_of (some Role.platform_admin) = thrown unauthorized
role_of none = thrown unauthorized

unfoldable pub resolve_roles : Runtime → Credential → Request AuthDb (List Role)
resolve_roles rt c = elim c.organization_id [
  | none ↦ pure (Role.platform_admin ∷ [])
  | some o ↦ (do role ← await (rt.get_role c.user_id); await (role_of role))
]

pub record LoginResponseDto : Type 0 where
  pub tokens : IssuedTokens
  pub user_id : ℕ
  pub email : ℕ
  pub roles : List Role
  pub organization_id : Option ℕ

abbrev pub to_login_response : IssuedTokens → Credential → List Role → LoginResponseDto
to_login_response tokens c roles = record {
  tokens = tokens;
  user_id = c.user_id;
  email = c.email;
  roles = roles;
  organization_id = c.organization_id;
}

abbrev pub principal_of : Credential → List Role → TokenPrincipal
principal_of c roles = record {
  user_id = c.user_id;
  organization_id = c.organization_id;
  roles = roles;
}

-- `await argon2.verify(hash, password).catch(() => false)`
abbrev pub verified : Outcome Bool → Bool
verified (returned b) = b
verified (thrown e) = false

unfoldable pub login_as : Runtime → Credential → ℕ → ℕ → Request AuthDb LoginResponseDto
unfolding publish_auth_failure resolve_roles
login_as rt c email password =
    if not (verified (rt.argon2_verify c.password_hash password))
    then (publish_auth_failure c.organization_id (some email) bad_password >> throw unauthorized)
    else if not (is_enabled c)
    then (publish_auth_failure c.organization_id (some email) credential_disabled
        >> throw unauthorized)
    else (do
      roles ← resolve_roles rt c
      tokens ← in_transaction (issue rt c.id (principal_of c roles))
      pure (to_login_response tokens c roles))

-- The dummy verification for an unknown address takes time and has no result.
unfoldable pub login : Runtime → ℕ → ℕ → Request AuthDb LoginResponseDto
unfolding find_by_email publish_auth_failure login_as
login rt email password = do
  found ← in_transaction (find_by_email email)
  elim found [
    | none ↦ publish_auth_failure none (some email) unknown_email >> throw unauthorized
    | some c ↦ login_as rt c email password
  ]

-- The rest of `refresh`, once the presented token is found valid.
unfoldable pub refresh_with : Runtime → RefreshToken → Request AuthDb LoginResponseDto
unfolding find_by_id resolve_roles
refresh_with rt existing = do
  found ← in_transaction (find_by_id existing.credential_id)
  c ← or_throw found unauthorized
  roles ← resolve_roles rt c
  tokens ← in_transaction (rotate rt existing (principal_of c roles))
  pure (to_login_response tokens c roles)

unfoldable pub refuse_reuse : Runtime → RefreshToken → Request AuthDb LoginResponseDto
unfolding revoke_all_for_credential publish_auth_failure
refuse_reuse rt existing =
    in_transaction (revoke_all_for_credential rt.now existing.credential_id)
    >> publish_auth_failure none none refresh_token_reuse
    >> throw forbidden

unfoldable pub refresh : Runtime → ℕ → Request AuthDb LoginResponseDto
unfolding find_by_token_hash refuse_reuse
refresh rt refresh_token = do
  found ← in_transaction (find_by_token_hash (rt.sha256 refresh_token))
  existing ← or_throw found unauthorized
  if not (is_unrevoked existing)
      then refuse_reuse rt existing
      else if ltb existing.expires_at rt.now
      then throw unauthorized
      else refresh_with rt existing

unfoldable pub logout : Runtime → ℕ → Request AuthDb (Unit {0})
unfolding find_by_token_hash revoke
logout rt refresh_token = do
  found ← in_transaction (find_by_token_hash (rt.sha256 refresh_token))
  elim found [ none ↦ pure tt | some existing ↦ in_transaction (revoke rt.now existing.id) ]
