-- ===== src/AuthService/Login.antt =====
-- What a failed login tells and changes.
use multi_tenant_subscriptio.Base.{
  Bool, Bool-cases, Option, Option-cases, arith, false, first, inl, inr, length, length-snoc, none,
  some, ℕ, ◌&&◌, ◌+◌, ◌==◌, ◌≡◌,
}
use multi_tenant_subscriptio.Common.{
  DomainEvent, auth_failure, authentication_failed, security_events, unauthorized,
}
use multi_tenant_subscriptio.AuthService.Auth.{
  bad_password, credential_disabled, login, unknown_email, verified,
}
use multi_tenant_subscriptio.AuthService.Tables.{AuthDb, Credential, is_enabled}
use multi_tenant_subscriptio.AuthService.Tokens.{Runtime}
use multi_tenant_subscriptio.Database.{World, thrown}

-- The password is right, and the account is not disabled.
abbrev pub admits : Runtime → ℕ → Option Credential → Bool
admits rt password none = false
admits rt password (some c) = verified (rt.argon2_verify c.password_hash password) && is_enabled c

abbrev pub account : ℕ → AuthDb → Option Credential
account email d = first (λ c. c.email == email) d.credentials

abbrev failure : Option ℕ → ℕ → ℕ → DomainEvent
failure organization_id email reason = record {
  topic = security_events;
  event_type = authentication_failed;
  organization_id = organization_id;
  actor_user_id = none;
  payload = auth_failure (some email) reason;
}

-- A login with an unknown address, a wrong password or a disabled account is answered with the same
-- error, changes nothing in the tables, and publishes one event more.
pub login-refused :
    (rt : Runtime) (email password : ℕ) (w : World AuthDb)
    → admits rt password (account email w.db) ≡ false
    → ((login rt email password w).0 ≡ thrown unauthorized)
      × ((login rt email password w).1.db ≡ w.db)
      × (length (login rt email password w).1.published ≡ length w.published + 1)
unfolding login
login-refused rt email password w refused = elim (Option-cases (account email w.db)) [
  | inl unknown ↦ (
    ground arith,
    ground arith,
    ground (arith, length-snoc w.published (failure none email unknown_email)),
  )
  | inr (c, found) ↦ elim (Bool-cases (verified (rt.argon2_verify c.password_hash password))) [
    | inr wrong ↦ (
      ground arith,
      ground arith,
      ground (arith, length-snoc w.published (failure c.organization_id email bad_password)),
    )
    | inl right ↦ (
      ground arith,
      ground arith,
      ground (arith, length-snoc w.published (failure c.organization_id email credential_disabled)),
    )
  ]
]
