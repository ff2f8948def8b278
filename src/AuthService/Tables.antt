-- ===== src/AuthService/Tables.antt =====
-- The tables of auth_db, credentials/credential.entity.ts and credentials/refresh-token.entity.ts.
-- They hold no tenant data and have no policy, so a query is an action on the tables themselves.
use multi_tenant_subscriptio.Base.{Bool, List, Option, false, is_none, true, ℕ}
use multi_tenant_subscriptio.Database.{Action, Outcome, Request, World, returned, thrown}

pub data CredentialStatus : Type 0 where
  active disabled : CredentialStatus

-- `organization_id` is `none` for a platform admin.
pub record Credential : Type 0 where
  pub id : ℕ
  pub user_id : ℕ
  pub organization_id : Option ℕ
  pub email : ℕ
  pub password_hash : ℕ
  pub status : CredentialStatus

pub record RefreshToken : Type 0 where
  pub id : ℕ
  pub credential_id : ℕ
  pub token_hash : ℕ
  pub expires_at : ℕ
  pub revoked_at : Option ℕ
  pub replaced_by : Option ℕ

pub record AuthDb : Type 0 where
  pub credentials : List Credential
  pub refresh_tokens : List RefreshToken

abbrev pub is_enabled : Credential → Bool
is_enabled c = elim c.status [ active ↦ true | disabled ↦ false ]

abbrev pub is_unrevoked : RefreshToken → Bool
is_unrevoked t = is_none t.revoked_at

-- `dataSource.transaction(work)`: COMMIT, or ROLLBACK and rethrow. A single statement outside of it
-- is a transaction of its own.
abbrev settle : {A : Type 0} → World AuthDb → Outcome A × AuthDb → Outcome A × World AuthDb
settle w (returned a, d) = (returned a, record w { db = d })
settle w (thrown e, d) = (thrown e, w)

abbrev pub in_transaction : {A : Type 0} → Action AuthDb A → Request AuthDb A
in_transaction work w = settle w (work w.db)
