-- ===== src/TenantService/Tables.antt =====
-- The tables of tenant_db: organizations/organization.entity.ts and
-- onboarding/onboarding-saga.entity.ts. They are the registry of tenants and have no policy, so a
-- query is an action on the tables themselves.
use multi_tenant_subscriptio.Base.{List, Option, ℕ}
use multi_tenant_subscriptio.Common.{Error}
use multi_tenant_subscriptio.Database.{Action, Outcome, Request, World, returned, thrown}

pub data OrganizationStatus : Type 0 where
  provisioning active provisioning_failed suspended : OrganizationStatus

-- A name is the list of its character codes.
pub record Organization : Type 0 where
  pub id : ℕ
  pub name : List ℕ
  pub slug : List ℕ
  pub status : OrganizationStatus
  pub created_at : ℕ

pub data SagaState : Type 0 where
  pending org_created credentials_created subscribed complete : SagaState

pub record OnboardingSaga : Type 0 where
  pub id : ℕ
  pub idempotency_key : ℕ
  pub organization_id : Option ℕ
  pub state : SagaState
  pub admin_email : ℕ
  pub admin_user_id : Option ℕ
  pub last_error : Option Error
  pub failed_at : Option ℕ
  pub attempts : ℕ

pub record TenantDb : Type 0 where
  pub organizations : List Organization
  pub sagas : List OnboardingSaga

-- `dataSource.transaction(work)`: COMMIT, or ROLLBACK and rethrow. A single statement outside of it
-- is a transaction of its own.
abbrev settle : {A : Type 0} → World TenantDb → Outcome A × TenantDb → Outcome A × World TenantDb
settle w (returned a, d) = (returned a, record w { db = d })
settle w (thrown e, d) = (thrown e, w)

abbrev pub in_transaction : {A : Type 0} → Action TenantDb A → Request TenantDb A
in_transaction work w = settle w (work w.db)
