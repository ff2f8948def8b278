-- ===== src/ResourceService/Tables.antt =====
-- The tables of resources_db: resources/resource.entity.ts, resources/plan-limit-cache.entity.ts and
-- the migration 1700000000001 that creates them.
use multi_tenant_subscriptio.Base.{Bool, List, Option, is_none, ℕ}
use multi_tenant_subscriptio.Database.{Table}

pub record Resource : Type 0 where
  pub id : ℕ
  pub organization_id : ℕ
  pub name : ℕ
  pub description : Option ℕ
  pub size_bytes : ℕ
  pub created_by : ℕ
  pub created_at : ℕ
  pub deleted_at : Option ℕ

pub record PlanLimitCache : Type 0 where
  pub organization_id : ℕ
  pub max_storage_bytes : ℕ
  pub used_storage_bytes : ℕ
  pub updated_at : ℕ

pub record ResourceDb : Type 0 where
  pub resources : List Resource
  pub plan_limits : List PlanLimitCache

abbrev pub resources_table : Table ResourceDb Resource
resources_table = record {
  rows = λ d. d.resources;
  put = λ d rows. record d { resources = rows };
  owner = λ r. r.organization_id;
}

abbrev pub plan_limits_table : Table ResourceDb PlanLimitCache
plan_limits_table = record {
  rows = λ d. d.plan_limits;
  put = λ d rows. record d { plan_limits = rows };
  owner = λ l. l.organization_id;
}

-- TypeORM's repositories leave out the rows that are soft-deleted.
abbrev pub is_live : Resource → Bool
is_live r = is_none r.deleted_at
