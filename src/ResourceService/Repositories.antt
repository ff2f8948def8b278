-- ===== src/ResourceService/Repositories.antt =====
-- resources/resource.repository.ts and resources/plan-limit-cache.repository.ts.
use multi_tenant_subscriptio.Base.{
  Bool, List, Option, add_delta, false, first, get_or, is_none, leb, max, none, not, some,
  sum_where, true, ℕ, ℤ, ◌&&◌, ◌==◌,
}
use multi_tenant_subscriptio.Common.{service_unavailable}
use multi_tenant_subscriptio.Database.{
  Context, Tx, find_one, find_rows, insert_row, pure, returned, tenant_id, throw, update_checked,
  update_rows, ◌>>=◌, ◌>>◌,
}
use multi_tenant_subscriptio.ResourceService.Tables.{
  PlanLimitCache, Resource, ResourceDb, is_live, plan_limits_table, resources_table,
}

-- ResourceRepository

pub record CreateResourceData : Type 0 where
  pub name : ℕ
  pub description : Option ℕ
  pub size_bytes : ℕ
  pub created_by : ℕ

abbrev pub resource_of : ℕ → ℕ → ℕ → CreateResourceData → Resource
resource_of id organization_id now fields = record {
  id = id;
  organization_id = organization_id;
  name = fields.name;
  description = fields.description;
  size_bytes = fields.size_bytes;
  created_by = fields.created_by;
  created_at = now;
  deleted_at = none;
}

-- `id` is the database's gen_random_uuid(); the primary key is the only unique index.
unfoldable pub create_resource : Context → ℕ → ℕ → CreateResourceData → Tx ResourceDb Resource
unfolding tenant_id insert_row
create_resource ctx id now fields = do
  organization_id ← tenant_id ctx
  insert_row resources_table (λ r. r.id == id) (resource_of id organization_id now fields)

unfoldable pub find_resource_by_id : Context → ℕ → Tx ResourceDb (Option Resource)
unfolding tenant_id find_one
find_resource_by_id ctx id = do
  organization_id ← tenant_id ctx
  find_one resources_table (λ r. r.id == id && r.organization_id == organization_id && is_live r)

-- Asked for by no request: the sum that the counter stands for.
unfoldable pub sum_size_bytes_for_org : ℕ → Tx ResourceDb ℕ
unfolding find_rows
sum_size_bytes_for_org organization_id = do
  rows ← find_rows resources_table (λ r. r.organization_id == organization_id && is_live r)
  pure (sum_where (λ r. true) (λ r. r.size_bytes) rows)

unfoldable pub soft_delete : Context → ℕ → ℕ → Tx ResourceDb (Unit {0})
unfolding tenant_id update_rows
soft_delete ctx now id = do
  organization_id ← tenant_id ctx
  update_rows resources_table (λ r. r.id == id && r.organization_id == organization_id)
      (λ r. record r { deleted_at = some now })

-- `SELECT * FROM resources`
unfoldable pub find_all_resources_for_report : Tx ResourceDb (List Resource)
unfolding find_rows
find_all_resources_for_report = find_rows resources_table (λ r. true)

-- The function `resource_exists` of migration 1700000000001: SECURITY DEFINER, its owner bypasses the
-- policy.
unfoldable pub resource_exists : ℕ → Tx ResourceDb Bool
resource_exists id c = (returned (not (is_none (first (λ r. r.id == id) c.tables.resources))), c)

-- PlanLimitCacheRepository

pub record StorageSnapshot : Type 0 where
  pub used_storage_bytes : ℕ
  pub max_storage_bytes : ℕ

abbrev pub storage_snapshot : Option PlanLimitCache → Tx ResourceDb StorageSnapshot
storage_snapshot none = throw service_unavailable
storage_snapshot (some row) = pure (record {
  used_storage_bytes = row.used_storage_bytes;
  max_storage_bytes = row.max_storage_bytes;
})

unfoldable pub lock_storage : ℕ → Tx ResourceDb StorageSnapshot
unfolding find_one
lock_storage organization_id = do
  row ← find_one plan_limits_table (λ l. l.organization_id == organization_id)
  storage_snapshot row

abbrev pub raised : ℕ → ℕ → PlanLimitCache → PlanLimitCache
raised max_storage_bytes now l = record l {
  max_storage_bytes = max max_storage_bytes l.used_storage_bytes;
  updated_at = now;
}

abbrev pub first_limit : ℕ → ℕ → ℕ → PlanLimitCache
first_limit organization_id now max_storage_bytes = record {
  organization_id = organization_id;
  max_storage_bytes = max_storage_bytes;
  used_storage_bytes = 0;
  updated_at = now;
}

-- INSERT ... ON CONFLICT (organization_id) DO UPDATE, in a transaction that is scoped to the
-- organisation, so that the row that conflicts is one that the UPDATE sees.
unfoldable pub upsert_plan_limit : ℕ → ℕ → ℕ → Tx ResourceDb (Unit {0})
unfolding find_one update_rows insert_row
upsert_plan_limit now organization_id max_storage_bytes = do
  existing ← find_one plan_limits_table (λ l. l.organization_id == organization_id)
  elim existing [
    | some row ↦
        update_rows plan_limits_table (λ l. l.organization_id == organization_id)
          (raised max_storage_bytes now)
    | none ↦
        insert_row plan_limits_table (λ l. l.organization_id == organization_id)
          (first_limit organization_id now max_storage_bytes)
        >> pure tt
  ]

-- ck_plan_limit_storage and ck_plan_limit_storage_nonneg, of the counter's new value.
abbrev pub storage_allowed : Option ℕ → ℕ → Bool
storage_allowed none limit = false
storage_allowed (some n) limit = leb n limit

unfoldable pub adjust_used_storage_bytes : ℕ → ℕ → ℤ → Tx ResourceDb (Unit {0})
unfolding update_checked
adjust_used_storage_bytes now organization_id delta =
    update_checked plan_limits_table (λ l. l.organization_id == organization_id)
      (λ l. storage_allowed (add_delta l.used_storage_bytes delta) l.max_storage_bytes)
      (λ l. record l {
        used_storage_bytes = get_or (add_delta l.used_storage_bytes delta) l.used_storage_bytes;
        updated_at = now;
      })
