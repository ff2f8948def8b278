-- ===== src/ResourceService/Tests.antt =====
-- Two organisations with a resource each, and the theorems at them.
use multi_tenant_subscriptio.Base.{Option, [], arith, none, refl, some, ℕ, ◌∷◌, ◌≡◌}
use multi_tenant_subscriptio.Common.{Role, TenantContextPayload, not_found}
use multi_tenant_subscriptio.Database.{World, caller, returned, thrown}
use multi_tenant_subscriptio.Pagination.Following.{follow}
use multi_tenant_subscriptio.ResourceService.Listing.{fetch, follow-list_page}
use multi_tenant_subscriptio.ResourceService.Lists.{by_size_bytes}
use multi_tenant_subscriptio.ResourceService.Privacy.{get_by_id-no_oracle, get_by_id-reports}
use multi_tenant_subscriptio.ResourceService.Repositories.{upsert_plan_limit}
use multi_tenant_subscriptio.ResourceService.Resources.{
  create_work, get_by_id, remove_resource_work, security_event, to_dto,
}
use multi_tenant_subscriptio.ResourceService.StorageCount.{AfterTx, IsBalanced, limit_of, on}
use multi_tenant_subscriptio.ResourceService.StorageCount.Balance.{
  create_work-IsBalanced, remove_resource_work-IsBalanced, upsert-IsBalanced,
}
use multi_tenant_subscriptio.ResourceService.Tables.{PlanLimitCache, Resource, ResourceDb}

abbrev context : TenantContextPayload
context = record {
  user_id = some 7;
  organization_id = none;
  roles = Role.org_member ∷ [];
  correlation_id = 0;
  iat = 0;
  exp = 60;
}

abbrev resource : ℕ → ℕ → Option ℕ → Resource
resource id organization_id deleted_at = record {
  id = id;
  organization_id = organization_id;
  name = 5;
  description = none;
  size_bytes = 40;
  created_by = 7;
  created_at = 10;
  deleted_at = deleted_at;
}

abbrev limit : ℕ → PlanLimitCache
limit organization_id = record {
  organization_id = organization_id;
  max_storage_bytes = 100;
  used_storage_bytes = 40;
  updated_at = 0;
}

abbrev world : World ResourceDb
world = record {
  db = record {
    resources = resource 20 1 none ∷ resource 21 2 none ∷ resource 22 1 (some 11) ∷ [];
    plan_limits = limit 1 ∷ limit 2 ∷ [];
  };
  published = [];
}

abbrev other_world : World ResourceDb
other_world = record world {
  db = record world.db { resources = resource 20 1 none ∷ resource 22 1 (some 11) ∷ [] };
}

balanced : IsBalanced 1 world.db
balanced = (refl, omega arith)

create_work-IsBalanced_example : AfterTx (IsBalanced 1) (
    create_work
      (caller 1 context)
      50
      30
      1
      7
      (record { name = 6; description = none; size_bytes = 60 })
      (on 1 world.db))
create_work-IsBalanced_example =
    create_work-IsBalanced 1 50 context world.db balanced 30 7
      (record { name = 6; description = none; size_bytes = 60 })

-- The counter of 40 bytes is above the new limit of 10.
upsert-IsBalanced_example :
    ((upsert_plan_limit 50 1 10 (on 1 world.db)).0 ≡ returned tt)
    × ((upsert_plan_limit 50 1 10 (on 1 world.db)).1.tables.resources ≡ world.db.resources)
    × (limit_of 1 (upsert_plan_limit 50 1 10 (on 1 world.db)).1.tables
        ≡ some (record {
          organization_id = 1;
          max_storage_bytes = 40;
          used_storage_bytes = 40;
          updated_at = 50;
        }))
    × IsBalanced 1 (upsert_plan_limit 50 1 10 (on 1 world.db)).1.tables
upsert-IsBalanced_example = upsert-IsBalanced 1 50 context world.db balanced 10

remove_resource_work-IsBalanced_example :
    AfterTx (IsBalanced 1) (remove_resource_work (caller 1 context) 50 1 20 (on 1 world.db))
remove_resource_work-IsBalanced_example =
    remove_resource_work-IsBalanced 1 50 context world.db balanced (λ id. ground arith) 20

get_by_id-no_oracle_example :
    (get_by_id (caller 1 context) 21 world).0 ≡ (get_by_id (caller 1 context) 21 other_world).0
get_by_id-no_oracle_example = get_by_id-no_oracle 1 21 context world other_world refl

get_by_id-reports_example : get_by_id (caller 1 context) 21 world ≡ (
  thrown not_found,
  record world { published = security_event (record context { organization_id = some 1 }) 21 ∷ [] },
)
get_by_id-reports_example = get_by_id-reports 1 21 context world refl

-- Three resources of one organisation, in pages of two by size.
abbrev listing_world : World ResourceDb
listing_world = record world {
  db = record world.db {
    resources =
        resource 20 1 none
        ∷ resource 21 2 none
        ∷ record (resource 23 1 none) { size_bytes = 90 }
        ∷ resource 22 1 (some 11)
        ∷ resource 24 1 none
        ∷ [];
  };
}

follow-list_page_example :
    follow 4
      (fetch 1 context listing_world (some by_size_bytes) none)
      (record { cursor = none; limit = some 2 })
    ≡ to_dto (record (resource 23 1 none) { size_bytes = 90 })
      ∷ to_dto (resource 24 1 none)
      ∷ to_dto (resource 20 1 none)
      ∷ []
follow-list_page_example =
    follow-list_page 1 context listing_world (some by_size_bytes) none (some 2)
      (refl, (refl, (refl, tt))) refl (omega arith) 4 (omega arith)
