-- ===== src/TenantService/Organizations.antt =====
-- organizations/organizations.service.ts: who may read which organisation of the registry.
use multi_tenant_subscriptio.Base.{Bool, false, if◌then◌else◌, is_none, none, some, ℕ}
use multi_tenant_subscriptio.Common.{forbidden, not_found}
use multi_tenant_subscriptio.Database.{
  Context, Request, get_or_throw, or_throw, pure, throw, ◌>>=◌, ◌>>◌,
}
use multi_tenant_subscriptio.Pagination.{CursorPage, CursorQuery}
use multi_tenant_subscriptio.TenantService.Repositories.{find_organization, list_organizations_page}
use multi_tenant_subscriptio.TenantService.Tables.{Organization, TenantDb, in_transaction}

unfoldable pub get_my_organization : Context → Request TenantDb Organization
unfolding get_or_throw find_organization
get_my_organization ctx = do
  payload ← get_or_throw ctx
  organization_id ← or_throw payload.organization_id not_found
  found ← in_transaction (find_organization organization_id)
  or_throw found not_found

-- `TenantContextStore.isPlatformAdmin`: false outside every scope.
abbrev pub is_platform_admin : Context → Bool
is_platform_admin none = false
is_platform_admin (some payload) = is_none payload.organization_id

abbrev pub require_platform_admin : Context → Request TenantDb (Unit {0})
require_platform_admin ctx = if is_platform_admin ctx then pure tt else throw forbidden

unfoldable pub list_organizations :
    Context → CursorQuery → Request TenantDb (CursorPage Organization)
unfolding list_organizations_page
list_organizations ctx query = do
  require_platform_admin ctx
  in_transaction (list_organizations_page query)

unfoldable pub get_organization_by_id : Context → ℕ → Request TenantDb Organization
unfolding find_organization
get_organization_by_id ctx id = do
  require_platform_admin ctx
  found ← in_transaction (find_organization id)
  or_throw found not_found
