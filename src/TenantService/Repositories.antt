-- ===== src/TenantService/Repositories.antt =====
-- organizations/organization.repository.ts and onboarding/onboarding-saga.repository.ts.
use multi_tenant_subscriptio.Base.{
  Bool, List, Option, [], false, first, none, select, some, true, update_where, ℕ, ◌&&◌, ◌++◌, ◌+◌,
  ◌==◌, ◌||◌, ◌∷◌,
}
use multi_tenant_subscriptio.Common.{Error, organization_slug_taken, unique_violation}
use multi_tenant_subscriptio.Database.{Action, returned, thrown}
use multi_tenant_subscriptio.Pagination.{
  CursorPage, CursorQuery, Listing, after_cursor, by_time, fetched,
}
use multi_tenant_subscriptio.TenantService.Tables.{
  OnboardingSaga, Organization, OrganizationStatus, SagaState, TenantDb, pending, provisioning,
}

abbrev pub same_text : List ℕ → List ℕ → Bool
same_text [] [] = true
same_text [] (y ∷ ys) = false
same_text (x ∷ xs) [] = false
same_text (x ∷ xs) (y ∷ ys) = x == y && same_text xs ys

-- OrganizationRepository

unfoldable pub find_organization : ℕ → Action TenantDb (Option Organization)
find_organization id d = (returned (first (λ o. o.id == id) d.organizations), d)

-- The primary key, and uq_organizations_slug; a clash of either is reported as one of the slug.
unfoldable pub create_organization : ℕ → ℕ → (name slug : List ℕ) → Action TenantDb Organization
create_organization now id name slug d =
    let new : Organization = record {
      id = id;
      name = name;
      slug = slug;
      status = provisioning;
      created_at = now;
    } in
    elim (first (λ o. o.id == id || same_text o.slug slug) d.organizations) [
      | some _ ↦ (thrown organization_slug_taken, d)
      | none ↦ (returned new, record d { organizations = d.organizations ++ new ∷ [] })
    ]

unfoldable pub update_status : ℕ → OrganizationStatus → Action TenantDb (Unit {0})
update_status id status d = (
  returned tt,
  record d {
    organizations =
        update_where (λ o. o.id == id) (λ o. record o { status = status }) d.organizations;
  },
)

abbrev pub organizations_listing : Listing Organization
organizations_listing = by_time (λ o. o.created_at) (λ o. o.id)

unfoldable pub list_organizations_page : CursorQuery → Action TenantDb (CursorPage Organization)
list_organizations_page query d = (
  returned (
      fetched organizations_listing query
        (select (after_cursor organizations_listing query.cursor) d.organizations)),
  d,
)

-- OnboardingSagaRepository

unfoldable pub find_by_idempotency_key : ℕ → Action TenantDb (Option OnboardingSaga)
find_by_idempotency_key key d = (returned (first (λ s. s.idempotency_key == key) d.sagas), d)

abbrev pub new_saga : ℕ → ℕ → ℕ → OnboardingSaga
new_saga id key admin_email = record {
  id = id;
  idempotency_key = key;
  organization_id = none;
  state = pending;
  admin_email = admin_email;
  admin_user_id = none;
  last_error = none;
  failed_at = none;
  attempts = 0;
}

unfoldable pub create_saga : ℕ → ℕ → ℕ → Action TenantDb OnboardingSaga
create_saga id key admin_email d =
    elim (first (λ s. s.id == id || s.idempotency_key == key) d.sagas) [
      | some _ ↦ (thrown unique_violation, d)
      | none ↦ (
        returned (new_saga id key admin_email),
        record d { sagas = d.sagas ++ new_saga id key admin_email ∷ [] },
      )
    ]

-- The columns that a step of the saga sets: `none` leaves a column as it is.
pub record Patch : Type 0 where
  pub organization_id : Option ℕ
  pub admin_user_id : Option ℕ

abbrev or_old : Option ℕ → Option ℕ → Option ℕ
or_old none old = old
or_old (some new) old = some new

abbrev pub advanced : SagaState → Patch → OnboardingSaga → OnboardingSaga
advanced state patch s = record s {
  organization_id = or_old patch.organization_id s.organization_id;
  state = state;
  admin_user_id = or_old patch.admin_user_id s.admin_user_id;
  last_error = none;
  failed_at = none;
  attempts = s.attempts + 1;
}

-- `increment` and then `update`, of the same rows.
unfoldable pub advance : ℕ → SagaState → Patch → Action TenantDb (Unit {0})
advance id state patch d = (
  returned tt,
  record d { sagas = update_where (λ s. s.id == id) (advanced state patch) d.sagas },
)

abbrev pub failed : ℕ → Error → OnboardingSaga → OnboardingSaga
failed now error s = record s {
  last_error = some error;
  failed_at = some now;
  attempts = s.attempts + 1;
}

unfoldable pub mark_saga_failed : ℕ → ℕ → Error → Action TenantDb (Unit {0})
mark_saga_failed now id error d =
    (returned tt, record d { sagas = update_where (λ s. s.id == id) (failed now error) d.sagas })
