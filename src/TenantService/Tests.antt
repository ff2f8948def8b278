-- ===== src/TenantService/Tests.antt =====
-- A saga that stopped after its first step, and the theorems at it.
use multi_tenant_subscriptio.Base.{[], false, none, refl, some, true, ◌++◌, ◌∷◌, ◌≡◌}
use multi_tenant_subscriptio.Common.{
  onboarding_incomplete, organization_provisioned, provisioned, remote_failure,
}
use multi_tenant_subscriptio.Database.{World, returned, thrown}
use multi_tenant_subscriptio.TenantService.Onboarding.{
  Runtime, SignupDto, at_org_created, resume, to_response,
}
use multi_tenant_subscriptio.TenantService.Repositories.{new_saga}
use multi_tenant_subscriptio.TenantService.Resumption.{
  organization_event, organization_of, resume-completes, resume-credentials_refused, saga_at,
}
use multi_tenant_subscriptio.TenantService.Slug.{
  allowed, ends_with, every_char, single_dashes, slugify-wellformed, starts_with,
}
use multi_tenant_subscriptio.TenantService.Slugs.{is_dash, slugify}
use multi_tenant_subscriptio.TenantService.Tables.{
  OnboardingSaga, Organization, TenantDb, active, complete, org_created, provisioning_failed,
}

abbrev runtime : Runtime
runtime = record {
  now = 100;
  next_organization_id = 5;
  next_saga_id = 6;
  create_credentials = λ o email password. returned 30;
  assign_default_plan = λ o. returned 40;
  name_number = λ name. 0;
  claim = λ key. returned true;
}

abbrev down : Runtime
down = record runtime { create_credentials = λ o email password. thrown (remote_failure 503) }

abbrev request : SignupDto
request = record {
  idempotency_key = 1;
  organization_name = 65 ∷ 99 ∷ 32 ∷ 38 ∷ 32 ∷ 66 ∷ 45 ∷ [];
  admin_email = 2;
  admin_password = 3;
  admin_first_name = 4;
  admin_last_name = 5;
}

abbrev saga : OnboardingSaga
saga = record (new_saga 6 1 2) {
  state = org_created;
  organization_id = some 5;
  attempts = 2;
  last_error = some (remote_failure 503);
}

abbrev acme : Organization
acme = record {
  id = 5;
  name = 65 ∷ [];
  slug = 97 ∷ [];
  status = provisioning_failed;
  created_at = 7;
}

abbrev world : World TenantDb
world = record { db = record { organizations = acme ∷ []; sagas = saga ∷ [] }; published = [] }

-- 'Ac & B-' becomes 'ac-b'.
slug_of_request : slugify request.organization_name ≡ 97 ∷ 99 ∷ 45 ∷ 98 ∷ []
unfolding slugify
slug_of_request = refl

slugify-wellformed_example :
    (every_char allowed (slugify request.organization_name) ≡ true)
    × (starts_with is_dash (slugify request.organization_name) ≡ false)
    × (ends_with is_dash (slugify request.organization_name) ≡ false)
    × (single_dashes false (slugify request.organization_name) ≡ true)
slugify-wellformed_example = slugify-wellformed request.organization_name

resume-credentials_refused_example :
    ((resume down 6 request (at_org_created 5) world).0 ≡ thrown onboarding_incomplete)
    × (saga_at 6 (resume down 6 request (at_org_created 5) world).1.db
        ≡ some (record saga {
          state = org_created;
          last_error = some (remote_failure 503);
          failed_at = some 100;
          attempts = 3;
        }))
    × (organization_of 5 (resume down 6 request (at_org_created 5) world).1.db
        ≡ some (record acme { status = provisioning_failed }))
resume-credentials_refused_example =
    resume-credentials_refused down 6 5 request world saga acme refl refl 503 refl

resume-completes_example :
    ((resume runtime 6 request (at_org_created 5) world).0
      ≡ returned (to_response (record acme { status = active })))
    × (saga_at 6 (resume runtime 6 request (at_org_created 5) world).1.db
        ≡ some (record saga {
          state = complete;
          admin_user_id = some 30;
          last_error = none;
          failed_at = none;
          attempts = 5;
        }))
    × ((resume runtime 6 request (at_org_created 5) world).1.published
        ≡ [] ++ organization_event (some 5) organization_provisioned (provisioned 5 30 2 4 5) ∷ [])
resume-completes_example =
    resume-completes runtime 6 5 30 40 request saga acme refl refl world refl refl
