-- ===== src/TenantService/Onboarding.antt =====
-- onboarding/onboarding.service.ts.
use multi_tenant_subscriptio.Base.{Bool, List, Option, none, some, ℕ}
use multi_tenant_subscriptio.Common.{
  Error, EventType, Payload, conflict, onboarding_failure, onboarding_incomplete, organization,
  organization_created, organization_events, organization_provisioned, organization_slug_taken,
  provisioned, type_error,
}
use multi_tenant_subscriptio.Database.{
  Action, Outcome, Request, World, await, or_throw, publish, pure, returned, throw, thrown, ◌>>=◌,
  ◌>>◌,
}
use multi_tenant_subscriptio.TenantService.Repositories.{
  Patch, advance, create_organization, create_saga, find_by_idempotency_key, find_organization,
  mark_saga_failed, update_status,
}
use multi_tenant_subscriptio.TenantService.Slugs.{slugify}
use multi_tenant_subscriptio.TenantService.Tables.{
  OnboardingSaga, Organization, OrganizationStatus, TenantDb, active, complete, credentials_created,
  in_transaction, org_created, pending, provisioning_failed, subscribed,
}

pub record SignupDto : Type 0 where
  pub idempotency_key : ℕ
  pub organization_name : List ℕ
  pub admin_email : ℕ
  pub admin_password : ℕ
  pub admin_first_name : ℕ
  pub admin_last_name : ℕ

-- The clock, the database's next ids, and the two services as their clients see them: an id, or an
-- error. `name_number` numbers the names, for the payload of an event.
pub record Runtime : Type 0 where
  pub now : ℕ
  pub next_organization_id : ℕ
  pub next_saga_id : ℕ
  pub create_credentials : (organization_id email password : ℕ) → Outcome ℕ
  pub assign_default_plan : (organization_id : ℕ) → Outcome ℕ
  pub name_number : List ℕ → ℕ
  -- what IdempotencyService answers to the claim of a key, or the error of Redis
  pub claim : ℕ → Outcome Bool

unfoldable pub publish_event : Option ℕ → EventType → Payload → Request TenantDb (Unit {0})
unfolding publish
publish_event organization_id event_type payload = publish (record {
  topic = organization_events;
  event_type = event_type;
  organization_id = organization_id;
  actor_user_id = none;
  payload = payload;
})

abbrev pub no_patch : Patch
no_patch = record { organization_id = none; admin_user_id = none }

unfoldable pub create_organization_step : Runtime → ℕ → SignupDto → Request TenantDb ℕ
unfolding slugify create_organization advance publish_event
create_organization_step rt saga_id dto = do
  organization_id ← in_transaction (do
    org ←
        create_organization rt.now rt.next_organization_id dto.organization_name
          (slugify dto.organization_name)
    advance saga_id org_created (record no_patch { organization_id = some org.id })
    pure org.id)
  publish_event (some organization_id) organization_created
      (organization organization_id (rt.name_number dto.organization_name))
  pure organization_id

unfoldable pub create_admin_credentials : Runtime → ℕ → ℕ → SignupDto → Request TenantDb ℕ
unfolding advance
create_admin_credentials rt saga_id organization_id dto = do
  user_id ← await (rt.create_credentials organization_id dto.admin_email dto.admin_password)
  in_transaction
      (advance saga_id credentials_created (record no_patch { admin_user_id = some user_id }))
  pure user_id

unfoldable pub assign_plan_step : Runtime → ℕ → ℕ → Request TenantDb (Unit {0})
unfolding advance
assign_plan_step rt saga_id organization_id =
    await (rt.assign_default_plan organization_id)
    >> in_transaction (advance saga_id subscribed no_patch)

unfoldable pub complete_onboarding : ℕ → ℕ → ℕ → SignupDto → Request TenantDb (Unit {0})
unfolding update_status advance publish_event
complete_onboarding saga_id organization_id admin_user_id dto =
    in_transaction (update_status organization_id active >> advance saga_id complete no_patch)
    >> publish_event (some organization_id) organization_provisioned (
        provisioned organization_id admin_user_id dto.admin_email dto.admin_first_name
          dto.admin_last_name)

abbrev pub mark_organization : Option ℕ → Action TenantDb (Unit {0})
mark_organization none = pure tt
mark_organization (some id) = update_status id provisioning_failed

unfoldable pub mark_failed : Runtime → ℕ → Option ℕ → Error → Request TenantDb (Unit {0})
unfolding update_status mark_saga_failed publish_event
mark_failed rt saga_id organization_id error =
    in_transaction (mark_saga_failed rt.now saga_id error >> mark_organization organization_id)
    >> publish_event organization_id EventType.onboarding_failed
        (onboarding_failure saga_id organization_id error)

pub record SignupResponseDto : Type 0 where
  pub organization_id : ℕ
  pub organization_name : List ℕ
  pub status : OrganizationStatus

abbrev pub to_response : Organization → SignupResponseDto
to_response o = record { organization_id = o.id; organization_name = o.name; status = o.status }

-- The state, the organisation and the user of the saga, as `resume` carries them along. The columns
-- that a state implies are set: `organizationId!` and `adminUserId!`.
pub data Progress : Type 0 where
  at_pending : Progress
  at_org_created : (organization_id : ℕ) → Progress
  at_credentials_created : (organization_id admin_user_id : ℕ) → Progress
  at_subscribed : (organization_id admin_user_id : ℕ) → Progress

-- The organisation that `markFailed` is told of.
abbrev pub organization_at : Progress → Option ℕ
organization_at at_pending = none
organization_at (at_org_created o) = some o
organization_at (at_credentials_created o u) = some o
organization_at (at_subscribed o u) = some o

-- A step that fails ends the attempt with what is known of the organisation by then.
pub record Failure : Type 0 where
  pub organization_id : Option ℕ
  pub error : Error

pub data Attempt : Type 0 where
  reached : Organization → Attempt
  stopped : Failure → Attempt

abbrev pub attempt_with :
    {A : Type 0}
    → Option ℕ
    → Request TenantDb A
    → (A → World TenantDb → Attempt × World TenantDb)
    → World TenantDb
    → Attempt × World TenantDb
attempt_with o step next w =
    let (r, w') = step w in
    elim r [
      | returned a ↦ next a w'
      | thrown e ↦ (stopped (record { organization_id = o; error = e }), w')
    ]

abbrev pub found_organization : ℕ → Request TenantDb Organization
unfolding find_organization
found_organization o = do found ← in_transaction (find_organization o); or_throw found type_error

unfoldable pub from_subscribed : ℕ → SignupDto → ℕ → ℕ → World TenantDb → Attempt × World TenantDb
unfolding complete_onboarding find_organization
from_subscribed saga_id dto o u =
    attempt_with (some o) (complete_onboarding saga_id o u dto)
      λ _. attempt_with (some o) (found_organization o) (λ org w. (reached org, w))

unfoldable pub from_credentials :
    Runtime → ℕ → SignupDto → ℕ → ℕ → World TenantDb → Attempt × World TenantDb
unfolding assign_plan_step
from_credentials rt saga_id dto o u =
    attempt_with (some o) (assign_plan_step rt saga_id o) (λ _. from_subscribed saga_id dto o u)

unfoldable pub from_organization :
    Runtime → ℕ → SignupDto → ℕ → World TenantDb → Attempt × World TenantDb
unfolding create_admin_credentials
from_organization rt saga_id dto o =
    attempt_with (some o) (create_admin_credentials rt saga_id o dto)
      (λ u. from_credentials rt saga_id dto o u)

-- The body of the `try` of `resume`: each branch falls through to the next.
unfoldable pub steps :
    Runtime → ℕ → SignupDto → Progress → World TenantDb → Attempt × World TenantDb
unfolding create_organization_step from_organization from_credentials from_subscribed
steps rt saga_id dto at_pending =
    attempt_with none (create_organization_step rt saga_id dto)
      (λ o. from_organization rt saga_id dto o)
steps rt saga_id dto (at_org_created o) = from_organization rt saga_id dto o
steps rt saga_id dto (at_credentials_created o u) = from_credentials rt saga_id dto o u
steps rt saga_id dto (at_subscribed o u) = from_subscribed saga_id dto o u

-- The `catch`.
unfoldable pub handle_failure : Runtime → ℕ → Failure → Request TenantDb SignupResponseDto
unfolding mark_failed
handle_failure rt saga_id failure = elim failure.error [
  | organization_slug_taken ↦ throw conflict
  | e ↦ mark_failed rt saga_id failure.organization_id failure.error >> throw onboarding_incomplete
]

unfoldable pub resume : Runtime → ℕ → SignupDto → Progress → Request TenantDb SignupResponseDto
unfolding steps handle_failure
resume rt saga_id dto progress w =
    let (attempt, w') = steps rt saga_id dto progress w in
    elim attempt [
      | reached org ↦ pure (to_response org) w'
      | stopped failure ↦ handle_failure rt saga_id failure w'
    ]

-- Where a saga stands; a column that its state implies is set.
abbrev pub progress_of : OnboardingSaga → Action (World TenantDb) Progress
progress_of s = elim s.state [
  | pending ↦ pure at_pending
  | org_created ↦ (do o ← or_throw s.organization_id type_error; pure (at_org_created o))
  | credentials_created ↦ (do
    o ← or_throw s.organization_id type_error
    u ← or_throw s.admin_user_id type_error
    pure (at_credentials_created o u))
  | subscribed ↦ (do
    o ← or_throw s.organization_id type_error
    u ← or_throw s.admin_user_id type_error
    pure (at_subscribed o u))
  | complete ↦ throw type_error
]

unfoldable pub find_or_create_saga : Runtime → SignupDto → Request TenantDb OnboardingSaga
unfolding find_by_idempotency_key create_saga
find_or_create_saga rt dto = do
  found ← in_transaction (find_by_idempotency_key dto.idempotency_key)
  elim found [
    | some saga ↦ pure saga
    | none ↦ in_transaction (create_saga rt.next_saga_id dto.idempotency_key dto.admin_email)
  ]

unfoldable pub answer_complete : OnboardingSaga → Request TenantDb SignupResponseDto
unfolding find_organization
answer_complete saga = do
  o ← or_throw saga.organization_id type_error
  org ← found_organization o
  pure (to_response org)

-- Whether this request claimed the key is only logged; an error of the claim is not caught.
unfoldable pub signup : Runtime → SignupDto → Request TenantDb SignupResponseDto
unfolding find_or_create_saga answer_complete resume
signup rt dto = do
  claimed ← await (rt.claim dto.idempotency_key)
  saga ← find_or_create_saga rt dto
  elim saga.state [
    | complete ↦ answer_complete saga
    | _ ↦ progress_of saga >>= λ progress. resume rt saga.id dto progress
  ]
