-- ===== src/TenantService/Resumption.antt =====
-- What an attempt at onboarding leaves of the saga.
use multi_tenant_subscriptio.Base.{
  Option, [], arith, first, first-update_where, first_holds, none, refl, some, true, update_where,
  ℕ, ◌++◌, ◌+◌, ◌==◌, ◌∙◌, ◌∷◌, ◌≡◌,
}
use multi_tenant_subscriptio.Common.{
  DomainEvent, Error, EventType, Payload, onboarding_failure, onboarding_incomplete,
  organization_events, organization_provisioned, provisioned, remote_failure,
}
use multi_tenant_subscriptio.Database.{World, returned, thrown}
use multi_tenant_subscriptio.TenantService.Onboarding.{
  Runtime, SignupDto, at_org_created, from_credentials, from_organization, from_subscribed,
  handle_failure, no_patch, reached, resume, steps, stopped, to_response,
}
use multi_tenant_subscriptio.TenantService.Repositories.{Patch, advanced, failed}
use multi_tenant_subscriptio.TenantService.Tables.{
  OnboardingSaga, Organization, OrganizationStatus, SagaState, TenantDb, active, complete,
  credentials_created, provisioning_failed, subscribed,
}

abbrev pub saga_at : ℕ → TenantDb → Option OnboardingSaga
saga_at id d = first (λ s. s.id == id) d.sagas

abbrev pub status_of : Option Organization → Option OrganizationStatus
status_of none = none
status_of (some o) = some o.status

abbrev pub organization_of : ℕ → TenantDb → Option Organization
organization_of id d = first (λ o. o.id == id) d.organizations

saga_at-update :
    (id : ℕ) (f : OnboardingSaga → OnboardingSaga) (d : TenantDb) {s : OnboardingSaga}
    → ((y : OnboardingSaga) → (f y).id ≡ y.id)
    → saga_at id d ≡ some s
    → first (λ s. s.id == id) (update_where (λ s. s.id == id) f d.sagas) ≡ some (f s)
saga_at-update id f d {s} same found =
    let self : (s.id == id) ≡ true = first_holds (λ s. s.id == id) d.sagas found in
    first-update_where (λ s. s.id == id) (λ s. s.id == id) f d.sagas (λ y h. ground (arith, same y))
      found
    ∙ rw self refl

organization_of-update :
    (id : ℕ) (status : OrganizationStatus) (d : TenantDb) {o : Organization}
    → organization_of id d ≡ some o
    → first
        (λ o. o.id == id)
        (update_where (λ o. o.id == id) (λ o. record o { status = status }) d.organizations)
      ≡ some (record o { status = status })
organization_of-update id status d {o} found =
    let self : (o.id == id) ≡ true = first_holds (λ o. o.id == id) d.organizations found in
    first-update_where (λ o. o.id == id) (λ o. o.id == id) (λ o. record o { status = status })
      d.organizations (λ y h. refl) found
    ∙ rw self refl

abbrev noted : ℕ → ℕ → Error → ℕ → TenantDb → TenantDb
noted now saga_id e o d = record d {
  sagas = update_where (λ s. s.id == saga_id) (failed now e) d.sagas;
  organizations =
      update_where (λ o'. o'.id == o) (λ o'. record o' { status = provisioning_failed })
        d.organizations;
}

abbrev now_at : ℕ → SagaState → Patch → TenantDb → TenantDb
now_at saga_id state patch d = record d {
  sagas = update_where (λ s. s.id == saga_id) (advanced state patch) d.sagas;
}

abbrev opened : ℕ → ℕ → TenantDb → TenantDb
opened saga_id o d = now_at saga_id complete no_patch (record d {
  organizations =
      update_where (λ o'. o'.id == o) (λ o'. record o' { status = active }) d.organizations;
})

abbrev pub organization_event : Option ℕ → EventType → Payload → DomainEvent
organization_event organization_id event_type payload = record {
  topic = organization_events;
  event_type = event_type;
  organization_id = organization_id;
  actor_user_id = none;
  payload = payload;
}

module _ (rt : Runtime) (saga_id o : ℕ) (dto : SignupDto) (w : World TenantDb) (s : OnboardingSaga)
    (org : Organization) (saga : saga_at saga_id w.db ≡ some s)
    (exists : organization_of o w.db ≡ some org) where
  module _ (status : ℕ)
      (refused : rt.create_credentials o dto.admin_email dto.admin_password
        ≡ thrown (remote_failure status)) where
    steps-refused :
        steps rt saga_id dto (at_org_created o) w
        ≡ (stopped (record { organization_id = some o; error = remote_failure status }), w)
    unfolding steps
    steps-refused = rw (refused, refused) refl

    resume-refused : resume rt saga_id dto (at_org_created o) w ≡ (
      thrown onboarding_incomplete,
      record w {
        db = noted rt.now saga_id (remote_failure status) o w.db;
        published =
            w.published
            ++ organization_event
                (some o)
                EventType.onboarding_failed
                (onboarding_failure saga_id (some o) (remote_failure status))
              ∷ [];
      },
    )
    unfolding resume handle_failure
    resume-refused = rw (steps-refused, steps-refused) refl

    -- If auth-service refuses to create the credentials, a saga that goes on from a created
    -- organisation ends the attempt with onboarding_incomplete. The stored saga notes the error, its
    -- time and one attempt more, and keeps everything else, the state that it is in among it; the
    -- organisation is marked as failed, whatever its status.
    pub resume-credentials_refused :
        ((resume rt saga_id dto (at_org_created o) w).0 ≡ thrown onboarding_incomplete)
        × (saga_at saga_id (resume rt saga_id dto (at_org_created o) w).1.db
            ≡ some (record s {
              last_error = some (remote_failure status);
              failed_at = some rt.now;
              attempts = s.attempts + 1;
            }))
        × (organization_of o (resume rt saga_id dto (at_org_created o) w).1.db
            ≡ some (record org { status = provisioning_failed }))
    resume-credentials_refused = (
      rw resume-refused refl,
      rw resume-refused
          (saga_at-update saga_id (failed rt.now (remote_failure status)) w.db (λ y. refl) saga),
      rw resume-refused (organization_of-update o provisioning_failed w.db exists),
    )

  from_subscribed-completes :
      (u : ℕ)
      → from_subscribed saga_id dto o u w ≡ (
        reached (record org { status = active }),
        record w {
          db = opened saga_id o w.db;
          published =
              w.published
              ++ organization_event
                  (some o)
                  organization_provisioned
                  (provisioned o u dto.admin_email dto.admin_first_name dto.admin_last_name)
                ∷ [];
        },
      )
  unfolding from_subscribed
  from_subscribed-completes u = ground (arith, organization_of-update o active w.db exists)

module _ (rt : Runtime) (saga_id o u subscription : ℕ) (dto : SignupDto) (s : OnboardingSaga)
    (org : Organization)
    (minted : rt.create_credentials o dto.admin_email dto.admin_password ≡ returned u)
    (assigned : rt.assign_default_plan o ≡ returned subscription) where
  from_credentials-proceeds :
      (w : World TenantDb)
      → from_credentials rt saga_id dto o u w
        ≡ from_subscribed saga_id dto o u
            (record w { db = now_at saga_id subscribed no_patch w.db })
  unfolding from_credentials
  from_credentials-proceeds w = rw (assigned, assigned) refl

  abbrev with_user : World TenantDb → World TenantDb
  with_user w = record w {
    db = now_at saga_id credentials_created (record no_patch { admin_user_id = some u }) w.db;
  }

  from_organization-proceeds :
      (w : World TenantDb)
      → from_organization rt saga_id dto o w ≡ from_credentials rt saga_id dto o u (with_user w)
  unfolding from_organization
  from_organization-proceeds w = rw (minted, minted) refl

  abbrev with_plan : World TenantDb → World TenantDb
  with_plan w = record w { db = now_at saga_id subscribed no_patch w.db }

  abbrev finished : World TenantDb → World TenantDb
  finished w = record w {
    db = opened saga_id o w.db;
    published =
        w.published
        ++ organization_event (some o) organization_provisioned
            (provisioned o u dto.admin_email dto.admin_first_name dto.admin_last_name)
          ∷ [];
  }

  steps-finish :
      (w : World TenantDb)
      → saga_at saga_id w.db ≡ some s
      → organization_of o w.db ≡ some org
      → steps rt saga_id dto (at_org_created o) w
        ≡ (reached (record org { status = active }), finished (with_plan (with_user w)))
  unfolding steps
  steps-finish w saga exists =
      from_organization-proceeds w
      ∙ from_credentials-proceeds (with_user w)
      ∙ from_subscribed-completes rt saga_id o dto (with_plan (with_user w))
          (advanced subscribed no_patch
            (advanced credentials_created (record no_patch { admin_user_id = some u }) s))
          org (saga_plan w saga) exists u
    where
      saga_user :
          (w : World TenantDb)
          → saga_at saga_id w.db ≡ some s
          → saga_at saga_id (with_user w).db
            ≡ some (advanced credentials_created (record no_patch { admin_user_id = some u }) s)
      saga_user w saga = saga_at-update saga_id _ w.db (λ y. refl) saga

      saga_plan :
          (w : World TenantDb)
          → saga_at saga_id w.db ≡ some s
          → saga_at saga_id (with_plan (with_user w)).db
            ≡ some (
                advanced subscribed no_patch
                  (advanced credentials_created (record no_patch { admin_user_id = some u }) s))
      saga_plan w saga =
          saga_at-update saga_id (advanced subscribed no_patch) (with_user w).db (λ y. refl)
            (saga_user w saga)

  resume-finishes :
      (w : World TenantDb)
      → saga_at saga_id w.db ≡ some s
      → organization_of o w.db ≡ some org
      → resume rt saga_id dto (at_org_created o) w ≡ (
        returned (to_response (record org { status = active })),
        finished (with_plan (with_user w)),
      )
  unfolding resume
  resume-finishes w saga exists = rw (steps-finish w saga exists, steps-finish w saga exists) refl

  -- If auth-service and subscription-service answer, a saga that goes on from a created organisation
  -- completes in one attempt, whatever failed before: the answer names that organisation as active,
  -- the saga is complete with the user that auth-service minted, and the last event published gives
  -- that user as the first admin.
  pub resume-completes :
      (w : World TenantDb)
      → saga_at saga_id w.db ≡ some s
      → organization_of o w.db ≡ some org
      → ((resume rt saga_id dto (at_org_created o) w).0
          ≡ returned (to_response (record org { status = active })))
        × (saga_at saga_id (resume rt saga_id dto (at_org_created o) w).1.db
            ≡ some (record s {
              state = complete;
              admin_user_id = some u;
              last_error = none;
              failed_at = none;
              attempts = s.attempts + 1 + 1 + 1;
            }))
        × ((resume rt saga_id dto (at_org_created o) w).1.published
            ≡ w.published
              ++ organization_event
                  (some o)
                  organization_provisioned
                  (provisioned o u dto.admin_email dto.admin_first_name dto.admin_last_name)
                ∷ [])
  resume-completes w saga exists = (
    rw (resume-finishes w saga exists) refl,
    rw (resume-finishes w saga exists) (
        saga_at-update saga_id (advanced complete no_patch) (with_plan (with_user w)).db (λ y. refl)
          (saga_at-update saga_id (advanced subscribed no_patch) (with_user w).db (λ y. refl)
            (saga_at-update saga_id
              (advanced credentials_created (record no_patch { admin_user_id = some u })) w.db
              (λ y. refl) saga))),
    rw (resume-finishes w saga exists) refl,
  )
