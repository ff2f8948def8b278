-- ===== src/SubscriptionService/PlanChange.antt =====
-- A change of plan, and the copy of the storage counter, against the limits.
use multi_tenant_subscriptio.Base.{
  Bool, Bool-cases, List, Option, [], all_where-one, arith, count, count_mono, false, first,
  first-never, first-update_where, first_holds, if◌then◌else◌, inl, inr, ltb, none, refl, some,
  true, update_where, ℕ, ◌&&◌, ◌++◌, ◌<◌, ◌==◌, ◌||◌, ◌∙◌, ◌∷◌, ◌≡◌, ◌≤◌, ◌⊎◌,
}
use multi_tenant_subscriptio.Common.{
  TenantContextPayload, plan_changed, plan_limit_exceeded, seats, storage, subscription_changed,
  subscription_events,
}
use multi_tenant_subscriptio.Database.{Connection, Context, World, caller, returned, thrown}
use multi_tenant_subscriptio.SubscriptionService.Repositories.{
  apply_plan_change, on_plan, record_history,
}
use multi_tenant_subscriptio.SubscriptionService.Subscriptions.{
  apply_change, change_entry, change_plan, change_plan_work, code_number, downgrade_rejected,
  get_current, seats_exceeded, storage_exceeded,
}
use multi_tenant_subscriptio.SubscriptionService.Tables.{
  Plan, PlanCode, Subscription, SubscriptionDb, same_plan, within_limits,
}

abbrev own : ℕ → Subscription → Bool
own o s = s.organization_id == o && s.organization_id == o

abbrev pub current_of : ℕ → SubscriptionDb → Option Subscription
current_of o d = first (λ s. s.organization_id == o) d.subscriptions

first-own :
    (o : ℕ) (xs : List Subscription) → first (own o) xs ≡ first (λ s. s.organization_id == o) xs
first-own o [] = refl
first-own o (x ∷ xs) = ground (arith, first-own o xs)

abbrev on : ℕ → SubscriptionDb → Connection SubscriptionDb
on o d = record { current_org = some o; tables = d }

abbrev pub plan_of : PlanCode → SubscriptionDb → Option Plan
plan_of code d = first (λ p. same_plan p.code code) d.plans

abbrev pub exceeds : Subscription → Plan → Bool
exceeds s plan = seats_exceeded s plan || storage_exceeded s plan

module _ (o user_id : ℕ) (p : TenantContextPayload) (now : ℕ) (code : PlanCode)
    (w : World SubscriptionDb) (s : Subscription) (plan : Plan)
    (current : current_of o w.db ≡ some s) (target : plan_of code w.db ≡ some plan) where
  abbrev asker : Context
  asker = caller o (record p { user_id = some user_id })

  change_plan_work-exceeds :
      exceeds s plan ≡ true
      → change_plan_work now o user_id plan (on o w.db)
        ≡ (thrown (downgrade_rejected s plan), on o w.db)
  unfolding change_plan_work
  change_plan_work-exceeds over = ground (arith, first-own o w.db.subscriptions)

  exceeds-of :
      (plan.max_users < s.used_seats) ⊎ (plan.max_storage_bytes < s.used_storage_bytes)
      → exceeds s plan ≡ true
  exceeds-of (inl seats_over) = ground arith
  exceeds-of (inr bytes_over) = ground arith

  -- A change to a plan that allows fewer seats or fewer bytes than the organisation uses is
  -- answered with the limit that is exceeded and with what is used of it, those of the seats if both
  -- are exceeded, and changes nothing.
  pub change_plan-exceeds :
      (plan.max_users < s.used_seats) ⊎ (plan.max_storage_bytes < s.used_storage_bytes)
      → change_plan asker now code w ≡ (
        thrown (
            plan_limit_exceeded (
              if ltb plan.max_users s.used_seats
              then (record {
                limit_type = seats;
                limit = plan.max_users;
                current = s.used_seats;
                plan_code = some (code_number plan.code);
                active_users = none;
                pending_invitations = none;
              })
              else (record {
                limit_type = storage;
                limit = plan.max_storage_bytes;
                current = s.used_storage_bytes;
                plan_code = some (code_number plan.code);
                active_users = none;
                pending_invitations = none;
              }))),
        w,
      )
  unfolding change_plan
  change_plan-exceeds over = elim (Bool-cases (ltb plan.max_users s.used_seats)) [
    | inl seats_over ↦ ground (arith, change_plan_work-exceeds (exceeds-of over))
    | inr seats_fit ↦ ground (arith, change_plan_work-exceeds (exceeds-of over))
  ]

  abbrev changed : SubscriptionDb
  changed = record w.db {
    subscriptions = update_where (own o) (on_plan plan now) w.db.subscriptions;
    history = w.db.history ++ change_entry o user_id s plan ∷ [];
  }

  own_self : own o s ≡ true
  own_self = ground (arith, first_holds (λ s. s.organization_id == o) w.db.subscriptions current)

  own-once :
      count (λ (s : Subscription). s.organization_id == o) w.db.subscriptions ≤ 1
      → count (own o) w.db.subscriptions ≤ 1
  own-once once = ground (
    arith,
    count_mono (own o) (λ s. s.organization_id == o) w.db.subscriptions (λ x h. ground arith),
  )

  apply_plan_change-fits :
      exceeds s plan ≡ false
      → count (λ (s : Subscription). s.organization_id == o) w.db.subscriptions ≤ 1
      → apply_plan_change o plan now (on o w.db) ≡ (
        returned tt,
        on o (record w.db {
          subscriptions = update_where (own o) (on_plan plan now) w.db.subscriptions;
        }),
      )
  unfolding apply_plan_change
  apply_plan_change-fits fits once = ground (
    arith,
    first-own o w.db.subscriptions,
    all_where-one (own o) (λ s. within_limits (on_plan plan now s)) w.db.subscriptions {x = s}
        (own-once once),
  )

  record_history-appends :
      (d : SubscriptionDb)
      → record_history (change_entry o user_id s plan) (on o d) ≡ (
        returned tt,
        on o (record d { history = d.history ++ change_entry o user_id s plan ∷ [] }),
      )
  unfolding record_history
  record_history-appends d = ground (arith, first-never d.history)

  apply_change-fits :
      exceeds s plan ≡ false
      → count (λ (s : Subscription). s.organization_id == o) w.db.subscriptions ≤ 1
      → apply_change now o user_id s plan (on o w.db) ≡ (returned s.plan_id, on o changed)
  unfolding apply_change
  apply_change-fits fits once = ground (
    arith,
    apply_plan_change-fits fits once,
    record_history-appends (record w.db {
      subscriptions = update_where (own o) (on_plan plan now) w.db.subscriptions;
    }),
  )

  change_plan_work-fits :
      exceeds s plan ≡ false
      → count (λ (s : Subscription). s.organization_id == o) w.db.subscriptions ≤ 1
      → change_plan_work now o user_id plan (on o w.db) ≡ (returned s.plan_id, on o changed)
  unfolding change_plan_work
  change_plan_work-fits fits once =
      ground (arith, first-own o w.db.subscriptions, apply_change-fits fits once)

  -- A change to a plan that allows what the organisation uses goes through, where the organisation
  -- has one subscription: afterwards that has the plan, its two limits and the time of the change,
  -- and everything else that it had, both counters among it; one line of history is appended, and
  -- one event that gives the new limits is published.
  pub change_plan-fits :
      s.used_seats ≤ plan.max_users
      → s.used_storage_bytes ≤ plan.max_storage_bytes
      → count (λ (s : Subscription). s.organization_id == o) w.db.subscriptions ≤ 1
      → (current_of o (change_plan asker now code w).1.db
          ≡ some (record s {
            plan_id = plan.id;
            max_seats_snapshot = plan.max_users;
            max_storage_snapshot = plan.max_storage_bytes;
            updated_at = now;
          }))
        × ((change_plan asker now code w).1.db.history
            ≡ w.db.history
              ++ record {
                organization_id = o;
                from_plan_id = some s.plan_id;
                to_plan_id = plan.id;
                changed_by = user_id;
              }
                ∷ [])
        × ((change_plan asker now code w).1.published
            ≡ w.published
              ++ record {
                topic = subscription_events;
                event_type = subscription_changed;
                organization_id = some o;
                actor_user_id = some user_id;
                payload =
                    plan_changed s.plan_id plan.id
                      (code_number plan.code)
                      plan.max_users
                      plan.max_storage_bytes;
              }
                ∷ [])
  unfolding change_plan get_current
  change_plan-fits seats_fit bytes_fit once =
      let fits : exceeds s plan ≡ false = ground arith in
      (
        ground (arith, change_plan_work-fits fits once, kept),
        ground (arith, change_plan_work-fits fits once),
        ground (arith, change_plan_work-fits fits once),
      )
    where
      kept : current_of o changed ≡ some (on_plan plan now s)
      kept =
          first-update_where (λ s. s.organization_id == o) (own o) (on_plan plan now)
            w.db.subscriptions (λ y h. refl) current
          ∙ rw (own_self) refl
