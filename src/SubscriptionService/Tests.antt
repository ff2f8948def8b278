-- ===== src/SubscriptionService/Tests.antt =====
-- A small catalogue of plans, and the theorems at it.
use multi_tenant_subscriptio.Base.{[], arith, inr, none, refl, some, true, ℕ, ◌+◌, ◌∷◌, ◌≡◌}
use multi_tenant_subscriptio.Common.{
  TenantContextPayload, plan_changed, plan_limit_exceeded, resource_created, resource_deleted,
  seats, subscription_changed, subscription_events, user_invited,
}
use multi_tenant_subscriptio.Database.{Context, World, caller, returned, thrown}
use multi_tenant_subscriptio.SubscriptionService.PlanChange.{
  change_plan-exceeds, change_plan-fits, current_of,
}
use multi_tenant_subscriptio.SubscriptionService.Reconciliation.{ShowsAfter, reconcile-clamps}
use multi_tenant_subscriptio.SubscriptionService.Subscriptions.{change_plan}
use multi_tenant_subscriptio.SubscriptionService.Tables.{
  Plan, PlanCode, Subscription, SubscriptionDb, active, enterprise, free, pro,
}
use multi_tenant_subscriptio.SubscriptionService.Usage.{
  aggregate_of, get_aggregates, handle_seat_event,
}

abbrev context : TenantContextPayload
context = record {
  user_id = none;
  organization_id = none;
  roles = [];
  correlation_id = 0;
  iat = 0;
  exp = 60;
}

abbrev plan : PlanCode → ℕ → ℕ → Plan
plan code max_users max_storage_bytes = record {
  id = 10 + max_users;
  code = code;
  name = 3;
  max_users = max_users;
  max_storage_bytes = max_storage_bytes;
  is_active = true;
}

abbrev subscription : Subscription
subscription = record {
  id = 1;
  organization_id = 4;
  plan_id = 60;
  status = active;
  used_seats = 12;
  used_storage_bytes = 300;
  max_seats_snapshot = 50;
  max_storage_snapshot = 1000;
  updated_at = 0;
}

abbrev world : World SubscriptionDb
world = record {
  db = record {
    plans = plan free 5 100 ∷ plan pro 50 1000 ∷ plan enterprise 500 9000 ∷ [];
    subscriptions = subscription ∷ [];
    history = [];
  };
  published = [];
}

abbrev admin_context : Context
admin_context = caller 4 (record context { user_id = some 8 })

-- Too few seats and too few bytes.
change_plan-exceeds_example : change_plan admin_context 99 free world ≡ (
  thrown (
      plan_limit_exceeded (record {
        limit_type = seats;
        limit = 5;
        current = 12;
        plan_code = some 0;
        active_users = none;
        pending_invitations = none;
      })),
  world,
)
change_plan-exceeds_example =
    change_plan-exceeds 4 8 context 99 free world subscription (plan free 5 100) refl refl
      (inr (omega arith))

change_plan-fits_example :
    (current_of 4 (change_plan admin_context 99 enterprise world).1.db
      ≡ some (record {
        id = 1;
        organization_id = 4;
        plan_id = 510;
        status = active;
        used_seats = 12;
        used_storage_bytes = 300;
        max_seats_snapshot = 500;
        max_storage_snapshot = 9000;
        updated_at = 99;
      }))
    × ((change_plan admin_context 99 enterprise world).1.db.history
        ≡ record { organization_id = 4; from_plan_id = some 60; to_plan_id = 510; changed_by = 8 }
          ∷ [])
    × ((change_plan admin_context 99 enterprise world).1.published
        ≡ record {
          topic = subscription_events;
          event_type = subscription_changed;
          organization_id = some 4;
          actor_user_id = some 8;
          payload = plan_changed 60 510 2 500 9000;
        }
          ∷ [])
change_plan-fits_example =
    change_plan-fits 4 8 context 99 enterprise world subscription (plan enterprise 500 9000) refl
      refl (omega arith) (omega arith) (omega arith)

-- More than the plan allows, and more than there was.
reconcile-clamps_example :
    ShowsAfter 4 99 5000 world subscription resource_created 1000
    × ShowsAfter 4 99 5000 world subscription resource_deleted 0
reconcile-clamps_example = reconcile-clamps 4 99 5000 world subscription (omega arith) refl

-- Without a scope, and of whichever organisation.
aggregates_run :
    (get_aggregates (some 4) world).0 ≡ returned (aggregate_of subscription (plan pro 50 1000) ∷ [])
unfolding get_aggregates
aggregates_run = refl

alarm_run : (handle_seat_event user_invited (some 5) world).0 ≡ returned true
unfolding handle_seat_event
alarm_run = refl
