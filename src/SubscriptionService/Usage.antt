-- ===== src/SubscriptionService/Usage.antt =====
-- usage/usage.service.ts, with the database function that the first migration creates, and
-- events/missing-subscription-alarm.consumer.ts.
use multi_tenant_subscriptio.Base.{
  Bool, List, Option, [], false, first, if◌then◌else◌, is_none, none, select, some, true, ℕ, ◌==◌,
  ◌∷◌,
}
use multi_tenant_subscriptio.Common.{
  EventType, invitation_accepted, invitation_expired, user_created, user_invited, user_removed,
}
use multi_tenant_subscriptio.Database.{
  Request, Tx, find_one, pure, returned, run_global, transaction_for_organization, ◌>>=◌,
}
use multi_tenant_subscriptio.SubscriptionService.Tables.{
  Plan, PlanCode, Subscription, SubscriptionDb, subscriptions_table,
}

pub record UsageAggregateResponseDto : Type 0 where
  pub organization_id : ℕ
  pub plan_code : PlanCode
  pub used_seats : ℕ
  pub max_seats : ℕ
  pub used_storage_bytes : ℕ
  pub max_storage_bytes : ℕ

abbrev pub aggregate_of : Subscription → Plan → UsageAggregateResponseDto
aggregate_of s plan = record {
  organization_id = s.organization_id;
  plan_code = plan.code;
  used_seats = s.used_seats;
  max_seats = s.max_seats_snapshot;
  used_storage_bytes = s.used_storage_bytes;
  max_storage_bytes = s.max_storage_snapshot;
}

-- JOIN with the plan, whose id is a primary key.
abbrev pub aggregates : List Plan → List Subscription → List UsageAggregateResponseDto
aggregates plans [] = []
aggregates plans (s ∷ subscriptions) =
    let rest = aggregates plans subscriptions in
    elim (first (λ plan. plan.id == s.plan_id) plans) [
      | none ↦ rest
      | some plan ↦ aggregate_of s plan ∷ rest
    ]

abbrev pub asked_for : Option ℕ → Subscription → Bool
asked_for none s = true
asked_for (some organization_id) s = s.organization_id == organization_id

-- subs.get_usage_aggregates: SECURITY DEFINER, and its owner has BYPASSRLS.
unfoldable pub get_usage_aggregates : Option ℕ → Tx SubscriptionDb (List UsageAggregateResponseDto)
get_usage_aggregates organization_id c = (
  returned (aggregates c.tables.plans (select (asked_for organization_id) c.tables.subscriptions)),
  c,
)

unfoldable pub get_aggregates : Option ℕ → Request SubscriptionDb (List UsageAggregateResponseDto)
unfolding run_global get_usage_aggregates
get_aggregates organization_id = run_global (get_usage_aggregates organization_id)

-- SEAT_AFFECTING_EVENTS
abbrev pub is_seat_affecting : EventType → Bool
is_seat_affecting user_invited = true
is_seat_affecting user_created = true
is_seat_affecting user_removed = true
is_seat_affecting invitation_accepted = true
is_seat_affecting invitation_expired = true
is_seat_affecting _ = false

-- `handle`: whether the line about a missing subscription is logged.
unfoldable pub handle_seat_event : EventType → Option ℕ → Request SubscriptionDb Bool
unfolding transaction_for_organization find_one
handle_seat_event event_type organization_id =
    if is_seat_affecting event_type
    then (elim organization_id [
      | none ↦ pure false
      | some o ↦ (do
        found ←
            transaction_for_organization o
              (find_one subscriptions_table (λ s. s.organization_id == o))
        pure (is_none found))
    ])
    else pure false
