-- ===== src/SubscriptionService/Subscriptions.antt =====
-- subscriptions/subscriptions.service.ts.
use multi_tenant_subscriptio.Base.{Bool, Option, if◌then◌else◌, ltb, none, some, ℕ, ◌||◌}
use multi_tenant_subscriptio.Common.{
  DomainEvent, Error, EventType, Payload, assigned, not_found, plan_changed, plan_limit_exceeded,
  platform_admin_context, seats, storage, subscription_assigned, subscription_changed,
  subscription_events, type_error,
}
use multi_tenant_subscriptio.Database.{
  Context, Request, Tx, get_or_throw, or_throw, publish, pure, throw, transaction,
  transaction_for_organization, ◌>>=◌, ◌>>◌,
}
use multi_tenant_subscriptio.SubscriptionService.Repositories.{
  apply_plan_change, create_subscription, find_by_organization_id, find_default_plan,
  find_plan_by_code, find_plan_by_id, lock_by_organization_id, record_history,
}
use multi_tenant_subscriptio.SubscriptionService.Tables.{
  Plan, PlanCode, Subscription, SubscriptionDb, SubscriptionHistory, SubscriptionStatus, enterprise,
  free, pro,
}

abbrev pub acting_user : Context → Option ℕ
acting_user none = none
acting_user (some payload) = payload.user_id

abbrev pub subscription_event : Context → ℕ → EventType → Payload → DomainEvent
subscription_event ctx organization_id event_type payload = record {
  topic = subscription_events;
  event_type = event_type;
  organization_id = some organization_id;
  actor_user_id = acting_user ctx;
  payload = payload;
}

abbrev pub code_number : PlanCode → ℕ
code_number free = 0
code_number pro = 1
code_number enterprise = 2

abbrev pub first_entry : ℕ → Plan → SubscriptionHistory
first_entry organization_id plan = record {
  organization_id = organization_id;
  from_plan_id = none;
  to_plan_id = plan.id;
  changed_by = organization_id;
}

unfoldable pub assign_work : ℕ → ℕ → ℕ → Plan → Tx SubscriptionDb (Unit {0})
unfolding create_subscription record_history
assign_work now subscription_id organization_id plan =
    create_subscription
      (record {
        id = subscription_id;
        organization_id = organization_id;
        plan_id = plan.id;
        max_seats_snapshot = plan.max_users;
        max_storage_snapshot = plan.max_storage_bytes;
      })
      now
    >> record_history (first_entry organization_id plan)

-- `subscription_id` is the `randomUUID()` of the call; the answer is that id.
unfoldable pub assign_default_plan : Context → ℕ → ℕ → ℕ → Request SubscriptionDb ℕ
unfolding find_default_plan transaction_for_organization assign_work publish
assign_default_plan ctx now subscription_id organization_id = do
  plan ← find_default_plan
  transaction_for_organization organization_id
      (assign_work now subscription_id organization_id plan)
  publish (
      subscription_event ctx organization_id subscription_assigned (
        assigned subscription_id (code_number plan.code) plan.id plan.max_users
          plan.max_storage_bytes))
  pure subscription_id

pub record SubscriptionResponseDto : Type 0 where
  pub plan_code : PlanCode
  pub plan_name : ℕ
  pub status : SubscriptionStatus
  pub used_seats : ℕ
  pub max_seats : ℕ
  pub used_storage_bytes : ℕ
  pub max_storage_bytes : ℕ

abbrev pub to_subscription_dto : Subscription → Plan → SubscriptionResponseDto
to_subscription_dto s plan = record {
  plan_code = plan.code;
  plan_name = plan.name;
  status = s.status;
  used_seats = s.used_seats;
  max_seats = s.max_seats_snapshot;
  used_storage_bytes = s.used_storage_bytes;
  max_storage_bytes = s.max_storage_snapshot;
}

unfoldable pub current_work : ℕ → Tx SubscriptionDb SubscriptionResponseDto
unfolding find_by_organization_id find_plan_by_id
current_work organization_id = do
  found ← find_by_organization_id organization_id
  sub ← or_throw found not_found
  found_plan ← find_plan_by_id sub.plan_id
  plan ← or_throw found_plan not_found
  pure (to_subscription_dto sub plan)

unfoldable pub get_current : Context → Request SubscriptionDb SubscriptionResponseDto
unfolding get_or_throw transaction current_work
get_current ctx = do
  payload ← get_or_throw ctx
  organization_id ← or_throw payload.organization_id platform_admin_context
  transaction ctx (current_work organization_id)

-- `seatsOverBy > 0`, `storageOverBy > 0`
abbrev pub seats_exceeded : Subscription → Plan → Bool
seats_exceeded s plan = ltb plan.max_users s.used_seats

abbrev pub storage_exceeded : Subscription → Plan → Bool
storage_exceeded s plan = ltb plan.max_storage_bytes s.used_storage_bytes

abbrev pub downgrade_rejected : Subscription → Plan → Error
downgrade_rejected s plan = plan_limit_exceeded (record {
  limit_type = if seats_exceeded s plan then seats else storage;
  limit = if seats_exceeded s plan then plan.max_users else plan.max_storage_bytes;
  current = if seats_exceeded s plan then s.used_seats else s.used_storage_bytes;
  plan_code = some (code_number plan.code);
  active_users = none;
  pending_invitations = none;
})

abbrev pub change_entry : ℕ → ℕ → Subscription → Plan → SubscriptionHistory
change_entry organization_id user_id s plan = record {
  organization_id = organization_id;
  from_plan_id = some s.plan_id;
  to_plan_id = plan.id;
  changed_by = user_id;
}

-- What the transaction of `changePlan` writes after its check; it answers the plan that was left.
unfoldable pub apply_change : ℕ → ℕ → ℕ → Subscription → Plan → Tx SubscriptionDb ℕ
apply_change now organization_id user_id s plan = do
  apply_plan_change organization_id plan now
  record_history (change_entry organization_id user_id s plan)
  pure s.plan_id

-- The body of that transaction.
unfoldable pub change_plan_work : ℕ → ℕ → ℕ → Plan → Tx SubscriptionDb ℕ
unfolding lock_by_organization_id
change_plan_work now organization_id user_id plan = do
  found ← lock_by_organization_id organization_id
  s ← or_throw found not_found
  if seats_exceeded s plan || storage_exceeded s plan
      then throw (downgrade_rejected s plan)
      else apply_change now organization_id user_id s plan

-- `ctx.organizationId!` and `ctx.userId!`: the route is open to users of an organisation only.
unfoldable pub change_plan : Context → ℕ → PlanCode → Request SubscriptionDb SubscriptionResponseDto
unfolding get_or_throw find_plan_by_code transaction publish
change_plan ctx now code = do
  payload ← get_or_throw ctx
  organization_id ← or_throw payload.organization_id platform_admin_context
  user_id ← or_throw payload.user_id type_error
  found ← find_plan_by_code code
  plan ← or_throw found not_found
  from_plan_id ← transaction ctx (change_plan_work now organization_id user_id plan)
  publish (
      subscription_event ctx organization_id subscription_changed (
        plan_changed from_plan_id plan.id (code_number plan.code) plan.max_users
          plan.max_storage_bytes))
  get_current ctx
