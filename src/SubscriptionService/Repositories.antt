-- ===== src/SubscriptionService/Repositories.antt =====
-- plans/plan.repository.ts, subscriptions/subscription.repository.ts and
-- subscriptions/subscription-history.repository.ts. The table of plans has no policy.
use multi_tenant_subscriptio.Base.{Bool, List, Option, false, first, leb, select, ℕ, ◌==◌, ◌||◌}
use multi_tenant_subscriptio.Common.{internal_server_error}
use multi_tenant_subscriptio.Database.{
  Request, Tx, find_one, insert_row, or_throw, pure, returned, run_global, update_checked, ◌>>=◌,
  ◌>>◌,
}
use multi_tenant_subscriptio.SubscriptionService.Tables.{
  Plan, PlanCode, Subscription, SubscriptionDb, SubscriptionHistory, active, free, history_table,
  same_plan, subscriptions_table, within_limits,
}

unfoldable pub find_plan : (Plan → Bool) → Tx SubscriptionDb (Option Plan)
find_plan p c = (returned (first p c.tables.plans), c)

-- `findAll`, `findByCode` and `findDefault` open a transaction of their own.
unfoldable pub find_all_plans : Request SubscriptionDb (List Plan)
unfolding run_global
find_all_plans = run_global (λ c. (returned (select (λ p. p.is_active) c.tables.plans), c))

unfoldable pub find_plan_by_code : PlanCode → Request SubscriptionDb (Option Plan)
unfolding run_global find_plan
find_plan_by_code code = run_global (find_plan (λ p. same_plan p.code code))

unfoldable pub find_plan_by_id : ℕ → Tx SubscriptionDb (Option Plan)
unfolding find_plan
find_plan_by_id id = find_plan (λ p. p.id == id)

unfoldable pub find_default_plan : Request SubscriptionDb Plan
unfolding find_plan_by_code
find_default_plan = do plan ← find_plan_by_code free; or_throw plan internal_server_error

unfoldable pub find_by_organization_id : ℕ → Tx SubscriptionDb (Option Subscription)
unfolding find_one
find_by_organization_id organization_id =
    find_one subscriptions_table (λ s. s.organization_id == organization_id)

pub record CreateSubscriptionData : Type 0 where
  pub id : ℕ
  pub organization_id : ℕ
  pub plan_id : ℕ
  pub max_seats_snapshot : ℕ
  pub max_storage_snapshot : ℕ

abbrev pub subscription_of : CreateSubscriptionData → ℕ → Subscription
subscription_of fields now = record {
  id = fields.id;
  organization_id = fields.organization_id;
  plan_id = fields.plan_id;
  status = active;
  used_seats = 0;
  used_storage_bytes = 0;
  max_seats_snapshot = fields.max_seats_snapshot;
  max_storage_snapshot = fields.max_storage_snapshot;
  updated_at = now;
}

-- The id is a new random one. The organisation has a unique index.
unfoldable pub create_subscription : CreateSubscriptionData → ℕ → Tx SubscriptionDb Subscription
unfolding insert_row
create_subscription fields now =
    insert_row subscriptions_table
      (λ s. s.id == fields.id || s.organization_id == fields.organization_id)
      (subscription_of fields now)

-- The row lock orders transactions and changes nothing that one of them reads.
unfoldable pub lock_by_organization_id : ℕ → Tx SubscriptionDb (Option Subscription)
unfolding find_one
lock_by_organization_id organization_id =
    find_one subscriptions_table (λ s. s.organization_id == organization_id)

abbrev pub on_plan : Plan → ℕ → Subscription → Subscription
on_plan plan now s = record s {
  plan_id = plan.id;
  max_seats_snapshot = plan.max_users;
  max_storage_snapshot = plan.max_storage_bytes;
  updated_at = now;
}

unfoldable pub apply_plan_change : ℕ → Plan → ℕ → Tx SubscriptionDb (Unit {0})
unfolding update_checked
apply_plan_change organization_id plan now =
    update_checked subscriptions_table (λ s. s.organization_id == organization_id)
      (λ s. within_limits (on_plan plan now s)) (on_plan plan now)

unfoldable pub update_used_storage_bytes : ℕ → ℕ → ℕ → Tx SubscriptionDb (Unit {0})
unfolding update_checked
update_used_storage_bytes organization_id value now =
    update_checked subscriptions_table (λ s. s.organization_id == organization_id)
      (λ s. leb value s.max_storage_snapshot)
      (λ s. record s { used_storage_bytes = value; updated_at = now })

-- `SubscriptionHistoryRepository.record`
unfoldable pub record_history : SubscriptionHistory → Tx SubscriptionDb (Unit {0})
unfolding insert_row
record_history h = insert_row history_table (λ _. false) h >> pure tt
