-- ===== src/SubscriptionService/Tables.antt =====
-- The schema subs of core_db: subscriptions/subscription.entity.ts, plans/plan.entity.ts,
-- subscriptions/subscription-history.entity.ts and the migration that creates them.
use multi_tenant_subscriptio.Base.{Bool, List, Option, false, leb, true, ℕ, ◌&&◌}
use multi_tenant_subscriptio.Database.{Table}

pub data PlanCode : Type 0 where
  free pro enterprise : PlanCode

abbrev pub same_plan : PlanCode → PlanCode → Bool
same_plan free free = true
same_plan pro pro = true
same_plan enterprise enterprise = true
same_plan _ _ = false

pub record Plan : Type 0 where
  pub id : ℕ
  pub code : PlanCode
  pub name : ℕ
  pub max_users : ℕ
  pub max_storage_bytes : ℕ
  pub is_active : Bool

pub data SubscriptionStatus : Type 0 where
  active cancelled : SubscriptionStatus

pub record Subscription : Type 0 where
  pub id : ℕ
  pub organization_id : ℕ
  pub plan_id : ℕ
  pub status : SubscriptionStatus
  pub used_seats : ℕ
  pub used_storage_bytes : ℕ
  pub max_seats_snapshot : ℕ
  pub max_storage_snapshot : ℕ
  pub updated_at : ℕ

pub record SubscriptionHistory : Type 0 where
  pub organization_id : ℕ
  pub from_plan_id : Option ℕ
  pub to_plan_id : ℕ
  pub changed_by : ℕ

pub record SubscriptionDb : Type 0 where
  pub plans : List Plan
  pub subscriptions : List Subscription
  pub history : List SubscriptionHistory

abbrev pub subscriptions_table : Table SubscriptionDb Subscription
subscriptions_table = record {
  rows = λ d. d.subscriptions;
  put = λ d rows. record d { subscriptions = rows };
  owner = λ s. s.organization_id;
}

abbrev pub history_table : Table SubscriptionDb SubscriptionHistory
history_table = record {
  rows = λ d. d.history;
  put = λ d rows. record d { history = rows };
  owner = λ h. h.organization_id;
}

-- ck_subscriptions_seats, ck_subscriptions_storage.
abbrev pub within_limits : Subscription → Bool
within_limits s =
    leb s.used_seats s.max_seats_snapshot && leb s.used_storage_bytes s.max_storage_snapshot
