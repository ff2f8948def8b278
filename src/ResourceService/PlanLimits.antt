-- ===== src/ResourceService/PlanLimits.antt =====
-- events/subscription-changed.consumer.ts: the ceiling that a plan sets.
use multi_tenant_subscriptio.Base.{Bool, Option, false, if◌then◌else◌, none, some, true, ℕ}
use multi_tenant_subscriptio.Common.{EventType, subscription_assigned, subscription_changed}
use multi_tenant_subscriptio.Database.{Request, pure, transaction_for_organization}
use multi_tenant_subscriptio.ResourceService.Repositories.{upsert_plan_limit}
use multi_tenant_subscriptio.ResourceService.Tables.{ResourceDb}

abbrev is_plan_limit_event : EventType → Bool
is_plan_limit_event subscription_assigned = true
is_plan_limit_event subscription_changed = true
is_plan_limit_event _ = false

-- `handle`. The payload's `maxStorageBytes` is `none` where it is missing or no number.
unfoldable pub handle_subscription_changed :
    ℕ → EventType → Option ℕ → Option ℕ → Request ResourceDb (Unit {0})
unfolding transaction_for_organization upsert_plan_limit
handle_subscription_changed now event_type organization_id max_storage_bytes =
    if is_plan_limit_event event_type
    then (elim organization_id [
      | none ↦ pure tt
      | some o ↦ elim max_storage_bytes [
        | none ↦ pure tt
        | some limit ↦ transaction_for_organization o (upsert_plan_limit now o limit)
      ]
    ])
    else pure tt
