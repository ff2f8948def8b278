-- ===== src/SubscriptionService/StorageReconciliation.antt =====
-- events/storage-reconciliation.consumer.ts: the copy of the storage counter that is shown.
use multi_tenant_subscriptio.Base.{
  Bool, Option, get_or, if◌then◌else◌, is_none, min, none, not, some, ℕ, ◌+◌, ◌-◌,
}
use multi_tenant_subscriptio.Common.{EventType, resource_created, resource_deleted}
use multi_tenant_subscriptio.Database.{Request, Tx, pure, transaction_for_organization, ◌>>=◌}
use multi_tenant_subscriptio.SubscriptionService.Repositories.{
  find_by_organization_id, update_used_storage_bytes,
}
use multi_tenant_subscriptio.SubscriptionService.Tables.{SubscriptionDb}

-- `Math.max(0, used + delta)` for the two kinds of event.
abbrev pub moved_by : EventType → ℕ → ℕ → Option ℕ
moved_by resource_created used size_delta = some (used + size_delta)
moved_by resource_deleted used size_delta = some (used - size_delta)
moved_by _ used size_delta = none

abbrev is_resource_event : EventType → Bool
is_resource_event e = not (is_none (moved_by e 0 0))

-- `size_delta` is the payload's `sizeDelta ?? 0`.
unfoldable pub reconcile_work : ℕ → EventType → ℕ → ℕ → Tx SubscriptionDb (Unit {0})
unfolding find_by_organization_id
reconcile_work now event_type organization_id size_delta = do
  found ← find_by_organization_id organization_id
  elim found [
    | none ↦ pure tt
    | some s ↦
        update_used_storage_bytes organization_id
          (min s.max_storage_snapshot
            (get_or (moved_by event_type s.used_storage_bytes size_delta) s.used_storage_bytes))
          now
  ]

-- `handle`
unfoldable pub handle_resource_event :
    ℕ → EventType → Option ℕ → ℕ → Request SubscriptionDb (Unit {0})
unfolding transaction_for_organization reconcile_work
handle_resource_event now event_type organization_id size_delta =
    if is_resource_event event_type
    then (elim organization_id [
      | none ↦ pure tt
      | some o ↦ transaction_for_organization o (reconcile_work now event_type o size_delta)
    ])
    else pure tt
