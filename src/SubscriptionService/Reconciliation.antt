-- ===== src/SubscriptionService/Reconciliation.antt =====
-- The copy of the storage counter follows the events and stays within the limit.
use multi_tenant_subscriptio.Base.{
  Bool, List, [], all_where-one, arith, count, count_mono, first, first-update_where, first_holds,
  leb, min, refl, some, true, update_where, ℕ, ◌&&◌, ◌+◌, ◌-◌, ◌==◌, ◌∙◌, ◌∷◌, ◌≡◌, ◌≤◌,
}
use multi_tenant_subscriptio.Common.{EventType, resource_created, resource_deleted}
use multi_tenant_subscriptio.Database.{World, returned}
use multi_tenant_subscriptio.SubscriptionService.Repositories.{update_used_storage_bytes}
use multi_tenant_subscriptio.SubscriptionService.StorageReconciliation.{
  handle_resource_event, moved_by,
}
use multi_tenant_subscriptio.SubscriptionService.Tables.{Subscription, SubscriptionDb}

abbrev own : ℕ → Subscription → Bool
own o s = s.organization_id == o && s.organization_id == o

first-own :
    (o : ℕ) (xs : List Subscription) → first (own o) xs ≡ first (λ s. s.organization_id == o) xs
first-own o [] = refl
first-own o (x ∷ xs) = ground (arith, first-own o xs)

abbrev shown : ℕ → ℕ → Subscription → Subscription
shown value now s = record s { used_storage_bytes = value; updated_at = now }

-- After the handler has returned, the organisation's subscription shows `value`.
abbrev pub ShowsAfter : ℕ → ℕ → ℕ → World SubscriptionDb → Subscription → EventType → ℕ → Type 0
ShowsAfter o now size_delta w s event_type value =
    ((handle_resource_event now event_type (some o) size_delta w).0 ≡ returned tt)
    × (first (λ s. s.organization_id == o)
          (handle_resource_event now event_type (some o) size_delta w).1.db.subscriptions
        ≡ some (record s { used_storage_bytes = value; updated_at = now }))

module _ (o now size_delta : ℕ) (w : World SubscriptionDb) (s : Subscription)
    (once : count (λ (s : Subscription). s.organization_id == o) w.db.subscriptions ≤ 1)
    (row : first (λ s. s.organization_id == o) w.db.subscriptions ≡ some s) where
  row-shown :
      (value : ℕ)
      → first
          (λ s. s.organization_id == o)
          (update_where (own o) (shown value now) w.db.subscriptions)
        ≡ some (shown value now s)
  row-shown value =
      let self : own o s ≡ true =
        ground (arith, first_holds (λ s. s.organization_id == o) w.db.subscriptions row) in
      first-update_where (λ s. s.organization_id == o) (own o) (shown value now) w.db.subscriptions
        (λ y h. refl) row
      ∙ rw self refl

  update-shown :
      (value : ℕ)
      → value ≤ s.max_storage_snapshot
      → update_used_storage_bytes o value now (record { current_org = some o; tables = w.db }) ≡ (
        returned tt,
        record {
          current_org = some o;
          tables = record w.db {
            subscriptions = update_where (own o) (shown value now) w.db.subscriptions;
          };
        },
      )
  unfolding update_used_storage_bytes
  update-shown value le = ground (
    arith,
    first-own o w.db.subscriptions,
    all_where-one (own o) (λ s. leb value s.max_storage_snapshot) w.db.subscriptions {x = s}
        (ground (
          arith,
          count_mono (own o) (λ s. s.organization_id == o) w.db.subscriptions (λ x h. ground arith),
        )),
  )

  shown_after :
      (event_type : EventType) (n : ℕ)
      → moved_by event_type s.used_storage_bytes size_delta ≡ some n
      → ShowsAfter o now size_delta w s event_type (min s.max_storage_snapshot n)
  unfolding handle_resource_event
  shown_after event_type n moved = (
    ground (
      arith,
      first-own o w.db.subscriptions,
      update-shown (min s.max_storage_snapshot n) (omega arith),
      row-shown (min s.max_storage_snapshot n),
    ),
    ground (
      arith,
      first-own o w.db.subscriptions,
      update-shown (min s.max_storage_snapshot n) (omega arith),
      row-shown (min s.max_storage_snapshot n),
    ),
  )

  -- An event that a resource was created or deleted is always taken in, for an organisation with one
  -- subscription: the copy of the counter becomes what it was plus the resource's bytes, or the
  -- plan's limit if that is less, and for a deletion what it was minus those bytes, zero at least,
  -- or the plan's limit if that is less.
  pub reconcile-clamps :
      ShowsAfter o now size_delta w s resource_created
        (min s.max_storage_snapshot (s.used_storage_bytes + size_delta))
      × ShowsAfter o now size_delta w s resource_deleted
          (min s.max_storage_snapshot (s.used_storage_bytes - size_delta))
  reconcile-clamps = (
    shown_after resource_created (s.used_storage_bytes + size_delta) refl,
    shown_after resource_deleted (s.used_storage_bytes - size_delta) refl,
  )
