-- ===== src/ResourceService/StorageCount/Balance.antt =====
-- Each operation on resources keeps the counter right and within the limit.
use multi_tenant_subscriptio.Base.{
  Bool, Option, Option-cases, [], add_delta, arith, count, count_mono, first, first-append,
  first_by_key, first_holds, if◌then◌else◌, inl, inr, leb, neg, none, pos, refl, some, suc,
  sum_where-append, sum_where-update_one, update_where, zero, ℕ, ◌&&◌, ◌++◌, ◌+◌, ◌==◌, ◌∙◌, ◌∷◌,
  ◌≡◌, ◌≤◌, ◌⊎◌,
}
use multi_tenant_subscriptio.Common.{TenantContextPayload, forbidden}
use multi_tenant_subscriptio.Database.{Connection, Outcome, caller, pure, returned, thrown, ◌>>◌}
use multi_tenant_subscriptio.ResourceService.Repositories.{
  CreateResourceData, adjust_used_storage_bytes, first_limit, raised, resource_of,
  upsert_plan_limit,
}
use multi_tenant_subscriptio.ResourceService.Resources.{
  CreateResourceDto, create_work, remove_resource_work,
}
use multi_tenant_subscriptio.ResourceService.StorageCount.{
  AfterTx, IsBalanced, adjust-outcomes, counts_for, first-own_limit, limit_of, limit_of-update,
  live_bytes, on, own_limit,
}
use multi_tenant_subscriptio.ResourceService.Tables.{PlanLimitCache, Resource, ResourceDb, is_live}

abbrev pub stored : ℕ → ℕ → ℕ → CreateResourceData → ResourceDb → ResourceDb
stored o now id fields d = record d { resources = d.resources ++ resource_of id o now fields ∷ [] }

abbrev named : ℕ → ℕ → Resource → Bool
named o id r = r.organization_id == o && (r.id == id && r.organization_id == o && is_live r)

-- The WHERE clause of the UPDATE does not look at `deleted_at`.
abbrev keyed : ℕ → ℕ → Resource → Bool
keyed o id r = r.organization_id == o && (r.id == id && r.organization_id == o)

abbrev without : ℕ → ℕ → ℕ → ResourceDb → ResourceDb
without o now id d = record d {
  resources = update_where (keyed o id) (λ r. record r { deleted_at = some now }) d.resources;
}

live_bytes-without :
    (o now id : ℕ) (d : ResourceDb) {r : Resource}
    → ((id : ℕ) → count (λ (r : Resource). r.id == id) d.resources ≤ 1)
    → first (named o id) d.resources ≡ some r
    → live_bytes o (without o now id d) + r.size_bytes ≡ live_bytes o d
live_bytes-without o now id d {r} once found =
    let held = first_holds (named o id) d.resources found in
    let single : count (keyed o id) d.resources ≤ 1 = ground (
      arith,
      once id,
      count_mono (keyed o id) (λ r. r.id == id) d.resources (λ x h. ground arith),
    ) in
    sum_where-update_one (counts_for o) (keyed o id) (λ r. r.size_bytes)
      (λ r. record r { deleted_at = some now }) d.resources (λ y h. ground arith) single
      (first_by_key (keyed o id) (named o id) d.resources single found (ground arith))
      (ground arith)

-- What is stored for an organisation that gets the limit `limit`.
abbrev pub capped : (limit now organization_id : ℕ) → Option PlanLimitCache → PlanLimitCache
capped limit now organization_id none = record {
  organization_id = organization_id;
  max_storage_bytes = limit;
  used_storage_bytes = 0;
  updated_at = now;
}
capped limit now organization_id (some l) = record {
  organization_id = l.organization_id;
  max_storage_bytes = if leb l.used_storage_bytes limit then limit else l.used_storage_bytes;
  used_storage_bytes = l.used_storage_bytes;
  updated_at = now;
}

AfterTx-then :
    {A B : Type 0} (P : ResourceDb → Type 0) (b : B) (r : Outcome A × Connection ResourceDb)
    → AfterTx P r
    → AfterTx P (((λ _. r) >> pure b) r.1)
AfterTx-then P b (returned a, c) h = h
AfterTx-then P b (thrown e, c) h = tt

module _ (o now : ℕ) (p : TenantContextPayload) (d : ResourceDb) (h : IsBalanced o d) where
  -- Storing a resource keeps the organisation's counter equal to the bytes of its resources and
  -- within its limit.
  pub create_work-IsBalanced :
      (id created_by : ℕ) (dto : CreateResourceDto)
      → AfterTx (IsBalanced o) (create_work (caller o p) now id o created_by dto (on o d))
  unfolding create_work
  create_work-IsBalanced id created_by dto =
      let fields : CreateResourceData = record {
        name = dto.name;
        description = dto.description;
        size_bytes = dto.size_bytes;
        created_by = created_by;
      } in
      elim (Option-cases (limit_of o d)) [
        | inl missing ↦ ground (arith, first-own_limit o d.plan_limits)
        | inr (l, row) ↦ ground (
          arith,
          first-own_limit o d.plan_limits,
          adjust-outcomes o now (pos dto.size_bytes) l (stored o now id fields d) row,
          sum_where-append (counts_for o) (λ r. r.size_bytes) d.resources
              (resource_of id o now fields ∷ []),
        )
      ]

  limit_of-upsert :
      (limit : ℕ)
      → limit_of o (upsert_plan_limit now o limit (on o d)).1.tables
        ≡ some (capped limit now o (limit_of o d))
  unfolding upsert_plan_limit
  limit_of-upsert limit = elim (Option-cases (limit_of o d)) [
    | inl missing ↦ ground (
      arith,
      first-own_limit o d.plan_limits,
      first-append (λ l. l.organization_id == o) d.plan_limits (first_limit o now limit) missing,
    )
    | inr (l, row) ↦ ground (
      arith,
      first-own_limit o d.plan_limits,
      limit_of-update o (raised limit now) d (λ y. refl) row,
    )
  ]

  upsert-returns : (limit : ℕ) → (upsert_plan_limit now o limit (on o d)).0 ≡ returned tt
  unfolding upsert_plan_limit
  upsert-returns limit = elim (Option-cases (limit_of o d)) [
    | inl missing ↦ ground (arith, first-own_limit o d.plan_limits)
    | inr (l, row) ↦ ground (arith, first-own_limit o d.plan_limits)
  ]

  upsert-resources :
      (limit : ℕ) → (upsert_plan_limit now o limit (on o d)).1.tables.resources ≡ d.resources
  unfolding upsert_plan_limit
  upsert-resources limit = elim (Option-cases (limit_of o d)) [
    | inl missing ↦ ground (arith, first-own_limit o d.plan_limits)
    | inr (l, row) ↦ ground (arith, first-own_limit o d.plan_limits)
  ]

  -- A new limit for the organisation is always stored. The resources and the counter are left alone,
  -- or the counter is 0 where the organisation had none; the limit becomes that of the plan, or the
  -- counter where that is above it; and the counter is still right and within the limit.
  pub upsert-IsBalanced :
      (limit : ℕ)
      → let after = upsert_plan_limit now o limit (on o d) in
        (after.0 ≡ returned tt)
        × (after.1.tables.resources ≡ d.resources)
        × (limit_of o after.1.tables ≡ some (capped limit now o (limit_of o d)))
        × IsBalanced o after.1.tables
  upsert-IsBalanced limit =
      let done = upsert-returns limit in
      let kept = upsert-resources limit in
      let set = limit_of-upsert limit in
      elim (Option-cases (limit_of o d)) [
        | inl missing ↦ (done, kept, ground arith, ground arith)
        | inr (l, row) ↦ (done, kept, ground arith, ground arith)
      ]

  remove_resource_work-cases :
      (id : ℕ) (r : Resource) (l : PlanLimitCache)
      → first (named o id) d.resources ≡ some r
      → first (own_limit o) d.plan_limits ≡ some l
      → (remove_resource_work (caller o p) now o id (on o d) ≡ (thrown forbidden, on o d))
        ⊎ (remove_resource_work (caller o p) now o id (on o d)
            ≡ (adjust_used_storage_bytes now o (neg r.size_bytes) >> pure (some r))
                (on o (without o now id d)))
  unfolding remove_resource_work
  remove_resource_work-cases id r l found row = ground arith

  add_delta-neg : (n k m : ℕ) → add_delta n (neg k) ≡ some m → m + k ≡ n
  add_delta-neg n zero m e = ground arith
  add_delta-neg n (suc k) m e = ground arith

  remove_counts :
      (id : ℕ) (r : Resource) (l : PlanLimitCache)
      → ((id : ℕ) → count (λ (r : Resource). r.id == id) d.resources ≤ 1)
      → first (named o id) d.resources ≡ some r
      → limit_of o d ≡ some l
      → AfterTx
          (IsBalanced o)
          (adjust_used_storage_bytes now o (neg r.size_bytes) (on o (without o now id d)))
  remove_counts id r l once found row =
      elim (adjust-outcomes o now (neg r.size_bytes) l (without o now id d) row) [
        | inl refused ↦ ground arith
        | inr (n, moved, le, done, row') ↦ ground (
          arith,
          add_delta-neg l.used_storage_bytes r.size_bytes n moved,
          live_bytes-without o now id d once found,
        )
      ]

  -- Deleting a resource, where no two resources have the same id, keeps the organisation's counter
  -- equal to the bytes of its resources and within its limit.
  pub remove_resource_work-IsBalanced :
      ((id : ℕ) → count (λ (r : Resource). r.id == id) d.resources ≤ 1)
      → (id : ℕ) → AfterTx (IsBalanced o) (remove_resource_work (caller o p) now o id (on o d))
  unfolding remove_resource_work
  remove_resource_work-IsBalanced once id = elim (Option-cases (first (named o id) d.resources)) [
    | inl absent ↦ ground arith
    | inr (r, found) ↦ elim (Option-cases (limit_of o d)) [
      | inl missing ↦ ground (arith, first-own_limit o d.plan_limits)
      | inr (l, row) ↦
          elim (remove_resource_work-cases id r l found (first-own_limit o d.plan_limits ∙ row)) [
            | inl denied ↦ rw denied tt
            | inr done ↦ rw done (
                AfterTx-then (IsBalanced o) (some r)
                  (adjust_used_storage_bytes now o (neg r.size_bytes) (on o (without o now id d)))
                  (remove_counts id r l once found row))
          ]
    ]
  ]
