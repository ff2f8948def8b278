-- ===== src/ResourceService/StorageCount.antt =====
-- The storage counter of an organisation against its resources (§19.6 of
-- docs/architecture/ARCHITECTURE.md).
pub mod Balance
use multi_tenant_subscriptio.Base.{
  Bool, Bool-cases, List, Option, [], add_delta, all_where, all_where-first, arith, first,
  first-update_where, first_holds, get_or, inl, inr, none, refl, some, sum_where, true,
  update_where, ℕ, ℤ, ◌&&◌, ◌==◌, ◌∙◌, ◌∷◌, ◌≡◌, ◌≤◌, ◌⊎◌,
}
use multi_tenant_subscriptio.Common.{check_violation}
use multi_tenant_subscriptio.Database.{Connection, Outcome, returned, thrown}
use multi_tenant_subscriptio.ResourceService.Repositories.{
  adjust_used_storage_bytes, storage_allowed,
}
use multi_tenant_subscriptio.ResourceService.Tables.{PlanLimitCache, Resource, ResourceDb, is_live}

-- The bytes of the organisation's resources that are not deleted.
abbrev pub counts_for : ℕ → Resource → Bool
counts_for o r = r.organization_id == o && is_live r

abbrev pub live_bytes : ℕ → ResourceDb → ℕ
live_bytes o d = sum_where (counts_for o) (λ r. r.size_bytes) d.resources

abbrev pub limit_of : ℕ → ResourceDb → Option PlanLimitCache
limit_of o d = first (λ l. l.organization_id == o) d.plan_limits

abbrev pub BalancedBy : Option PlanLimitCache → ℕ → Type 0
BalancedBy none total = total ≡ 0
BalancedBy (some l) total =
    (total ≡ l.used_storage_bytes) × (l.used_storage_bytes ≤ l.max_storage_bytes)

-- The counter is the sum of what it counts, and within the plan's limit; an organisation whose limit
-- is not known yet stores nothing.
abbrev pub IsBalanced : ℕ → ResourceDb → Type 0
IsBalanced o d = BalancedBy (limit_of o d) (live_bytes o d)

abbrev pub on : ℕ → ResourceDb → Connection ResourceDb
on o d = record { current_org = some o; tables = d }

abbrev pub own_limit : ℕ → PlanLimitCache → Bool
own_limit o l = l.organization_id == o && l.organization_id == o

pub first-own_limit :
    (o : ℕ) (xs : List PlanLimitCache)
    → first (own_limit o) xs ≡ first (λ l. l.organization_id == o) xs
first-own_limit o [] = refl
first-own_limit o (x ∷ xs) = ground (arith, first-own_limit o xs)

abbrev pub AfterTx :
    {A : Type 0} → (ResourceDb → Type 0) → Outcome A × Connection ResourceDb → Type 0
AfterTx P (returned a, c) = P c.tables
AfterTx P (thrown e, c) = Unit

abbrev moved : ℕ → ℤ → PlanLimitCache → PlanLimitCache
moved now delta l = record l {
  used_storage_bytes = get_or (add_delta l.used_storage_bytes delta) l.used_storage_bytes;
  updated_at = now;
}

abbrev fits : ℤ → PlanLimitCache → Bool
fits delta l = storage_allowed (add_delta l.used_storage_bytes delta) l.max_storage_bytes

abbrev shifted : ℕ → ℕ → ℤ → ResourceDb → ResourceDb
shifted o now delta d = record d {
  plan_limits = update_where (own_limit o) (moved now delta) d.plan_limits;
}

storage_allowed-some :
    (v : Option ℕ) (limit : ℕ)
    → storage_allowed v limit ≡ true
    → (n : ℕ) × (v ≡ some n) × (n ≤ limit)
storage_allowed-some none limit h = cc
storage_allowed-some (some n) limit h = (n, refl, ground arith)

own_limit_self :
    (o : ℕ) (d : ResourceDb) {l : PlanLimitCache} → limit_of o d ≡ some l → own_limit o l ≡ true
own_limit_self o d {l} row =
    ground (arith, first_holds (λ l. l.organization_id == o) d.plan_limits row)

pub limit_of-update :
    (o : ℕ) (f : PlanLimitCache → PlanLimitCache) (d : ResourceDb) {l : PlanLimitCache}
    → ((y : PlanLimitCache) → (f y).organization_id ≡ y.organization_id)
    → limit_of o d ≡ some l
    → first (λ l. l.organization_id == o) (update_where (own_limit o) f d.plan_limits) ≡ some (f l)
limit_of-update o f d {l} same row =
    first-update_where (λ l. l.organization_id == o) (own_limit o) f d.plan_limits
      (λ y h. ground (arith, same y)) row
    ∙ rw (own_limit_self o d row) refl

-- The counter's UPDATE moves the one row of the organisation, or is refused and changes nothing.
pub adjust-outcomes :
    (o now : ℕ) (delta : ℤ) (l : PlanLimitCache) (d : ResourceDb)
    → limit_of o d ≡ some l
    → (adjust_used_storage_bytes now o delta (on o d) ≡ (thrown check_violation, on o d))
      ⊎ ((n : ℕ) × (add_delta l.used_storage_bytes delta ≡ some n)
          × (n ≤ l.max_storage_bytes)
          × (adjust_used_storage_bytes now o delta (on o d)
              ≡ (returned tt, on o (shifted o now delta d)))
          × (limit_of o (shifted o now delta d)
              ≡ some (record l { used_storage_bytes = n; updated_at = now })))
unfolding adjust_used_storage_bytes
adjust-outcomes o now delta l d row =
    elim (Bool-cases (all_where (own_limit o) (fits delta) d.plan_limits)) [
      | inr refused ↦ inl (rw refused refl)
      | inl good ↦
          let (n, e, le) = storage_allowed-some _ _ (
            all_where-first (own_limit o) (fits delta) d.plan_limits (λ l. l.organization_id == o)
              good row (own_limit_self o d row)) in
          inr (
            n,
            e,
            le,
            rw good refl,
            limit_of-update o (moved now delta) d (λ y. refl) row ∙ rw e refl,
          )
    ]
