-- ===== src/ResourceService/Privacy.antt =====
-- What a caller can learn of the resources of other organisations (§13.9 of
-- docs/architecture/ARCHITECTURE.md), and what the probe reports.
use multi_tenant_subscriptio.Base.{
  Bool, List, Option, Option-cases, [], ap, append-nil, arith, count, false, first, first-select,
  first_of_count_zero, inl, inr, is_none, none, not, select, some, sym, true, ℕ, ◌&&◌, ◌++◌, ◌==◌,
  ◌∙◌, ◌∷◌, ◌≡◌, ◌≤◌,
}
use multi_tenant_subscriptio.Common.{DomainEvent, TenantContextPayload, not_found}
use multi_tenant_subscriptio.Database.{Outcome, World, caller, returned, thrown}
use multi_tenant_subscriptio.ResourceService.Resources.{
  ResourceResponseDto, get_by_id, security_event, to_dto,
}
use multi_tenant_subscriptio.ResourceService.Tables.{Resource, ResourceDb, is_live}

-- The rows of one's own organisation.
abbrev pub own_rows : ℕ → ResourceDb → List Resource
own_rows o d = select (λ r. r.organization_id == o) d.resources

abbrev asked : ℕ → ℕ → Resource → Bool
asked o id r = r.organization_id == o && (r.id == id && r.organization_id == o && is_live r)

first-asked :
    (o id : ℕ) (d : ResourceDb) → first (asked o id) (own_rows o d) ≡ first (asked o id) d.resources
first-asked o id d =
    first-select (asked o id) (λ r. r.organization_id == o) d.resources (λ r h. ground arith)

abbrev answer_of : Option Resource → Outcome ResourceResponseDto
answer_of none = thrown not_found
answer_of (some r) = returned (to_dto r)

get_by_id-answer :
    (o id : ℕ) (p : TenantContextPayload) (w : World ResourceDb)
    → (get_by_id (caller o p) id w).0 ≡ answer_of (first (asked o id) w.db.resources)
unfolding get_by_id
get_by_id-answer o id p w = elim (Option-cases (first (asked o id) w.db.resources)) [
  | inl absent ↦ ground arith
  | inr (r, found) ↦ ground arith
]

-- The answer to a request for a resource depends on the rows of the caller's organisation only:
-- whether the id is that of another organisation's resource or of none makes no difference to it.
pub get_by_id-no_oracle :
    (o id : ℕ) (p : TenantContextPayload) (w w' : World ResourceDb)
    → own_rows o w.db ≡ own_rows o w'.db
    → (get_by_id (caller o p) id w).0 ≡ (get_by_id (caller o p) id w').0
get_by_id-no_oracle o id p w w' same =
    get_by_id-answer o id p w
    ∙ ap answer_of
        (sym (first-asked o id w.db) ∙ ap (first (asked o id)) same ∙ first-asked o id w'.db)
    ∙ sym (get_by_id-answer o id p w')

abbrev reports : Bool → TenantContextPayload → ℕ → List DomainEvent
reports true payload id = security_event payload id ∷ []
reports false payload id = []

-- A request for a resource that the caller's organisation does not have is answered with not_found,
-- writes nothing, and is reported as a security event exactly if some row has the id.
pub get_by_id-reports :
    (o id : ℕ) (p : TenantContextPayload) (w : World ResourceDb)
    → first (asked o id) w.db.resources ≡ none
    → get_by_id (caller o p) id w ≡ (
      thrown not_found,
      record w {
        published =
            w.published
            ++ reports
                (not (is_none (first (λ r. r.id == id) w.db.resources)))
                (record p { organization_id = some o })
                id;
      },
    )
unfolding get_by_id
get_by_id-reports o id p w absent =
    elim (Option-cases (first (λ (r : Resource). r.id == id) w.db.resources)) [
      | inl nowhere ↦ ground (arith, append-nil w.published)
      | inr (r, elsewhere) ↦ ground arith
    ]

absent_when_deleted :
    (o id : ℕ) (rows : List Resource) {r : Resource}
    → count (λ (r : Resource). r.id == id) rows ≤ 1
    → first (λ (r : Resource). r.id == id) rows ≡ some r
    → is_live r ≡ false
    → first (asked o id) rows ≡ none
absent_when_deleted o id [] once found dead = cc
absent_when_deleted o id (x ∷ rows) {r} once found dead = ground (
  arith,
  absent_when_deleted o id rows {r = r},
  first_of_count_zero (asked o id) (λ (r : Resource). r.id == id) rows (λ x h. ground arith),
)

-- A request for a resource of the caller's own organisation that has been deleted is reported as an
-- attempt on another tenant's resource, where no two resources have the same id.
get_by_id-reports_deleted :
    (o id : ℕ) (p : TenantContextPayload) (w : World ResourceDb) (r : Resource)
    → count (λ (r : Resource). r.id == id) w.db.resources ≤ 1
    → first (λ (r : Resource). r.id == id) w.db.resources ≡ some r
    → r.organization_id ≡ o
    → is_live r ≡ false
    → get_by_id (caller o p) id w ≡ (
      thrown not_found,
      record w {
        published = w.published ++ security_event (record p { organization_id = some o }) id ∷ [];
      },
    )
get_by_id-reports_deleted o id p w r once found own dead =
    ground
      (arith, get_by_id-reports o id p w (absent_when_deleted o id w.db.resources once found dead))
