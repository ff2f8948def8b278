-- ===== src/AuditService/Scope.antt =====
-- Whose events a reader is shown.
use multi_tenant_subscriptio.Base.{
  Bool, Bool-cases, Option, Option-cases, ap, arith, every, every-map, every-select, false, inl,
  inr, is_none, map, none, not, refl, select, some, subst, sym, true, ℕ, ◌&&◌, ◌∙◌, ◌≡◌,
}
use multi_tenant_subscriptio.Common.{TenantContextPayload, forbidden, includes, platform_admin}
use multi_tenant_subscriptio.AuditService.Audit.{
  AuditDto, list_audit_events, list_security_events, metadata_only, require_platform_admin,
  to_full_dto, to_metadata_dto, with_payload,
}
use multi_tenant_subscriptio.AuditService.Repositories.{
  ListAuditQueryDto, audit_filter, audit_listing, audit_paging, list_all_for_platform_admin,
}
use multi_tenant_subscriptio.AuditService.Tables.{
  AuditDb, AuditRecord, AuditTable, audit_events_table, security_events_table, sees_record,
}
use multi_tenant_subscriptio.Database.{
  >>=_returned, Outcome, World, pure, returned, run_global, thrown, ◌>>=◌,
}
use multi_tenant_subscriptio.Pagination.{CursorPage, after_cursor, fetched, map_page}
use multi_tenant_subscriptio.Pagination.Items.{every-fetched}

abbrev pub organization_of : AuditDto → Option ℕ
organization_of (metadata_only m) = m.organization_id
organization_of (with_payload m payload) = m.organization_id

-- If the answer is a page, all its items pass the test.
abbrev pub if_page : {A : Type 0} → (A → Bool) → Outcome (CursorPage A) → Bool
if_page q (returned p) = every q p.items
if_page q (thrown e) = true

abbrev pub has_payload : AuditDto → Bool
has_payload (metadata_only m) = false
has_payload (with_payload m payload) = true

-- What may be shown in a context of this organisation, or of none.
abbrev pub may_see : Option ℕ → AuditDto → Bool
may_see organization_id dto =
    sees_record organization_id (organization_of dto)
    && not (is_none organization_id && has_payload dto)

module _ (t : AuditTable) (query : ListAuditQueryDto) (organization_id : Option ℕ)
    (scope : Option ℕ) (d : AuditDb) where
  -- The page that a connection with this scope is answered.
  abbrev shown_page : CursorPage AuditRecord
  shown_page = fetched audit_listing (audit_paging query) (
      select
        (λ r.
          (sees_record scope r.organization_id && audit_filter query organization_id r)
          && after_cursor audit_listing query.cursor r)
        (t.rows d))

  shown_page-items :
      (q : AuditDto → Bool) (f : AuditRecord → AuditDto)
      → ((r : AuditRecord) → sees_record scope r.organization_id ≡ true → q (f r) ≡ true)
      → every q (map f shown_page.items) ≡ true
  shown_page-items q f shows =
      every-map q f shown_page.items
      ∙ every-fetched audit_listing (λ r. q (f r)) (audit_paging query) _
          (every-select (λ r. q (f r)) _ (t.rows d) (λ r h. shows r (ground arith)))

-- Each event that a reader of the audit log is answered belongs to the organisation of the reader's
-- own context. A platform admin, whose context has no organisation, is shown only events without an
-- organisation, and none with a payload.
pub list_audit_events-scope :
    (p : TenantContextPayload) (query : ListAuditQueryDto) (w : World AuditDb)
    → if_page (may_see p.organization_id) (list_audit_events (some p) query w).0 ≡ true
unfolding list_audit_events
list_audit_events-scope p query w = elim (Option-cases p.organization_id) [
  | inl nowhere ↦ elim (Bool-cases (includes p.roles platform_admin)) [
    | inl admin ↦
        rw (nowhere, admin)
          (shown_page-items audit_events_table query none none w.db (may_see none) to_metadata_dto
            (λ r h. rw h refl))
    | inr neither ↦ rw (nowhere, neither) refl
  ]
  | inr (o, home) ↦ elim (Bool-cases (includes p.roles platform_admin)) [
    | inl admin ↦
        rw (home, admin)
          (shown_page-items audit_events_table query (some o) (some o) w.db (may_see (some o))
            to_full_dto (λ r h. rw h refl))
    | inr neither ↦
        rw (home, neither)
          (shown_page-items audit_events_table query (some o) (some o) w.db (may_see (some o))
            to_full_dto (λ r h. rw h refl))
  ]
]

-- A page of events without an organisation; or an error, to anyone but a platform admin.
abbrev pub OnlyPlatformEvents : TenantContextPayload → Outcome (CursorPage AuditDto) → Type 0
OnlyPlatformEvents p (returned found) =
    (every (λ dto. is_none (organization_of dto)) found.items ≡ true)
    × (includes p.roles platform_admin ≡ true)
OnlyPlatformEvents p (thrown e) =
    (e ≡ forbidden) × ((includes p.roles platform_admin && is_none p.organization_id) ≡ false)

module _ (p : TenantContextPayload) (query : ListAuditQueryDto) (w : World AuditDb) where
  security-refused :
      (includes p.roles platform_admin && is_none p.organization_id) ≡ false
      → (list_security_events (some p) query w).0 ≡ thrown forbidden
  unfolding list_security_events
  security-refused anyone = ground arith

  security-admitted :
      (includes p.roles platform_admin && is_none p.organization_id) ≡ true
      → require_platform_admin (some p) w ≡ (returned tt, w)
  unfolding require_platform_admin
  security-admitted admin = ground arith

  security-answered :
      (includes p.roles platform_admin && is_none p.organization_id) ≡ true
      → (list_security_events (some p) query w).0
        ≡ returned (map_page to_full_dto (shown_page security_events_table query none none w.db))
  unfolding list_security_events
  security-answered admin =
      ap (λ (r : Outcome (CursorPage AuditDto) × World AuditDb). r.0)
        (>>=_returned (require_platform_admin (some p))
          (λ _. run_global (list_all_for_platform_admin security_events_table query) >>= λ found.
            pure (map_page to_full_dto found))
          w (security-admitted admin))

-- A platform admin who asks for the security events is answered a page of events that belong to no
-- organisation only: none that an organisation's context published, such as the attempts on other
-- tenants' data. Anyone else is refused.
pub list_security_events-scope :
    (p : TenantContextPayload) (query : ListAuditQueryDto) (w : World AuditDb)
    → OnlyPlatformEvents p (list_security_events (some p) query w).0
list_security_events-scope p query w =
    elim (Bool-cases (includes p.roles platform_admin && is_none p.organization_id)) [
      | inr anyone ↦
          subst (OnlyPlatformEvents p) (sym (security-refused p query w anyone)) (refl, anyone)
      | inl admin ↦ subst (OnlyPlatformEvents p) (sym (security-answered p query w admin)) (
        shown_page-items security_events_table query none none w.db
            (λ dto. is_none (organization_of dto)) to_full_dto (λ r h. ground arith),
        ground arith,
      )
    ]
