-- ===== src/AuditService/Record.antt =====
-- The record of events is only added to, and has each event once.
use multi_tenant_subscriptio.Base.{
  ==_iff, ==_refl, Bool, Bool-cases, List, Option, Option-cases, [], append-nil, arith, count,
  count-append, first, inl, inr, length, none, refl, some, sym, ℕ, ◌++◌, ◌==◌, ◌∷◌, ◌≡◌, ◌≤◌,
}
use multi_tenant_subscriptio.Common.{unique_violation}
use multi_tenant_subscriptio.AuditService.Consumers.{AuditSink, audit_data, handle}
use multi_tenant_subscriptio.AuditService.Repositories.{
  CreateAuditRecordData, record_clashes, record_of,
}
use multi_tenant_subscriptio.AuditService.Tables.{AuditDb, AuditRecord, AuditTable}
use multi_tenant_subscriptio.Database.{Context, Outcome, World, returned, thrown}
use multi_tenant_subscriptio.Kafka.{EventEnvelope}

-- What is read back from a table is what was put there.
abbrev pub Keeps : AuditTable → Type 0
Keeps t = (d : AuditDb) (rows : List AuditRecord) → t.rows (t.put d rows) ≡ rows

abbrev pub has_event : ℕ → AuditRecord → Bool
has_event event_id r = r.event_id == event_id

-- Each event is recorded once at most.
abbrev pub Once : List AuditRecord → Type 0
Once rows = (event_id : ℕ) → count (has_event event_id) rows ≤ 1

-- The rows of the table, with at most one new row at the end, and each event once at most.
abbrev pub Appended : List AuditRecord → List AuditRecord → Type 0
Appended before rows =
    (new : List AuditRecord) × (rows ≡ before ++ new) × (length new ≤ 1) × Once rows

unchanged : (rows : List AuditRecord) → Once rows → Appended rows rows
unchanged rows once = ([], sym (append-nil rows), omega arith, once)

no_clash :
    (id event_id : ℕ) (rows : List AuditRecord)
    → first (record_clashes id event_id) rows ≡ none
    → count (has_event event_id) rows ≡ 0
no_clash id event_id [] h = refl
no_clash id event_id (r ∷ rows) h = ground (arith, no_clash id event_id rows)

added :
    (id now : ℕ) (fields : CreateAuditRecordData) (rows : List AuditRecord)
    → first (record_clashes id fields.event_id) rows ≡ none
    → Once rows
    → Appended rows (rows ++ record_of id now fields ∷ [])
added id now fields rows free once = (
  record_of id now fields ∷ [],
  refl,
  omega arith,
  λ event_id.
      let before = once event_id in
      let absent = no_clash id fields.event_id rows free in
      let all = count-append (has_event event_id) rows (record_of id now fields ∷ []) in
      elim (Bool-cases (fields.event_id == event_id)) [
        | inl this ↦
            let same : fields.event_id ≡ event_id = (==_iff _ _).0 this in
            let gone : count (has_event event_id) rows ≡ 0 = rw same at absent in ground arith
        | inr another ↦ ground arith
      ],
)

-- What the INSERT answers, and what it leaves.
abbrev pub inserted :
    AuditTable
    → (id now : ℕ) → CreateAuditRecordData
    → World AuditDb
    → Option AuditRecord
    → Outcome (Unit {0}) × World AuditDb
inserted t id now fields w (some clash) = (thrown unique_violation, w)
inserted t id now fields w none =
    (returned tt, record w { db = t.put w.db (t.rows w.db ++ record_of id now fields ∷ []) })

module _ (sink : AuditSink) (id now : ℕ) (ctx : Context) (envelope : EventEnvelope)
    (w : World AuditDb) where
  pub handle-inserted :
      handle sink id now ctx envelope w
      ≡ inserted sink.table id now
          (audit_data sink envelope)
          w
          (first (record_clashes id envelope.event_id) (sink.table.rows w.db))
  unfolding handle
  handle-inserted =
      elim (Option-cases (first (record_clashes id envelope.event_id) (sink.table.rows w.db))) [
        | inl free ↦ elim (Option-cases envelope.organization_id) [
          | inl platform ↦ ground arith
          | inr (o, tenant) ↦ let self = ==_refl o in ground arith
        ]
        | inr (r, clash) ↦ elim (Option-cases envelope.organization_id) [
          | inl platform ↦ ground arith
          | inr (o, tenant) ↦ let self = ==_refl o in ground arith
        ]
      ]

  -- The handling of any event, whether it succeeds or fails, leaves the old records as they are and
  -- adds one at most, and if each event was recorded once at most, that is still so.
  pub handle-Appended :
      Keeps sink.table
      → Once (sink.table.rows w.db)
      → Appended (sink.table.rows w.db) (sink.table.rows (handle sink id now ctx envelope w).1.db)
  handle-Appended keeps once =
      rw handle-inserted
        (elim (Option-cases (first (record_clashes id envelope.event_id) (sink.table.rows w.db))) [
          | inr (r, clash) ↦ rw clash (unchanged (sink.table.rows w.db) once)
          | inl free ↦
              rw
                (
                  free,
                  keeps w.db
                      (sink.table.rows w.db ++ record_of id now (audit_data sink envelope) ∷ []),
                )
                (added id now (audit_data sink envelope) (sink.table.rows w.db) free once)
        ])
