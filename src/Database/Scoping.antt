-- ===== src/Database/Scoping.antt =====
-- tenant-aware-data-source.ts, tenant-repository.ts, tenant-context.store.ts and the events that
-- event-publisher.ts hands to the broker.
use multi_tenant_subscriptio.Base.{ℕ, Option, none, some, List, [], ◌∷◌, ◌++◌}
use multi_tenant_subscriptio.Common.{
  TenantContextPayload, DomainEvent, no_tenant_context, platform_admin_context,
}
use multi_tenant_subscriptio.Database.Actions.{
  Outcome, Action, returned, thrown, pure, throw, ◌>>=◌,
}
use multi_tenant_subscriptio.Database.Queries.{Connection, Tx}

-- A service between two requests: its database, and the events published so far, oldest first.
pub record World (D : Type 0) : Type 0 where
  pub db : D
  pub published : List DomainEvent

abbrev pub Request : Type 0 → Type 0 → Type 0
Request D A = Action (World D) A

-- What AsyncLocalStorage holds: `none` outside every `run`.
abbrev pub Context : Type 0
Context = Option TenantContextPayload

-- The context of a caller who belongs to the organisation `o`.
abbrev pub caller : ℕ → TenantContextPayload → Context
caller o p = some (record p { organization_id = some o })

unfoldable pub get_or_throw : {S : Type 0} → Context → Action S TenantContextPayload
get_or_throw none = throw no_tenant_context
get_or_throw (some payload) = pure payload

unfoldable pub or_platform_admin : {S : Type 0} → Option ℕ → Action S ℕ
or_platform_admin none = throw platform_admin_context
or_platform_admin (some organization_id) = pure organization_id

-- The getter `TenantRepository.organizationId`.
unfoldable pub tenant_id : {S : Type 0} → Context → Action S ℕ
unfolding get_or_throw or_platform_admin
tenant_id ctx = do payload ← get_or_throw ctx; or_platform_admin payload.organization_id

-- `SELECT set_config('app.current_org', $1, true)`
unfoldable pub set_scope : {D : Type 0} → ℕ → Tx D (Unit {0})
set_scope organization_id c = (returned tt, record c { current_org = some organization_id })

module _ {D A : Type 0} where
  -- COMMIT, or ROLLBACK and rethrow.
  finish : World D → Outcome A × Connection D → Outcome A × World D
  finish w (returned a, c) = (returned a, record w { db = c.tables })
  finish w (thrown e, c) = (thrown e, w)

  unfoldable pub run_scoped : Option ℕ → Tx D A → Request D A
  unfolding finish
  run_scoped organization_id work w =
      finish w (work (record { current_org = organization_id; tables = w.db }))

  unfoldable pub transaction : Context → Tx D A → Request D A
  unfolding get_or_throw run_scoped
  transaction ctx work = do payload ← get_or_throw ctx; run_scoped payload.organization_id work

  -- The setting is left unset.
  unfoldable pub run_global : Tx D A → Request D A
  unfolding run_scoped
  run_global work = run_scoped none work

  unfoldable pub transaction_for_organization : ℕ → Tx D A → Request D A
  unfolding run_scoped
  transaction_for_organization organization_id work = run_scoped (some organization_id) work

  unfoldable pub transaction_with_deferred_scope : ((ℕ → Tx D (Unit {0})) → Tx D A) → Request D A
  unfolding run_scoped set_scope
  transaction_with_deferred_scope work = run_scoped none (work set_scope)

module _ {D : Type 0} where
  -- A failure of the broker is logged and not thrown, so what is recorded is what was handed over.
  unfoldable pub publish : DomainEvent → Request D (Unit {0})
  publish event w = (returned tt, record w { published = w.published ++ event ∷ [] })
