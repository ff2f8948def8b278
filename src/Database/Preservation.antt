-- ===== src/Database/Preservation.antt =====
-- What the work in a transaction keeps true of its connection, composed as the work is composed.
use multi_tenant_subscriptio.Base.{Bool, Option, false, if◌then◌else◌, none, some, true, ℕ}
use multi_tenant_subscriptio.Common.{Error, platform_admin_context}
use multi_tenant_subscriptio.Database.Actions.{
  Action, Outcome, await, catch, or_throw, pure, returned, throw, thrown, ◌>>=◌,
}
use multi_tenant_subscriptio.Database.Queries.{
  Connection, Table, Tx, count_rows, find_one, find_rows,
}
use multi_tenant_subscriptio.Database.Scoping.{Context, get_or_throw, or_platform_admin, tenant_id}

pub record Preserves {S A : Type 0} (P : S → Type 0) (m : Action S A) : Type 0 where
  pub keeps : (s : S) → P s → P (m s).1

module _ {S : Type 0} {P : S → Type 0} where
  pub Preserves-pure : {A : Type 0} (a : A) → Preserves P (pure a)
  Preserves-pure a = record { keeps = λ c h. h }

  pub Preserves-throw : {A : Type 0} (e : Error) → Preserves P (throw {A = A} e)
  Preserves-throw x = record { keeps = λ c h. h }

  pub Preserves-or_throw : {A : Type 0} (a : Option A) (e : Error) → Preserves P (or_throw a e)
  Preserves-or_throw none x = Preserves-throw x
  Preserves-or_throw (some a) x = Preserves-pure a

  pub Preserves-await : {A : Type 0} (r : Outcome A) → Preserves P (await r)
  Preserves-await r = record { keeps = λ c h. h }

  bind_keeps :
      {A B : Type 0} (f : A → Action S B) (r : Outcome A × S)
      → ((a : A) → Preserves P (f a))
      → P r.1
      → P (((λ _. r) >>= f) r.1).1
  bind_keeps f (returned a, s) k h = (k a).keeps s h
  bind_keeps f (thrown e, s) k h = h

  pub Preserves-bind :
      {A B : Type 0} {m : Action S A} {f : A → Action S B}
      → Preserves P m
      → ((a : A) → Preserves P (f a))
      → Preserves P (m >>= f)
  Preserves-bind {m = m} {f = f} h k = record {
    keeps = λ s held. bind_keeps f (m s) k (h.keeps s held);
  }

  catch_keeps :
      {A : Type 0} (f : Error → Action S A) (r : Outcome A × S)
      → ((e : Error) → Preserves P (f e))
      → P r.1
      → P (catch (λ _. r) f r.1).1
  catch_keeps f (returned a, s) k h = h
  catch_keeps f (thrown e, s) k h = (k e).keeps s h

  pub Preserves-catch :
      {A : Type 0} {m : Action S A} {f : Error → Action S A}
      → Preserves P m
      → ((e : Error) → Preserves P (f e))
      → Preserves P (catch m f)
  Preserves-catch {m = m} {f = f} h k = record {
    keeps = λ s held. catch_keeps f (m s) k (h.keeps s held);
  }

  pub Preserves-get_or_throw : (ctx : Context) → Preserves P (get_or_throw ctx)
  unfolding get_or_throw
  Preserves-get_or_throw none = Preserves-throw _
  Preserves-get_or_throw (some payload) = Preserves-pure payload

  pub Preserves-tenant_id : (ctx : Context) → Preserves P (tenant_id ctx)
  unfolding tenant_id or_platform_admin
  Preserves-tenant_id ctx =
      Preserves-bind (Preserves-get_or_throw ctx) (λ payload. nullable payload.organization_id)
    where
      nullable : (id : Option ℕ) → Preserves P (or_platform_admin id)
      nullable none = Preserves-throw platform_admin_context
      nullable (some o) = Preserves-pure o

module _ {D : Type 0} {P : Connection D → Type 0} where
  module _ {A : Type 0} (t : Table D A) where
    pub Preserves-find_one : (p : A → Bool) → Preserves P (find_one t p)
    unfolding find_one
    Preserves-find_one p = record { keeps = λ c h. h }

    pub Preserves-count_rows : (p : A → Bool) → Preserves P (count_rows t p)
    unfolding count_rows
    Preserves-count_rows p = record { keeps = λ c h. h }

    pub Preserves-find_rows : (p : A → Bool) → Preserves P (find_rows t p)
    unfolding find_rows
    Preserves-find_rows p = record { keeps = λ c h. h }

  pub Preserves-if :
      {A : Type 0} (b : Bool) {x y : Tx D A}
      → Preserves P x
      → Preserves P y
      → Preserves P (if b then x else y)
  Preserves-if true h k = h
  Preserves-if false h k = k
