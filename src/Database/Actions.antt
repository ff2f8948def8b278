-- ===== src/Database/Actions.antt =====
-- Asynchronous code that reads and writes a state and may throw. What was written before a throw
-- stays written: undoing it is the work of a transaction.
use multi_tenant_subscriptio.Base.{Option, inl, inr, none, refl, some, ◌≡◌, ◌⊎◌}
use multi_tenant_subscriptio.Common.{Error}

pub data Outcome {ℓ} (A : Type ℓ) : Type ℓ where
  returned : A → Outcome A
  thrown : Error → Outcome A

abbrev pub Action : Type 0 → Type 0 → Type 0
Action S A = S → Outcome A × S

module _ {S A : Type 0} where
  abbrev pub pure : A → Action S A
  pure a s = (returned a, s)

  abbrev pub throw : Error → Action S A
  throw e s = (thrown e, s)

  abbrev pub or_throw : Option A → Error → Action S A
  or_throw none e = throw e
  or_throw (some a) e = pure a

  -- The awaited answer of a call of another service.
  abbrev pub await : Outcome A → Action S A
  await r s = (r, s)

infixl 5 ◌>>=◌ ◌>>◌
abbrev pub ◌>>=◌ : {S A B : Type 0} → Action S A → (A → Action S B) → Action S B
◌>>=◌ m f s = let (r, s') = m s in elim r [ returned a ↦ f a s' | thrown e ↦ (thrown e, s') ]

abbrev pub ◌>>◌ : {S A B : Type 0} → Action S A → Action S B → Action S B
m >> k = m >>= λ _. k

-- `try { m } catch (e) { handler(e) }`
abbrev pub catch : {S A : Type 0} → Action S A → (Error → Action S A) → Action S A
catch m handler s =
    let (r, s') = m s in elim r [ returned a ↦ (returned a, s') | thrown e ↦ handler e s' ]

pub Outcome-cases :
    {A : Type 0} (r : Outcome A) → ((a : A) × (r ≡ returned a)) ⊎ ((e : Error) × (r ≡ thrown e))
Outcome-cases (returned a) = inl (a, refl)
Outcome-cases (thrown e) = inr (e, refl)

pub >>=_returned :
    {S A B : Type 0} (m : Action S A) (f : A → Action S B) (s : S) {a : A} {s' : S}
    → m s ≡ (returned a, s')
    → (m >>= f) s ≡ f a s'
>>=_returned m f s h = λ i. ((λ _. h i) >>= f) s

pub catch_returned :
    {S A : Type 0} (m : Action S A) (f : Error → Action S A) (s : S) {a : A}
    → (m s).0 ≡ returned a
    → catch m f s ≡ (returned a, (m s).1)
catch_returned m f s h = λ i. catch (λ _. (h i, (m s).1)) f s
