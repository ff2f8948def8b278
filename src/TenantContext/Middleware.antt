-- ===== src/TenantContext/Middleware.antt =====
-- middleware/tenant-context.middleware.ts and guards/internal-context.guard.ts.
use multi_tenant_subscriptio.Base.{
  Bool, List, Option, [], false, get_or, if◌then◌else◌, is_none, none, some, true, ℕ,
}
use multi_tenant_subscriptio.Common.{Error, TenantContextPayload, forbidden, unauthorized}
use multi_tenant_subscriptio.Database.{Context, Outcome, returned, thrown}
use multi_tenant_subscriptio.TenantContext.Signer.{Signing, verify}

-- '/health', '/health/ready', and every other path. The middleware reads `originalUrl`, which keeps
-- the query, and the guard `path`, which does not.
pub data Url : Type 0 where
  health ready : Url
  other : ℕ → Url

pub record HttpRequest : Type 0 where
  pub original_url : Url
  pub path : Url
  pub context_header : Option (List ℕ)
  pub signature_header : Option (List ℕ)

abbrev pub is_health : Url → Bool
is_health health = true
is_health ready = true
is_health (other _) = false

-- How the middleware goes on: `next()` with the scope that is open then, or `next(error)`. An error
-- that it throws ends the request too.
pub data Next : Type 0 where
  proceed : Context → Next
  fail : Error → Next

abbrev pub opened : Outcome (Option TenantContextPayload) → Next
opened (returned (some payload)) = proceed (some payload)
opened (returned none) = fail unauthorized
opened (thrown e) = fail e

unfoldable pub use_context : Signing → (now : ℕ) → HttpRequest → Next
unfolding verify
use_context node now req =
    if is_health req.original_url
    then proceed none
    else opened (verify node now (get_or req.context_header []) (get_or req.signature_header []))

-- `canActivate` in the scope `ctx`.
unfoldable pub can_activate : (is_public : Bool) → HttpRequest → Context → Outcome Bool
can_activate is_public req ctx =
    if is_public
    then returned true
    else (if is_health req.path
        then returned true
        else (if is_none ctx then thrown unauthorized else returned true))

unfoldable pub guarded : Bool → HttpRequest → Next → Next
unfolding can_activate
guarded is_public req (fail e) = fail e
guarded is_public req (proceed ctx) = elim (can_activate is_public req ctx) [
  | thrown e ↦ fail e
  | returned admitted ↦ if admitted then proceed ctx else fail forbidden
]

-- The middleware and then the guard, as NestJS orders them.
unfoldable pub admit : Signing → (now : ℕ) → (is_public : Bool) → HttpRequest → Next
unfolding use_context guarded
admit node now is_public req = guarded is_public req (use_context node now req)
