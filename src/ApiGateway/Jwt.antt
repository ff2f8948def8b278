-- ===== src/ApiGateway/Jwt.antt =====
-- strategy/jwt.strategy.ts and guards/jwt-auth.guard.ts of libs/auth, common/platform-admin.guard.ts
-- and common/tenant-context.interceptor.ts.
use multi_tenant_subscriptio.Base.{
  Bool, List, Option, false, get_or, if◌then◌else◌, none, some, true, ℕ,
}
use multi_tenant_subscriptio.Common.{
  Role, TenantContextPayload, forbidden, includes, platform_admin, unauthorized,
}
use multi_tenant_subscriptio.Database.{
  Action, Context, Outcome, pure, returned, throw, thrown, ◌>>=◌,
}
use multi_tenant_subscriptio.Redis.{RedisClient, is_denied}

-- `jti` is a text, which stands in a key of Redis.
pub record JwtAccessPayload : Type 0 where
  pub sub : ℕ
  pub organization_id : Option ℕ
  pub roles : List Role
  pub jti : List ℕ
  pub iat : ℕ
  pub exp : ℕ

module _ {S : Type 0} (redis : RedisClient S) where
  unfoldable pub validate : JwtAccessPayload → Action S JwtAccessPayload
  unfolding is_denied
  validate payload = do
    denied ← is_denied redis payload.jti
    if denied then throw unauthorized else pure payload

  -- `verified` is what passport-jwt made of the Authorization header: the payload of a token with a
  -- valid signature that has not expired, or none. The result is `req.user`.
  unfoldable pub authenticate :
      (is_public : Bool) (verified : Option JwtAccessPayload) → Action S (Option JwtAccessPayload)
  unfolding validate
  authenticate true verified = pure none
  authenticate false none = throw unauthorized
  authenticate false (some payload) = do principal ← validate payload; pure (some principal)

abbrev pub may_administrate : Option JwtAccessPayload → Bool
may_administrate (some principal) = includes principal.roles platform_admin
may_administrate none = false

-- PlatformAdminGuard.canActivate
unfoldable pub require_platform_role : Option JwtAccessPayload → Outcome Bool
require_platform_role principal =
    if may_administrate principal then returned true else thrown forbidden

-- The text ''.
abbrev pub empty_id : ℕ
empty_id = 0

abbrev pub payload_of : JwtAccessPayload → (correlation_header : Option ℕ) → TenantContextPayload
payload_of principal correlation_header = record {
  user_id = some principal.sub;
  organization_id = principal.organization_id;
  roles = principal.roles;
  correlation_id = get_or correlation_header empty_id;
  iat = principal.iat;
  exp = principal.exp;
}

-- The scope in which TenantContextInterceptor runs the handler.
unfoldable pub intercept : Option JwtAccessPayload → (correlation_header : Option ℕ) → Context
intercept (some principal) correlation_header = some (payload_of principal correlation_header)
intercept none correlation_header = none
