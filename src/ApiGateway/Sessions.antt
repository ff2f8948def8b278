-- ===== src/ApiGateway/Sessions.antt =====
-- auth/auth.controller.ts. The calls of auth-service are those of the proxy.
use multi_tenant_subscriptio.Base.{if◌then◌else◌, leb, ℕ, ◌-◌}
use multi_tenant_subscriptio.ApiGateway.Jwt.{JwtAccessPayload}
use multi_tenant_subscriptio.Database.{Action, catch, pure, ◌>>=◌, ◌>>◌}
use multi_tenant_subscriptio.Redis.{RedisClient, deny}

module _ {S : Type 0} (redis : RedisClient S) where
  -- `now` is the time in whole seconds, rounded down.
  unfoldable pub deny_own_access_token : (now : ℕ) → JwtAccessPayload → Action S (Unit {0})
  unfolding deny
  deny_own_access_token now principal =
      if leb principal.exp now
      then pure tt
      else catch (deny redis principal.jti (principal.exp - now)) (λ e. pure tt)

  -- `forwarded` is the call of POST /auth/logout.
  unfoldable pub logout :
      {A : Type 0} → (now : ℕ) → JwtAccessPayload → (forwarded : Action S A) → Action S (Unit {0})
  unfolding deny_own_access_token
  logout now principal forwarded = do
    deny_own_access_token now principal
    answer ← forwarded
    pure tt
