-- ===== src/Redis/Denylist.antt =====
-- denylist/redis-token-denylist.ts and idempotency/idempotency.service.ts.
use multi_tenant_subscriptio.Base.{Bool, List, [], true, ℕ, ◌==◌, ◌∷◌}
use multi_tenant_subscriptio.Database.{Action, catch, pure, ◌>>=◌}
use multi_tenant_subscriptio.Redis.Client.{RedisClient, platform_key}

-- 'denylist', and 'idempotency'
abbrev pub denylist_text : List ℕ
denylist_text = 100 ∷ 101 ∷ 110 ∷ 121 ∷ 108 ∷ 105 ∷ 115 ∷ 116 ∷ []

abbrev pub idempotency_text : List ℕ
idempotency_text = 105 ∷ 100 ∷ 101 ∷ 109 ∷ 112 ∷ 111 ∷ 116 ∷ 101 ∷ 110 ∷ 99 ∷ 121 ∷ []

abbrev pub denylist_key : List ℕ → List ℕ
denylist_key jti = platform_key (denylist_text ∷ jti ∷ [])

-- A day.
abbrev pub onboarding_idempotency_ttl_seconds : ℕ
onboarding_idempotency_ttl_seconds = 86400

module _ {S : Type 0} (redis : RedisClient S) where
  unfoldable pub is_denied : List ℕ → Action S Bool
  is_denied jti =
      catch (do exists ← redis.exists (denylist_key jti); pure (exists == 1)) (λ e. pure true)

  unfoldable pub deny : List ℕ → (ttl_seconds : ℕ) → Action S (Unit {0})
  deny jti ttl_seconds = redis.set_ex (denylist_key jti) ttl_seconds

  unfoldable pub claim : List ℕ → Action S Bool
  claim key =
      redis.set_ex_nx (platform_key (idempotency_text ∷ key ∷ []))
        onboarding_idempotency_ttl_seconds
