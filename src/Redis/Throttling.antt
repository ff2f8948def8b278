-- ===== src/Redis/Throttling.antt =====
-- rate-limit/redis-throttler-storage.ts.
use multi_tenant_subscriptio.Base.{
  Bool, List, [], false, if◌then◌else◌, ltb, negsuc, pos, suc, true, zero, ℕ, ℤ, ◌&&◌, ◌==◌, ◌∷◌,
}
use multi_tenant_subscriptio.Database.{Action, catch, pure, ◌>>=◌, ◌>>◌}
use multi_tenant_subscriptio.Redis.Client.{RedisClient, join}

pub record ThrottlerStorageRecord : Type 0 where
  pub total_hits : ℕ
  pub time_to_expire : ℕ
  pub is_blocked : Bool
  pub time_to_block_expire : ℤ

-- 'throttle', and 'blocked'
abbrev pub throttle_text : List ℕ
throttle_text = 116 ∷ 104 ∷ 114 ∷ 111 ∷ 116 ∷ 116 ∷ 108 ∷ 101 ∷ []

abbrev pub blocked_text : List ℕ
blocked_text = 98 ∷ 108 ∷ 111 ∷ 99 ∷ 107 ∷ 101 ∷ 100 ∷ []

abbrev pub storage_key : (throttler_name key : List ℕ) → List ℕ
storage_key throttler_name key = join (throttle_text ∷ throttler_name ∷ key ∷ [])

abbrev pub block_key : List ℕ → List ℕ
block_key key = join (key ∷ blocked_text ∷ [])

-- `timeToExpire > 0 ? timeToExpire : ttl`
abbrev pub positive_or : ℤ → ℕ → ℕ
positive_or (pos zero) ttl = ttl
positive_or (pos (suc n)) ttl = suc n
positive_or (negsuc n) ttl = ttl

module _ {S : Type 0} (redis : RedisClient S) where
  abbrev pub block_time : Bool → List ℕ → ℕ → Action S ℤ
  block_time true key block_duration = pure (pos block_duration)
  block_time false key block_duration = redis.pttl key

  abbrev pub block : List ℕ → ℕ → Action S ℤ
  block key block_duration = do
    blocked ← redis.set_px_nx key block_duration
    block_time blocked key block_duration

  abbrev pub count_hit :
      (key : List ℕ) (ttl limit block_duration : ℕ) → Action S ThrottlerStorageRecord
  count_hit key ttl limit block_duration = do
    total_hits ← redis.incr key
    if total_hits == 1 then redis.pexpire key ttl else pure tt
    time_to_expire ← redis.pttl key
    time_to_block_expire ←
        (if ltb limit total_hits && ltb 0 block_duration
          then block (block_key key) block_duration
          else pure (pos 0))
    pure (record {
      total_hits = total_hits;
      time_to_expire = positive_or time_to_expire ttl;
      is_blocked = ltb limit total_hits;
      time_to_block_expire = time_to_block_expire;
    })

  abbrev pub failed_open : ℕ → ThrottlerStorageRecord
  failed_open ttl = record {
    total_hits = 0;
    time_to_expire = ttl;
    is_blocked = false;
    time_to_block_expire = pos 0;
  }

  unfoldable pub increment :
      (key : List ℕ) (ttl limit block_duration : ℕ) (throttler_name : List ℕ)
      → Action S ThrottlerStorageRecord
  increment key ttl limit block_duration throttler_name =
      catch (count_hit (storage_key throttler_name key) ttl limit block_duration)
        (λ e. pure (failed_open ttl))
