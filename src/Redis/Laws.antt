-- ===== src/Redis/Laws.antt =====
-- What Redis documents of the commands, while it answers. Commands take no time: a key expires
-- between them.
use multi_tenant_subscriptio.Base.{Bool, List, true, ℕ, ℤ, ◌+◌, ◌≡◌, ◌≤◌}
use multi_tenant_subscriptio.Database.{returned}
use multi_tenant_subscriptio.Redis.Client.{RedisClient}

pub record RedisLaws {S : Type 0} (redis : RedisClient S) : Type 0 where
  -- the number at a key, 0 where it is not there; and whether the key has an expiry
  pub hits : List ℕ → S → ℕ
  pub expires : List ℕ → S → Bool
  pub incr_answers : (key : List ℕ) (s : S) → (redis.incr key s).0 ≡ returned (hits key s + 1)
  pub incr_hits : (key : List ℕ) (s : S) → hits key (redis.incr key s).1 ≡ hits key s + 1
  pub incr_expires :
      (key : List ℕ) (s : S) → 1 ≤ hits key s → expires key (redis.incr key s).1 ≡ expires key s
  pub pexpire_answers : (key : List ℕ) (ttl : ℕ) (s : S) → (redis.pexpire key ttl s).0 ≡ returned tt
  pub pexpire_hits :
      (key : List ℕ) (ttl : ℕ) (s : S) → 1 ≤ ttl → hits key (redis.pexpire key ttl s).1 ≡ hits key s
  pub pexpire_expires :
      (key : List ℕ) (ttl : ℕ) (s : S)
      → 1 ≤ ttl
      → 1 ≤ hits key s
      → expires key (redis.pexpire key ttl s).1 ≡ true
  pub pttl_answers : (key : List ℕ) (s : S) → (n : ℤ) × (redis.pttl key s ≡ (returned n, s))
  -- of two different keys
  pub set_px_nx_answers :
      (key : List ℕ) (ms : ℕ) (s : S) → (b : Bool) × ((redis.set_px_nx key ms s).0 ≡ returned b)
  pub set_px_nx_hits :
      (key other : List ℕ) (ms : ℕ) (s : S)
      → ¬ (other ≡ key)
      → hits key (redis.set_px_nx other ms s).1 ≡ hits key s
  pub set_px_nx_expires :
      (key other : List ℕ) (ms : ℕ) (s : S)
      → ¬ (other ≡ key)
      → expires key (redis.set_px_nx other ms s).1 ≡ expires key s
