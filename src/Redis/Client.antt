-- ===== src/Redis/Client.antt =====
-- The commands of ioredis that the code calls, on a state of Redis of any kind, and
-- client/redis-key.helper.ts.
use multi_tenant_subscriptio.Base.{Bool, List, [], ℕ, ℤ, ◌++◌, ◌∷◌}
use multi_tenant_subscriptio.Database.{Action}

pub record RedisClient (S : Type 0) : Type 0 where
  pub incr : List ℕ → Action S ℕ
  pub pexpire : List ℕ → (ttl_ms : ℕ) → Action S (Unit {0})
  -- negative where the key has no expiry or is not there
  pub pttl : List ℕ → Action S ℤ
  pub exists : List ℕ → Action S ℕ
  -- SET key '1' EX seconds
  pub set_ex : List ℕ → (seconds : ℕ) → Action S (Unit {0})
  -- with NX: whether the answer is 'OK'
  pub set_ex_nx : List ℕ → (seconds : ℕ) → Action S Bool
  pub set_px_nx : List ℕ → (ms : ℕ) → Action S Bool

abbrev pub colon : ℕ
colon = 58

-- `parts.join(':')`
abbrev pub join : List (List ℕ) → List ℕ
join [] = []
join (part ∷ []) = part
join (part ∷ next ∷ parts) = part ++ colon ∷ join (next ∷ parts)

-- 'org', and 'platform'
abbrev pub org_text : List ℕ
org_text = 111 ∷ 114 ∷ 103 ∷ []

abbrev pub platform_text : List ℕ
platform_text = 112 ∷ 108 ∷ 97 ∷ 116 ∷ 102 ∷ 111 ∷ 114 ∷ 109 ∷ []

abbrev pub tenant_key : List ℕ → List (List ℕ) → List ℕ
tenant_key organization_id parts = join (org_text ∷ organization_id ∷ parts)

abbrev pub platform_key : List (List ℕ) → List ℕ
platform_key parts = join (platform_text ∷ parts)
