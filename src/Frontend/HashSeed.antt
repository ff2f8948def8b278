-- ===== src/Frontend/HashSeed.antt =====
-- lib/hashSeed.ts. A seed is the list of its code points, read at each UTF-16 unit.
use multi_tenant_subscriptio.Base.{
  List, Option, [], length, none, some, suc, zero, ℕ, ◌%◌, ◌*◌, ◌+◌, ◌^◌, ◌∷◌,
}

-- `(hash * 31 + c) >>> 0`
abbrev pub next_hash : ℕ → ℕ → ℕ
next_hash hash c = (hash * 31 + c) % 2 ^ 32

abbrev pub hash_from : ℕ → List ℕ → ℕ
hash_from hash [] = hash
hash_from hash (c ∷ seed) = hash_from (next_hash hash c) seed

unfoldable pub hash_seed : List ℕ → ℕ
hash_seed seed = hash_from 0 seed

abbrev pub value_at : {A : Type 0} → List A → ℕ → Option A
value_at [] n = none
value_at (x ∷ xs) zero = some x
value_at (x ∷ xs) (suc n) = value_at xs n

-- `none` is the error for an empty array, where the index is NaN.
unfoldable pub hash_pick : {A : Type 0} → List ℕ → List A → Option A
unfolding hash_seed
hash_pick seed [] = none
hash_pick seed (x ∷ xs) = value_at (x ∷ xs) (hash_seed seed % length (x ∷ xs))
