-- ===== src/Frontend/HashPick.antt =====
-- The hash is a word of 32 bits, and an element is found wherever there is one.
use native.Mathlib.Nat.{mod-lt}
use multi_tenant_subscriptio.Base.{
  List, [], arith, length, refl, some, suc, zero, ℕ, ◌%◌, ◌*◌, ◌+◌, ◌<◌, ◌^◌, ◌∷◌, ◌≡◌,
}
use multi_tenant_subscriptio.Frontend.HashSeed.{
  hash_from, hash_pick, hash_seed, next_hash, value_at,
}

hash_from-small : (hash : ℕ) (seed : List ℕ) → hash < 2 ^ 32 → hash_from hash seed < 2 ^ 32
hash_from-small hash [] small = small
hash_from-small hash (c ∷ seed) small =
    hash_from-small (next_hash hash c) seed (mod-lt (hash * 31 + c) (omega arith))

value_at-some :
    {A : Type 0} (xs : List A) (n : ℕ) → n < length xs → (a : A) × (value_at xs n ≡ some a)
value_at-some [] n h = absurd (omega arith)
value_at-some (x ∷ xs) zero h = (x, refl)
value_at-some (x ∷ xs) (suc n) h = value_at-some xs n (omega arith)

pub hash_seed-small : (seed : List ℕ) → hash_seed seed < 2 ^ 32
unfolding hash_seed
hash_seed-small seed = hash_from-small 0 seed (omega arith)

pub hash_pick-some :
    {A : Type 0} (seed : List ℕ) (x : A) (xs : List A)
    → (a : A) × (hash_pick seed (x ∷ xs) ≡ some a)
unfolding hash_pick
hash_pick-some seed x xs =
    value_at-some (x ∷ xs) (hash_seed seed % length (x ∷ xs))
      (mod-lt (hash_seed seed) (omega arith))
