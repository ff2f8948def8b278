-- ===== src/Redis/Hits.antt =====
-- How the hits of a window are counted.
use multi_tenant_subscriptio.Base.{
  Bool, Bool-cases, List, [], ap, arith, false, if◌then◌else◌, inl, inr, length, ltb, pos, refl,
  subst, suc, sym, true, zero, ℕ, ◌&&◌, ◌++◌, ◌+◌, ◌<◌, ◌==◌, ◌||◌, ◌∷◌, ◌≡◌, ◌≤◌,
}
use multi_tenant_subscriptio.Database.{Action, Outcome, catch_returned, pure, returned, thrown}
use multi_tenant_subscriptio.Redis.Client.{RedisClient, colon}
use multi_tenant_subscriptio.Redis.Laws.{RedisLaws}
use multi_tenant_subscriptio.Redis.Throttling.{
  ThrottlerStorageRecord, block, block_key, blocked_text, count_hit, failed_open, increment,
  positive_or, storage_key,
}

longer : (k t : List ℕ) (c : ℕ) → length k < length (k ++ c ∷ t)
longer [] t c = omega arith
longer (x ∷ k) t c = let rest = longer k t c in omega arith

another_key : (key : List ℕ) → ¬ (block_key key ≡ key)
another_key key same =
    let more = longer key blocked_text colon in
    let equal : length (block_key key) ≡ length key = ap length same in omega arith

module _ {S : Type 0} (redis : RedisClient S) (laws : RedisLaws redis) (key : List ℕ) where
  -- The command keeps the number of hits and the expiry of the key, and answers.
  abbrev Answers : {A : Type 0} → Action S A → S → Type 0
  Answers {A} m s =
      (a : A) × ((m s).0 ≡ returned a)
      × (laws.hits key (m s).1 ≡ laws.hits key s)
      × (laws.expires key (m s).1 ≡ laws.expires key s)

  block-Answers : (bd : ℕ) (s : S) → Answers (block redis (block_key key) bd) s
  block-Answers bd s =
      let apart = another_key key in
      let (b, answer) = laws.set_px_nx_answers (block_key key) bd s in
      let h = laws.set_px_nx_hits key (block_key key) bd s apart in
      let e = laws.set_px_nx_expires key (block_key key) bd s apart in
      let (n, left) = laws.pttl_answers (block_key key) (redis.set_px_nx (block_key key) bd s).1 in
      elim (Bool-cases b) [
        | inl new ↦ (pos bd, ground arith, ground arith, ground arith)
        | inr old ↦ (n, ground arith, ground arith, ground arith)
      ]

  maybe_block-Answers :
      (blocking : Bool) (bd : ℕ) (s : S)
      → Answers (if blocking then block redis (block_key key) bd else pure (pos 0)) s
  maybe_block-Answers true bd s = block-Answers bd s
  maybe_block-Answers false bd s = (pos 0, refl, refl, refl)

  abbrev HitAnswers : (ttl limit bd : ℕ) → S → Type 0
  HitAnswers ttl limit bd s =
      (r : ThrottlerStorageRecord) × ((count_hit redis key ttl limit bd s).0 ≡ returned r)
      × (r.total_hits ≡ laws.hits key s + 1)
      × (r.is_blocked ≡ ltb limit (laws.hits key s + 1))
      × (laws.hits key (count_hit redis key ttl limit bd s).1 ≡ laws.hits key s + 1)
      × (laws.expires key (count_hit redis key ttl limit bd s).1
          ≡ (laws.hits key s == 0 || laws.expires key s))

  count_hit-HitAnswers : (ttl limit bd : ℕ) (s : S) → 1 ≤ ttl → HitAnswers ttl limit bd s
  count_hit-HitAnswers ttl limit bd s positive =
      let s1 : S = (redis.incr key s).1 in
      let total : ℕ = laws.hits key s + 1 in
      let counted = laws.incr_answers key s in
      let h1 = laws.incr_hits key s in
      let e1 = laws.incr_expires key s in
      let blocking : Bool = ltb limit total && ltb 0 bd in
      elim (Bool-cases (laws.hits key s == 0)) [
        | inl new ↦
            let s2 : S = (redis.pexpire key ttl s1).1 in
            let set = laws.pexpire_answers key ttl s1 in
            let h2 = laws.pexpire_hits key ttl s1 positive in
            let e2 = laws.pexpire_expires key ttl s1 positive in
            let (n, left) = laws.pttl_answers key s2 in
            let (t, blocked, h3, e3) = maybe_block-Answers blocking bd s2 in
            (
              record {
                total_hits = total;
                time_to_expire = positive_or n ttl;
                is_blocked = ltb limit total;
                time_to_block_expire = t;
              },
              ground arith,
              refl,
              refl,
              ground arith,
              ground arith,
            )
        | inr old ↦
            let (n, left) = laws.pttl_answers key s1 in
            let (t, blocked, h3, e3) = maybe_block-Answers blocking bd s1 in
            (
              record {
                total_hits = total;
                time_to_expire = positive_or n ttl;
                is_blocked = ltb limit total;
                time_to_block_expire = t;
              },
              ground arith,
              refl,
              refl,
              ground arith,
              ground arith,
            )
      ]

module _ {S : Type 0} (redis : RedisClient S) (laws : RedisLaws redis) (throttler_name key : List ℕ)
    (ttl limit block_duration : ℕ) where
  abbrev pub stored : List ℕ
  stored = storage_key throttler_name key

  -- A hit of the limiter, and the state after a number of hits.
  abbrev pub hit : Action S ThrottlerStorageRecord
  hit = increment redis key ttl limit block_duration throttler_name

  abbrev pub after_hits : ℕ → S → S
  after_hits zero s = s
  after_hits (suc n) s = (hit (after_hits n s)).1

  -- The answer to hit number `m`.
  abbrev pub Counted : ℕ → Outcome ThrottlerStorageRecord → Type 0
  Counted m (returned r) = (r.total_hits ≡ m) × (r.is_blocked ≡ ltb limit m)
  Counted m (thrown e) = ⊥

  one_hit :
      (s : S)
      → 1 ≤ ttl
      → Counted (laws.hits stored s + 1) (hit s).0
        × (laws.hits stored (hit s).1 ≡ laws.hits stored s + 1)
        × (laws.expires stored (hit s).1 ≡ (laws.hits stored s == 0 || laws.expires stored s))
  unfolding increment
  one_hit s positive =
      let (r, answer, total, blocked, h, e) =
        count_hit-HitAnswers redis laws stored ttl limit block_duration s positive in
      subst
        (λ (o : Outcome ThrottlerStorageRecord × S).
          Counted (laws.hits stored s + 1) o.0
          × (laws.hits stored o.1 ≡ laws.hits stored s + 1)
          × (laws.expires stored o.1 ≡ (laws.hits stored s == 0 || laws.expires stored s)))
        (sym (
          catch_returned (count_hit redis stored ttl limit block_duration)
            (λ e. pure (failed_open redis ttl)) s answer))
        ((total, blocked), h, e)

  after_hits-hits :
      (n : ℕ) (s : S) → 1 ≤ ttl → laws.hits stored (after_hits n s) ≡ laws.hits stored s + n
  after_hits-hits zero s positive = omega arith
  after_hits-hits (suc n) s positive =
      let (counted, h, e) = one_hit (after_hits n s) positive in
      let before = after_hits-hits n s positive in omega arith

  after_hits-expires :
      (n : ℕ) (s : S)
      → 1 ≤ ttl
      → laws.expires stored (after_hits (suc n) s)
        ≡ (laws.hits stored s == 0 || laws.expires stored s)
  after_hits-expires zero s positive = let (counted, h, e) = one_hit s positive in e
  after_hits-expires (suc n) s positive =
      let (counted, h, e) = one_hit (after_hits (suc n) s) positive in
      let before = after_hits-expires n s positive in
      let many = after_hits-hits (suc n) s positive in ground arith

  -- While Redis answers, and no window ends in between, the hits of a key are counted one by one: a
  -- hit is blocked exactly if its number is above the limit. The first one sets the expiry that ends
  -- the window, and none of the later ones does: if the key is counted and has no expiry, it never
  -- gets one.
  pub increment-counts :
      (n : ℕ) (s : S)
      → 1 ≤ ttl
      → Counted (laws.hits stored s + n + 1) (hit (after_hits n s)).0
        × (laws.expires stored (after_hits (suc n) s)
            ≡ (laws.hits stored s == 0 || laws.expires stored s))
  increment-counts n s positive =
      let (counted, h, e) = one_hit (after_hits n s) positive in
      let number = after_hits-hits n s positive in
      (
        subst (λ m. Counted (m + 1) (hit (after_hits n s)).0) number counted,
        after_hits-expires n s positive,
      )
