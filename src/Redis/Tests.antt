-- ===== src/Redis/Tests.antt =====
-- A small Redis: the number and the expiry of every key, in a window that does not end.
use multi_tenant_subscriptio.Base.{
  ==_refl, Bool, Bool-cases, List, [], arith, false, if◌then◌else◌, inl, inr, negsuc, pos, refl,
  sym, true, ℕ, ◌&&◌, ◌+◌, ◌==◌, ◌∷◌, ◌≡◌,
}
use multi_tenant_subscriptio.Database.{Action, returned}
use multi_tenant_subscriptio.Redis.Client.{RedisClient}
use multi_tenant_subscriptio.Redis.Hits.{Counted, after_hits, hit, increment-counts}
use multi_tenant_subscriptio.Redis.Laws.{RedisLaws}
use multi_tenant_subscriptio.Redis.Throttling.{storage_key}

abbrev eq_text : List ℕ → List ℕ → Bool
eq_text [] [] = true
eq_text [] (y ∷ ys) = false
eq_text (x ∷ xs) [] = false
eq_text (x ∷ xs) (y ∷ ys) = x == y && eq_text xs ys

eq_text_refl : (xs : List ℕ) → eq_text xs xs ≡ true
eq_text_refl [] = refl
eq_text_refl (x ∷ xs) = let self = ==_refl x in ground (arith, eq_text_refl xs)

eq_text_sound : (xs ys : List ℕ) → eq_text xs ys ≡ true → xs ≡ ys
eq_text_sound [] [] h = refl
eq_text_sound [] (y ∷ ys) h = cc
eq_text_sound (x ∷ xs) [] h = cc
eq_text_sound (x ∷ xs) (y ∷ ys) h =
    let here : x ≡ y = ground arith in let rest : xs ≡ ys = eq_text_sound xs ys (ground arith) in cc

record Store : Type 0 where
  number : List ℕ → ℕ
  lives : List ℕ → Bool

abbrev put : List ℕ → ℕ → Bool → Store → Store
put key n expiry s = record {
  number = λ k. if eq_text k key then n else s.number k;
  lives = λ k. if eq_text k key then expiry else s.lives k;
}

abbrev set_once : List ℕ → Action Store Bool
set_once key s =
    if s.number key == 0 then (returned true, put key 1 true s) else (returned false, s)

abbrev small_redis : RedisClient Store
small_redis = record {
  incr = λ key s. (returned (s.number key + 1), put key (s.number key + 1) (s.lives key) s);
  pexpire = λ key ttl s. (returned tt, put key (s.number key) true s);
  pttl = λ key s. (returned (if s.lives key then pos 50 else negsuc 0), s);
  exists = λ key s. (returned (if s.number key == 0 then 0 else 1), s);
  set_ex = λ key seconds s. (returned tt, put key 1 true s);
  set_ex_nx = λ key seconds. set_once key;
  set_px_nx = λ key ms. set_once key;
}

apart : (key other : List ℕ) → ¬ (other ≡ key) → eq_text key other ≡ false
apart key other differ = elim (Bool-cases (eq_text key other)) [
  | inl same ↦ absurd (differ (sym (eq_text_sound key other same)))
  | inr different ↦ different
]

small_laws : RedisLaws small_redis
small_laws = record {
  hits = λ key s. s.number key;
  expires = λ key s. s.lives key;
  incr_answers = λ key s. refl;
  incr_hits = λ key s. let self = eq_text_refl key in rw self refl;
  incr_expires = λ key s many. let self = eq_text_refl key in rw self refl;
  pexpire_answers = λ key ttl s. refl;
  pexpire_hits = λ key ttl s positive. let self = eq_text_refl key in rw self refl;
  pexpire_expires = λ key ttl s positive many. let self = eq_text_refl key in rw self refl;
  pttl_answers = λ key s. (if s.lives key then pos 50 else negsuc 0, refl);
  set_px_nx_answers = λ key ms s. elim (Bool-cases (s.number key == 0)) [
    | inl new ↦ (true, rw new refl)
    | inr old ↦ (false, rw old refl)
  ];
  set_px_nx_hits = λ key other ms s differ.
      let other_key = apart key other differ in
      elim (Bool-cases (s.number other == 0)) [
        | inl new ↦ rw new (rw other_key refl)
        | inr old ↦ rw old refl
      ];
  set_px_nx_expires = λ key other ms s differ.
      let other_key = apart key other differ in
      elim (Bool-cases (s.number other == 0)) [
        | inl new ↦ rw new (rw other_key refl)
        | inr old ↦ rw old refl
      ];
}

abbrev empty_store : Store
empty_store = record { number = λ key. 0; lives = λ key. false }

-- The third hit of a limit of two.
increment-counts_example :
    Counted small_redis small_laws []
      (97 ∷ [])
      60000
      2
      0
      3
      (hit small_redis small_laws []
        (97 ∷ [])
        60000
        2
        0
        (after_hits small_redis small_laws [] (97 ∷ []) 60000 2 0 2 empty_store)).0
    × (small_laws.expires
          (storage_key [] (97 ∷ []))
          (after_hits small_redis small_laws [] (97 ∷ []) 60000 2 0 3 empty_store)
        ≡ true)
unfolding small_laws
increment-counts_example =
    increment-counts small_redis small_laws [] (97 ∷ []) 60000 2 0 2 empty_store (omega arith)
