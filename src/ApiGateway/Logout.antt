-- ===== src/ApiGateway/Logout.antt =====
-- What a logout leaves of the access token.
use multi_tenant_subscriptio.Base.{
  Bool, List, arith, false, inl, inr, leb, some, true, ℕ, ◌-◌, ◌<◌, ◌≡◌, ◌≤◌,
}
use multi_tenant_subscriptio.Common.{unauthorized}
use multi_tenant_subscriptio.ApiGateway.Jwt.{JwtAccessPayload, authenticate, validate}
use multi_tenant_subscriptio.ApiGateway.Sessions.{deny_own_access_token, logout}
use multi_tenant_subscriptio.Database.{Action, Outcome-cases, returned, thrown}
use multi_tenant_subscriptio.Redis.{RedisClient, deny, denylist_key, is_denied}

-- What the denylist needs of Redis, while it answers and the entry lasts.
pub record DenylistLaws {S : Type 0} (redis : RedisClient S) : Type 0 where
  pub present : List ℕ → S → Bool
  pub set_ex_stores :
      (key : List ℕ) (seconds : ℕ) (s : S)
      → 1 ≤ seconds
      → present key (redis.set_ex key seconds s).1 ≡ true
  pub exists_answers :
      (key : List ℕ) (s : S) → present key s ≡ true → (redis.exists key s).0 ≡ returned 1

module _ {S : Type 0} (redis : RedisClient S) (laws : DenylistLaws redis)
    (principal : JwtAccessPayload) where
  abbrev Denied : S → Type 0
  Denied s = laws.present (denylist_key principal.jti) s ≡ true

  deny_own-Denied :
      (now : ℕ) (s : S)
      → now < principal.exp
      → ((deny_own_access_token redis now principal s).0 ≡ returned tt)
        × Denied (deny_own_access_token redis now principal s).1
  unfolding deny_own_access_token deny
  deny_own-Denied now s alive =
      let lasts : leb principal.exp now ≡ false = ground arith in
      let some_seconds : 1 ≤ principal.exp - now = omega arith in
      let set : Denied (redis.set_ex (denylist_key principal.jti) (principal.exp - now) s).1 =
        laws.set_ex_stores (denylist_key principal.jti) (principal.exp - now) s some_seconds in
      elim (Outcome-cases (redis.set_ex (denylist_key principal.jti) (principal.exp - now) s).0) [
        | inl (tt, ok) ↦ (ground arith, ground arith)
        | inr (e, ko) ↦ (ground arith, ground arith)
      ]

  Denied-refused :
      (s : S) → Denied s → (authenticate redis false (some principal) s).0 ≡ thrown unauthorized
  unfolding authenticate validate is_denied
  Denied-refused s denied =
      let there = laws.exists_answers (denylist_key principal.jti) s denied in ground arith

  -- The access token of a principal who logged out is refused from then on, also if the call of
  -- auth-service failed, as long as its entry in the denylist is kept.
  pub logout-denies :
      {A : Type 0} (now : ℕ) (forwarded : Action S A) (s : S)
      → now < principal.exp
      → ((t : S) → Denied t → Denied (forwarded t).1)
      → (authenticate redis false (some principal) (logout redis now principal forwarded s).1).0
        ≡ thrown unauthorized
  unfolding logout
  logout-denies now forwarded s alive keeps =
      let (ok, denied) = deny_own-Denied now s alive in
      let t : S = (deny_own_access_token redis now principal s).1 in
      let kept : Denied (forwarded t).1 = keeps t denied in
      Denied-refused (logout redis now principal forwarded s).1
        (elim (Outcome-cases (forwarded t).0) [
          | inl (a, accepted) ↦ ground arith
          | inr (e, ko) ↦ ground arith
        ])
