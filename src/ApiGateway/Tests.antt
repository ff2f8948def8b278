-- ===== src/ApiGateway/Tests.antt =====
-- A session, an invitee's path, and a call without a response.
use multi_tenant_subscriptio.Base.{
  ==_refl, Bool, List, [], arith, false, if◌then◌else◌, not, pos, refl, some, true, ℕ, ◌&&◌, ◌++◌,
  ◌∷◌, ◌≡◌,
}
use multi_tenant_subscriptio.Common.{org_admin, service_unavailable, unauthorized}
use multi_tenant_subscriptio.ApiGateway.Identity.{forwarded-identity, identity}
use multi_tenant_subscriptio.ApiGateway.Jwt.{JwtAccessPayload, authenticate, intercept}
use multi_tenant_subscriptio.ApiGateway.Logout.{DenylistLaws, logout-denies}
use multi_tenant_subscriptio.ApiGateway.Sessions.{logout}
use multi_tenant_subscriptio.ApiGateway.ThrottleRoutes.{
  auth_path, is_strict_throttle_path, login_path, same_text,
}
use multi_tenant_subscriptio.Database.{returned, throw, thrown}
use multi_tenant_subscriptio.Redis.{RedisClient}
use multi_tenant_subscriptio.TenantContext.{admit, other, proceed, received, with_signed_headers}
use multi_tenant_subscriptio.TenantContext.ToySigning.{laws, node}

abbrev admin : JwtAccessPayload
admin = record {
  sub = 2;
  organization_id = some 9;
  roles = org_admin ∷ [];
  jti = 97 ∷ 98 ∷ [];
  iat = 70;
  exp = 970;
}

forwarded-identity_example :
    admit node 131 false
      (received (with_signed_headers node 101 5 (intercept (some admin) (some 3))) (other 7))
    ≡ proceed (some (identity node 101 admin (some 3)))
forwarded-identity_example =
    forwarded-identity node laws 101 5 131 admin (some 3) false 7 (omega arith)

-- A Redis that keeps one denied token, and may lose its connection.
record Denylist : Type 0 where
  key : List ℕ
  down : Bool

same_text_refl : (xs : List ℕ) → same_text xs xs ≡ true
same_text_refl [] = refl
same_text_refl (x ∷ xs) = let self = ==_refl x in ground (arith, same_text_refl xs)

abbrev one_entry : RedisClient Denylist
one_entry = record {
  incr = λ key s. (returned 1, s);
  pexpire = λ key ttl s. (returned tt, s);
  pttl = λ key s. (returned (pos 1), s);
  exists = λ key s.
      if s.down
      then (thrown service_unavailable, s)
      else (returned (if same_text key s.key then 1 else 0), s);
  set_ex = λ key seconds s. (returned tt, record s { key = key; down = false });
  set_ex_nx = λ key seconds s. (returned true, s);
  set_px_nx = λ key ms s. (returned true, s);
}

one_entry_laws : DenylistLaws one_entry
one_entry_laws = record {
  present = λ key s. same_text key s.key && not s.down;
  set_ex_stores = λ key seconds s positive. let self = same_text_refl key in rw self refl;
  exists_answers = λ key s h. ground arith;
}

-- auth-service refuses the call.
logout-denies_example :
    (authenticate one_entry false
      (some admin)
      (logout one_entry 100 admin
        (throw {A = ℕ} unauthorized)
        (record { key = []; down = false })).1).0
    ≡ thrown unauthorized
logout-denies_example =
    logout-denies one_entry one_entry_laws admin 100 (throw {A = ℕ} unauthorized)
      (record { key = []; down = false }) (omega arith) (λ t denied. denied)

-- While Redis is down, every token is refused.
closed_run :
    (authenticate one_entry false (some admin) (record { key = []; down = true })).0
    ≡ thrown unauthorized
unfolding authenticate
closed_run = refl

-- '/api/v1/auth/login/?a' has the strict bucket, and '/api/v1/auth/Login' the other.
strict_run : is_strict_throttle_path (some (login_path ++ 47 ∷ 63 ∷ 97 ∷ [])) ≡ true
unfolding is_strict_throttle_path
strict_run = refl

capital_run : is_strict_throttle_path (some (auth_path (76 ∷ 111 ∷ 103 ∷ 105 ∷ 110 ∷ []))) ≡ false
unfolding is_strict_throttle_path
capital_run = refl
