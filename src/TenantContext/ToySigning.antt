-- ===== src/TenantContext/ToySigning.antt =====
-- A toy MAC and a toy encoding that keep the laws of node's.
use multi_tenant_subscriptio.Base.{
  List, Option, [], arith, if◌then◌else◌, ltb, map, none, refl, some, suc, true, zero, ℕ, ◌%◌, ◌+◌,
  ◌==◌, ◌∷◌, ◌≡◌,
}
use multi_tenant_subscriptio.Common.{
  Role, TenantContextPayload, org_admin, org_member, platform_admin,
}
use multi_tenant_subscriptio.TenantContext.Hex.{are_bytes}
use multi_tenant_subscriptio.TenantContext.Signature.{SigningLaws}
use multi_tenant_subscriptio.TenantContext.Signer.{Parsed, Signing, context}

abbrev nullable_code : Option ℕ → ℕ
nullable_code none = 0
nullable_code (some n) = suc n

abbrev nullable_of : ℕ → Option ℕ
nullable_of zero = none
nullable_of (suc n) = some n

nullable_of-code : (o : Option ℕ) → nullable_of (nullable_code o) ≡ o
nullable_of-code none = refl
nullable_of-code (some n) = refl

abbrev role_code : Role → ℕ
role_code platform_admin = 0
role_code org_admin = 1
role_code org_member = 2

abbrev role_of : ℕ → Role
role_of n = if n == 0 then platform_admin else (if n == 1 then org_admin else org_member)

roles_of-code : (roles : List Role) → map role_of (map role_code roles) ≡ roles
roles_of-code [] = refl
roles_of-code (platform_admin ∷ roles) = let rest = roles_of-code roles in rw rest refl
roles_of-code (org_admin ∷ roles) = let rest = roles_of-code roles in rw rest refl
roles_of-code (org_member ∷ roles) = let rest = roles_of-code roles in rw rest refl

abbrev write : TenantContextPayload → List ℕ
write p =
    p.exp
    ∷ p.iat
    ∷ p.correlation_id
    ∷ nullable_code p.user_id
    ∷ nullable_code p.organization_id
    ∷ map role_code p.roles

abbrev parse : List ℕ → Option Parsed
parse (exp ∷ iat ∷ correlation_id ∷ user_code ∷ organization_code ∷ roles) = some (
    context (record {
      user_id = nullable_of user_code;
      organization_id = nullable_of organization_code;
      roles = map role_of roles;
      correlation_id = correlation_id;
      iat = iat;
      exp = exp;
    }))
parse _ = none

parse-write : (p : TenantContextPayload) → parse (write p) ≡ some (context p)
parse-write p =
    let id : nullable_of (nullable_code p.user_id) ≡ p.user_id = nullable_of-code p.user_id in
    let home : nullable_of (nullable_code p.organization_id) ≡ p.organization_id =
      nullable_of-code p.organization_id in
    let kept = roles_of-code p.roles in rw id (rw home (rw kept refl))

abbrev sum_bytes : List ℕ → ℕ
sum_bytes [] = 17
sum_bytes (c ∷ cs) = (c + sum_bytes cs) % 256

sum_bytes-small : (cs : List ℕ) → ltb (sum_bytes cs) 256 ≡ true
sum_bytes-small [] = refl
sum_bytes-small (c ∷ cs) = ground arith

mac-are_bytes : (cs : List ℕ) → are_bytes (sum_bytes cs ∷ []) ≡ true
mac-are_bytes cs = let small = sum_bytes-small cs in rw small refl

abbrev pub node : Signing
node = record {
  ttl_seconds = 30;
  hmac = λ text. sum_bytes text ∷ [];
  to_base64 = write;
  parse_base64 = parse;
}

pub laws : SigningLaws node
laws = record {
  hmac_bytes = mac-are_bytes;
  hmac_nonempty = λ text. refl;
  base64_nonempty = λ p. refl;
  parse_to_base64 = parse-write;
}
