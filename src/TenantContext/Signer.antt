-- ===== src/TenantContext/Signer.antt =====
-- store/internal-context.signer.ts.
use multi_tenant_subscriptio.Base.{
  Bool, List, Option, [], false, if◌then◌else◌, length, ltb, none, some, true, ℕ, ◌+◌, ◌==◌, ◌||◌,
  ◌∷◌,
}
use multi_tenant_subscriptio.Common.{Role, TenantContextPayload, type_error}
use multi_tenant_subscriptio.Database.{Outcome, returned, thrown}
use multi_tenant_subscriptio.TenantContext.Hex.{eq_bytes, from_hex, to_hex}

-- What JSON.parse makes of a text: `null`, an object whose `exp` is a number, or another value.
pub data Parsed : Type 0 where
  null_value other_value : Parsed
  context : TenantContextPayload → Parsed

-- The configuration, and what node does. Texts are lists of character codes.
pub record Signing : Type 0 where
  pub ttl_seconds : ℕ
  -- createHmac('sha256', secret).update(text).digest() with the configured secret, in bytes
  pub hmac : List ℕ → List ℕ
  pub to_base64 : TenantContextPayload → List ℕ  -- base64 of JSON.stringify
  -- JSON.parse of the text that the base64 stands for; `none` if it throws
  pub parse_base64 : List ℕ → Option Parsed

pub record SignedContext : Type 0 where
  pub payload_b64 : List ℕ
  pub signature : List ℕ

-- `Omit<TenantContextPayload, 'iat' | 'exp'>`
pub record PartialContext : Type 0 where
  pub user_id : Option ℕ
  pub organization_id : Option ℕ
  pub roles : List Role
  pub correlation_id : ℕ

abbrev pub is_empty : List ℕ → Bool
is_empty [] = true
is_empty (c ∷ cs) = false

module _ (node : Signing) where
  abbrev pub compute_signature : List ℕ → List ℕ
  compute_signature payload_b64 = to_hex (node.hmac payload_b64)

  abbrev pub stamped : ℕ → PartialContext → TenantContextPayload
  stamped now p = record {
    user_id = p.user_id;
    organization_id = p.organization_id;
    roles = p.roles;
    correlation_id = p.correlation_id;
    iat = now;
    exp = now + node.ttl_seconds;
  }

  -- `now` is the time in seconds.
  unfoldable pub sign : (now : ℕ) → PartialContext → SignedContext
  sign now p =
      let payload_b64 = node.to_base64 (stamped now p) in
      record { payload_b64 = payload_b64; signature = compute_signature payload_b64 }

  unfoldable pub sign_anonymous : (now correlation_id : ℕ) → SignedContext
  unfolding sign
  sign_anonymous now correlation_id = sign now (record {
    user_id = none;
    organization_id = none;
    roles = [];
    correlation_id = correlation_id;
  })

abbrev pub safe_equal : List ℕ → List ℕ → Bool
safe_equal a b =
    if length (from_hex a) == length (from_hex b) then eq_bytes (from_hex a) (from_hex b) else false

abbrev pub unexpired_payload : ℕ → Option Parsed → Outcome (Option TenantContextPayload)
unexpired_payload now none = returned none
unexpired_payload now (some null_value) = thrown type_error
unexpired_payload now (some other_value) = returned none
unexpired_payload now (some (context payload)) =
    returned (if ltb payload.exp now then none else some payload)

-- `null` is `none`.
unfoldable pub verify :
    Signing → (now : ℕ) → (payload_b64 signature : List ℕ) → Outcome (Option TenantContextPayload)
verify node now payload_b64 signature =
    if is_empty payload_b64 || is_empty signature
    then returned none
    else (if safe_equal (compute_signature node payload_b64) signature
        then unexpired_payload now (node.parse_base64 payload_b64)
        else returned none)
