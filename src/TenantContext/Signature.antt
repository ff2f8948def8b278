-- ===== src/TenantContext/Signature.antt =====
-- What a signed context proves.
use multi_tenant_subscriptio.Base.{
  ==_refl, Bool-cases, List, Option, ap, arith, false, if◌then◌else◌, inl, inr, length, ltb, none,
  refl, some, sym, true, ℕ, ◌+◌, ◌==◌, ◌||◌, ◌∙◌, ◌≡◌, ◌≤◌,
}
use multi_tenant_subscriptio.Common.{TenantContextPayload}
use multi_tenant_subscriptio.Database.{returned}
use multi_tenant_subscriptio.TenantContext.Hex.{are_bytes, from_hex, to_hex}
use multi_tenant_subscriptio.TenantContext.HexDecoding.{
  eq_bytes_refl, eq_bytes_sound, from_hex-to_hex,
}
use multi_tenant_subscriptio.TenantContext.Signer.{
  Parsed, PartialContext, Signing, compute_signature, context, is_empty, null_value, other_value,
  safe_equal, sign, stamped, unexpired_payload, verify,
}

-- What is relied on of HMAC and of the encoding: a MAC is a list of bytes and not empty, and a text
-- is not empty and is parsed as what it was written for.
pub record SigningLaws (node : Signing) : Type 0 where
  pub hmac_bytes : (text : List ℕ) → are_bytes (node.hmac text) ≡ true
  pub hmac_nonempty : (text : List ℕ) → is_empty (to_hex (node.hmac text)) ≡ false
  pub base64_nonempty : (p : TenantContextPayload) → is_empty (node.to_base64 p) ≡ false
  pub parse_to_base64 :
      (p : TenantContextPayload) → node.parse_base64 (node.to_base64 p) ≡ some (context p)

safe_equal_refl : (text : List ℕ) → safe_equal text text ≡ true
safe_equal_refl text =
    let lengths = ==_refl (length (from_hex text)) in
    let self = eq_bytes_refl (from_hex text) in ground arith

safe_equal_sound : (a b : List ℕ) → safe_equal a b ≡ true → from_hex a ≡ from_hex b
safe_equal_sound a b same = elim (Bool-cases (length (from_hex a) == length (from_hex b))) [
  | inl equal ↦ eq_bytes_sound (from_hex a) (from_hex b) (ground arith)
  | inr unequal ↦ ground arith
]

unexpired_payload_sound :
    (now : ℕ) (parsed : Option Parsed) (p : TenantContextPayload)
    → unexpired_payload now parsed ≡ returned (some p)
    → (parsed ≡ some (context p)) × (now ≤ p.exp)
unexpired_payload_sound now none p h = (ground arith, ground arith)
unexpired_payload_sound now (some null_value) p h = (ground arith, ground arith)
unexpired_payload_sound now (some other_value) p h = (ground arith, ground arith)
unexpired_payload_sound now (some (context q)) p h = elim (Bool-cases (ltb q.exp now)) [
  | inl late ↦ (ground arith, ground arith)
  | inr timely ↦
      let same : q ≡ p = ground arith in
      let ends : q.exp ≡ p.exp = ap (λ x. x.exp) same in
      (ap (λ x. some (context x)) same, ground arith)
]

module _ (node : Signing) (laws : SigningLaws node) where
  -- What `sign` signed is verified as the same context, with the time of signing and its end, until
  -- that end has passed; from then on it is refused.
  pub verify-sign :
      (now later : ℕ) (p : PartialContext)
      → verify node later (sign node now p).payload_b64 (sign node now p).signature
        ≡ returned (if ltb (now + node.ttl_seconds) later then none else some (stamped node now p))
  unfolding verify sign
  verify-sign now later p =
      let text : List ℕ = node.to_base64 (stamped node now p) in
      let h1 = laws.base64_nonempty (stamped node now p) in
      let h2 = laws.hmac_nonempty text in
      let h3 = safe_equal_refl (to_hex (node.hmac text)) in
      let h4 = laws.parse_to_base64 (stamped node now p) in rw h1 (rw h2 (rw h3 (rw h4 refl)))

  -- A context that is verified was not expired, is what the header's text is parsed as, and the
  -- signature stands for the MAC of that text under the secret.
  pub verify_sound :
      (now : ℕ) (payload_b64 signature : List ℕ) (p : TenantContextPayload)
      → verify node now payload_b64 signature ≡ returned (some p)
      → (from_hex signature ≡ node.hmac payload_b64)
        × (node.parse_base64 payload_b64 ≡ some (context p))
        × (now ≤ p.exp)
  unfolding verify
  verify_sound now payload_b64 signature p accepted =
      let signed = compute_signature node payload_b64 in
      let bytes = from_hex-to_hex (node.hmac payload_b64) (laws.hmac_bytes payload_b64) in
      elim (Bool-cases (is_empty payload_b64 || is_empty signature)) [
        | inl missing ↦ (ground arith, ground arith, ground arith)
        | inr present ↦ elim (Bool-cases (safe_equal signed signature)) [
          | inr forged ↦ (ground arith, ground arith, ground arith)
          | inl genuine ↦
              let same = safe_equal_sound signed signature genuine in
              let (parsed, timely) =
                unexpired_payload_sound now (node.parse_base64 payload_b64) p (ground arith) in
              (sym same ∙ bytes, parsed, timely)
        ]
      ]
