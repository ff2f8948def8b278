-- ===== src/ApiGateway/Identity.antt =====
-- Whose context a service is called with: from the verified token through the signed headers to the
-- scope that the other service's middleware opens.
use multi_tenant_subscriptio.Base.{
  Bool, Bool-cases, Option, arith, false, get_or, inl, inr, ltb, refl, some, ℕ, ◌+◌, ◌≡◌, ◌≤◌,
}
use multi_tenant_subscriptio.Common.{TenantContextPayload}
use multi_tenant_subscriptio.ApiGateway.Jwt.{JwtAccessPayload, empty_id, intercept, payload_of}
use multi_tenant_subscriptio.TenantContext.{
  Signing, admit, can_activate, forwarded_context, guarded, other, proceed, received, use_context,
  with_signed_headers,
}
use multi_tenant_subscriptio.TenantContext.Signature.{SigningLaws, verify-sign}

-- What a service's handler runs with, for a user of the gateway at `now`.
abbrev pub identity : Signing → (now : ℕ) → JwtAccessPayload → Option ℕ → TenantContextPayload
identity node now principal correlation_header = record {
  user_id = some principal.sub;
  organization_id = principal.organization_id;
  roles = principal.roles;
  correlation_id = get_or correlation_header empty_id;
  iat = now;
  exp = now + node.ttl_seconds;
}

-- A service that is called in the scope of a verified access token, on a path that is no health
-- check, while the signature lasts, runs its handler with the user, the organisation and the roles
-- of that token, whatever else the client has sent.
pub forwarded-identity :
    (node : Signing)
    → SigningLaws node
    → (now random_uuid later : ℕ) (principal : JwtAccessPayload) (correlation_header : Option ℕ)
    → (is_public : Bool) (path : ℕ) → later ≤ now + node.ttl_seconds
    → admit node later is_public (
        received
          (with_signed_headers node now random_uuid (intercept (some principal) correlation_header))
          (other path))
      ≡ proceed (some (identity node now principal correlation_header))
unfolding admit use_context guarded can_activate with_signed_headers intercept
forwarded-identity node laws now random_uuid later principal correlation_header is_public path
      in_time =
    let signed =
      verify-sign node laws now later
        (forwarded_context (payload_of principal correlation_header)) in
    let valid : ltb (now + node.ttl_seconds) later ≡ false = ground arith in
    rw signed (
      rw valid (elim (Bool-cases is_public) [
        | inl open_route ↦ rw open_route refl
        | inr closed_route ↦ rw closed_route refl
      ]))
