-- ===== src/TenantContext/Tests.antt =====
-- The theorems at a toy MAC and a toy encoding.
use multi_tenant_subscriptio.Base.{[], false, get_or, refl, some, ◌∷◌, ◌≡◌, ◌≤◌}
use multi_tenant_subscriptio.Common.{TenantContextPayload, org_member}
use multi_tenant_subscriptio.TenantContext.Admission.{admit-verified}
use multi_tenant_subscriptio.TenantContext.Hex.{from_hex, to_hex}
use multi_tenant_subscriptio.TenantContext.Middleware.{
  HttpRequest, admit, can_activate, guarded, other, use_context,
}
use multi_tenant_subscriptio.TenantContext.Signer.{PartialContext, context, stamped, verify}
use multi_tenant_subscriptio.TenantContext.ToySigning.{laws, node}

abbrev member : PartialContext
member = record {
  user_id = some 2;
  organization_id = some 9;
  roles = org_member ∷ [];
  correlation_id = 3;
}

hex_run : from_hex (to_hex (0 ∷ 171 ∷ 255 ∷ [])) ≡ 0 ∷ 171 ∷ 255 ∷ []
hex_run = refl

abbrev request : HttpRequest
request = record {
  original_url = other 4;
  path = other 4;
  context_header = some (node.to_base64 (stamped node 100 member));
  signature_header = some (to_hex (node.hmac (node.to_base64 (stamped node 100 member))));
}

admit-verified_example :
    (p : TenantContextPayload) × (some (stamped node 100 member) ≡ some p)
    × (from_hex (get_or request.signature_header []) ≡ node.hmac (get_or request.context_header []))
    × (node.parse_base64 (get_or request.context_header []) ≡ some (context p))
    × (130 ≤ p.exp)
unfolding admit guarded can_activate use_context verify
admit-verified_example =
    admit-verified node laws 130 false request (some (stamped node 100 member)) refl refl
