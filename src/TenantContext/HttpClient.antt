-- ===== src/TenantContext/HttpClient.antt =====
-- http/internal-http.client.ts: the headers of a call of another service.
use multi_tenant_subscriptio.Base.{List, none, some, ℕ}
use multi_tenant_subscriptio.Common.{TenantContextPayload}
use multi_tenant_subscriptio.Database.{Context}
use multi_tenant_subscriptio.TenantContext.Middleware.{HttpRequest, Url}
use multi_tenant_subscriptio.TenantContext.Signer.{
  PartialContext, SignedContext, Signing, sign, sign_anonymous,
}

pub record SignedHeaders : Type 0 where
  pub internal_context : List ℕ
  pub internal_signature : List ℕ
  pub correlation_id : ℕ

abbrev pub headers_of : SignedContext → ℕ → SignedHeaders
headers_of signed correlation_id = record {
  internal_context = signed.payload_b64;
  internal_signature = signed.signature;
  correlation_id = correlation_id;
}

abbrev pub forwarded_context : TenantContextPayload → PartialContext
forwarded_context ctx = record {
  user_id = ctx.user_id;
  organization_id = ctx.organization_id;
  roles = ctx.roles;
  correlation_id = ctx.correlation_id;
}

-- `random_uuid` is the correlation id of a call outside every scope.
unfoldable pub with_signed_headers : Signing → (now random_uuid : ℕ) → Context → SignedHeaders
unfolding sign sign_anonymous
with_signed_headers node now random_uuid (some ctx) =
    headers_of (sign node now (forwarded_context ctx)) ctx.correlation_id
with_signed_headers node now random_uuid none =
    headers_of (sign_anonymous node now random_uuid) random_uuid

-- The call as the other service receives it.
abbrev pub received : SignedHeaders → (url : Url) → HttpRequest
received headers url = record {
  original_url = url;
  path = url;
  context_header = some headers.internal_context;
  signature_header = some headers.internal_signature;
}
