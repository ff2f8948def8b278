-- ===== src/TenantContext/Admission.antt =====
-- Which requests reach a handler, and in which scope.
use multi_tenant_subscriptio.Base.{
  Bool, Bool-cases, Option, [], arith, false, get_or, inl, inr, none, refl, some, ℕ, ◌≡◌, ◌≤◌,
}
use multi_tenant_subscriptio.Common.{TenantContextPayload}
use multi_tenant_subscriptio.Database.{Context, Outcome, Outcome-cases, returned, thrown}
use multi_tenant_subscriptio.TenantContext.Hex.{from_hex}
use multi_tenant_subscriptio.TenantContext.Middleware.{
  HttpRequest, Next, admit, can_activate, fail, guarded, is_health, opened, proceed, use_context,
}
use multi_tenant_subscriptio.TenantContext.Signature.{SigningLaws, verify_sound}
use multi_tenant_subscriptio.TenantContext.Signer.{Signing, context, verify}

opened-scope :
    (o : Outcome (Option TenantContextPayload)) (ctx : Context)
    → opened o ≡ proceed ctx
    → (p : TenantContextPayload) × (ctx ≡ some p) × (o ≡ returned (some p))
opened-scope (returned (some p)) ctx h = (p, ground arith, refl)
opened-scope (returned none) ctx h = ground arith
opened-scope (thrown e) ctx h = ground arith

guarded-scope :
    (is_public : Bool) (req : HttpRequest) (n : Next) (ctx : Context)
    → guarded is_public req n ≡ proceed ctx
    → n ≡ proceed ctx
unfolding guarded
guarded-scope is_public req (fail e) ctx h = ground arith
guarded-scope is_public req (proceed c) ctx h =
    elim (Outcome-cases (can_activate is_public req c)) [
      | inr (e, refused) ↦ ground arith
      | inl (admitted, asked) ↦ elim (Bool-cases admitted) [
        | inl yes' ↦ ground arith
        | inr no' ↦ ground arith
      ]
    ]

module _ (node : Signing) where
  -- A request for a path other than the two of the health checks, by a route that is not public,
  -- reaches its handler only in the scope of a context whose text is signed in the other header and
  -- which has not expired. This holds whatever the guard makes of `path`.
  pub admit-verified :
      SigningLaws node
      → (now : ℕ) (is_public : Bool) (req : HttpRequest) (ctx : Context)
      → is_health req.original_url ≡ false
      → admit node now is_public req ≡ proceed ctx
      → (p : TenantContextPayload) × (ctx ≡ some p)
        × (from_hex (get_or req.signature_header []) ≡ node.hmac (get_or req.context_header []))
        × (node.parse_base64 (get_or req.context_header []) ≡ some (context p))
        × (now ≤ p.exp)
  unfolding admit use_context
  admit-verified laws now is_public req ctx business admitted =
      let text = get_or req.context_header [] in
      let mac = get_or req.signature_header [] in
      let scoped = guarded-scope is_public req (use_context node now req) ctx admitted in
      let (p, is, verified) = opened-scope (verify node now text mac) ctx (ground arith) in
      let (genuine, parsed, timely) = verify_sound node laws now text mac p verified in
      (p, is, genuine, parsed, timely)
