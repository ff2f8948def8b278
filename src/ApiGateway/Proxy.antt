-- ===== src/ApiGateway/Proxy.antt =====
-- proxy/proxy.service.ts and proxy/downstream.config.ts.
use multi_tenant_subscriptio.Base.{
  List, Option, [], get_or, if◌then◌else◌, none, some, ℕ, ◌++◌, ◌==◌, ◌∷◌,
}
use multi_tenant_subscriptio.ApiGateway.ThrottleRoutes.{slash, strip_slashes}
use multi_tenant_subscriptio.Database.{Context}
use multi_tenant_subscriptio.TenantContext.{SignedHeaders, Signing, with_signed_headers}

pub data DownstreamService : Type 0 where
  auth_service tenant_service user_service subscription_service : DownstreamService
  resource_service audit_service : DownstreamService

pub data HttpMethod : Type 0 where
  get post patch delete : HttpMethod

-- Bodies and queries are passed on as they are, so each is a number; a path is a text.
pub record ProxyRequest : Type 0 where
  pub service : DownstreamService
  pub method : HttpMethod
  pub path : List ℕ
  pub body : Option ℕ
  pub query : Option ℕ

abbrev pub with_slash : List ℕ → List ℕ
with_slash [] = slash ∷ []
with_slash (c ∷ cs) = if c == slash then c ∷ cs else slash ∷ c ∷ cs

abbrev pub url_for : (DownstreamService → List ℕ) → DownstreamService → List ℕ → List ℕ
url_for base_urls service path = strip_slashes (base_urls service) ++ with_slash path

-- A call as axios makes it: the body goes with POST and PATCH only.
pub record HttpCall : Type 0 where
  pub method : HttpMethod
  pub url : List ℕ
  pub body : Option ℕ
  pub params : Option ℕ
  pub headers : SignedHeaders

-- What axios answers: data, an error with a response of another status, or an error without one.
pub data AxiosResult : Type 0 where
  data_of : ℕ → AxiosResult
  error_response : (status body : Option ℕ) → AxiosResult
  no_response : AxiosResult

-- `{ statusCode, message: 'Downstream error' }`, and the text of the 503.
pub data ErrorBody : Type 0 where
  downstream_body : ℕ → ErrorBody
  downstream_error : (status : ℕ) → ErrorBody
  unavailable : DownstreamService → ErrorBody

pub record HttpException : Type 0 where
  pub status : ℕ
  pub body : ErrorBody

pub data Forwarded : Type 0 where
  answered : ℕ → Forwarded
  failed : HttpException → Forwarded

abbrev pub body_of : ℕ → Option ℕ → ErrorBody
body_of status (some body) = downstream_body body
body_of status none = downstream_error status

abbrev pub normalise : ProxyRequest → AxiosResult → Forwarded
normalise req (data_of d) = answered d
normalise req (error_response status body) =
    failed (record { status = get_or status 502; body = body_of (get_or status 502) body })
normalise req no_response = failed (record { status = 503; body = unavailable req.service })

abbrev pub sent_body : ProxyRequest → Option ℕ
sent_body req = elim req.method [ get ↦ none | post ↦ req.body | patch ↦ req.body | delete ↦ none ]

-- The call in the scope `ctx`.
unfoldable pub forward :
    {S : Type 0}
    → Signing
    → (base_urls : DownstreamService → List ℕ) → (axios : HttpCall → S → AxiosResult × S)
    → (now random_uuid : ℕ) → Context
    → ProxyRequest
    → S
    → Forwarded × S
unfolding with_signed_headers
forward node base_urls axios now random_uuid ctx req s =
    let (result, s') =
      axios
        (record {
          method = req.method;
          url = url_for base_urls req.service req.path;
          body = sent_body req;
          params = req.query;
          headers = with_signed_headers node now random_uuid ctx;
        })
        s in
    (normalise req result, s')
