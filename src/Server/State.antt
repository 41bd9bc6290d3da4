-- ===== src/Server/State.antt =====
-- What a handler of server.go reads and writes: net/http's request and response writer, and the
-- metrics. An action returns its result with the new state.
use n8n_gw.Security.Cookie.{Cookie, RequestCookies}
use n8n_gw.Routes.{RouteClass}
use n8n_gw.Base.{
  ℕ, Text, codes, if◌then◌else◌, Bool, false, none, some, List, [], ◌∷◌, ◌++◌, Dict, lookup, insert,
}

-- The request, as net/http has read it: r.URL.Path, r.URL.RequestURI(), r.URL.Query(), r.Cookies(),
-- r.FormValue and the error of r.ParseForm. `request_id` is the value of the context that RequestID
-- reads.
pub record Request : Type 0 where
  pub method : Text
  pub path : Text
  pub request_uri : Text
  pub host : Text
  pub remote_addr : Text
  pub headers : Dict Text
  pub cookies : RequestCookies
  pub query : Dict Text
  pub form : Dict Text
  pub form_is_bad : Bool
  pub request_id : Text

-- r.FormValue parses the form at its first call and drops the error. From then on r.ParseForm has the
-- form and returns nil.
abbrev pub form_parsed : Request → Request
form_parsed r = record r { form_is_bad = false }

-- Get of a header, a query or a form: "" for a missing key.
abbrev pub value_of : Text → Dict Text → Text
value_of key m = elim (lookup key m) [ none ↦ [] | some v ↦ v ]

pub record LinkPage : Type 0 where
  pub email : Text
  pub name : Text
  pub csrf_token : Text
  pub linked : Bool
  pub error : Text
  pub relink_hint : Bool

-- handleReady's checks: true is "ok", false is "error".
pub record Checks : Type 0 where
  pub redis : Bool
  pub vault : Bool
  pub n8n : Bool
  pub oidc : Bool

pub data Proxy : Type 0 where
  public_proxy : Proxy
  console_proxy : Proxy

-- One answer: a call that writes the status and the body.
pub data Answer : Type 0 where
  redirect : Text → Answer
  error_json : ℕ → Text → Text → Answer
  error_text : ℕ → Text → Answer
  page_not_found : Answer
  json_health : Answer
  json_ready : Bool → Checks → Answer
  metrics_page : Answer
  link_page : LinkPage → Answer
  raw : ℕ → Text → Answer
  proxied : Proxy → ℕ → Answer

unfoldable pub answer_status : Answer → ℕ
answer_status (redirect target) = 302
answer_status (error_json status code id) = status
answer_status (error_text status code) = status
answer_status page_not_found = 404
answer_status json_health = 200
answer_status (json_ready ready checks) = if ready then 200 else 503
answer_status metrics_page = 200
answer_status (link_page page) = 200
answer_status (raw status body) = status
answer_status (proxied which status) = status

-- A Set-Cookie header: a cookie of the gateway's own, or a rewritten line of the upstream's.
pub data SetCookie : Type 0 where
  own : Cookie → SetCookie
  upstream : Text → SetCookie

-- statusRecorder over the response writer.
pub record Response : Type 0 where
  pub headers : Dict Text
  pub set_cookies : List SetCookie
  pub status : ℕ
  pub answers : List Answer

pub data Metric : Type 0 where
  requests : RouteClass → ℕ → Metric
  oidc_login : Text → Metric
  n8n_login : Text → Metric
  vault_ops : Text → Text → Metric
  public_inflight_inc : Metric
  public_inflight_dec : Metric

pub record State (W : Type 0) : Type 0 where
  pub world : W
  pub response : Response
  pub metrics : List Metric

abbrev pub Action : Type 0 → Type 0 → Type 0
Action W A = State W → A × State W

module _ {W A B : Type 0} where
  infixl 5 ◌>>=◌ ◌>>◌
  abbrev pub ◌>>=◌ : Action W A → (A → Action W B) → Action W B
  ◌>>=◌ m f s = f (m s).0 (m s).1

  abbrev pub ◌>>◌ : Action W A → Action W B → Action W B
  ◌>>◌ m k s = k (m s).1

abbrev pub pure : {W A : Type 0} → A → Action W A
pure a s = (a, s)

abbrev pub Handler : Type 0 → Type 0
Handler W = Action W (Unit {0})

module _ {W : Type 0} where
  -- A call of a dependency.
  abbrev pub call : {A : Type 0} → (W → A × W) → Action W A
  call f s = ((f s.world).0, record s { world = (f s.world).1 })

  abbrev pub count : Metric → Handler W
  count m s = (tt, record s { metrics = s.metrics ++ m ∷ [] })

  unfoldable pub answer : Answer → Handler W
  unfolding answer_status
  answer a s = (
    tt,
    record s {
      response = record s.response {
        status = answer_status a;
        answers = s.response.answers ++ a ∷ [];
      };
    },
  )

  unfoldable pub set_header : Text → Text → Handler W
  unfolding insert
  set_header name value s = (
    tt,
    record s { response = record s.response { headers = insert name value s.response.headers } },
  )

  -- writeJSON
  abbrev pub write_json : Answer → Handler W
  write_json a = do set_header (codes "Content-Type") (codes "application/json"); answer a

  unfoldable pub add_cookie : SetCookie → Handler W
  add_cookie c s = (
    tt,
    record s { response = record s.response { set_cookies = s.response.set_cookies ++ c ∷ [] } },
  )

  unfoldable pub add_cookies : List SetCookie → Handler W
  unfolding add_cookie
  add_cookies [] = pure tt
  add_cookies (c ∷ cs) = do add_cookie c; add_cookies cs
