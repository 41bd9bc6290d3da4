-- ===== src/Server/Tests.antt =====
-- The laws of the server at a concrete gateway: one session "s" with the token "t".
use n8n_gw.Session
use n8n_gw.Session.{Session, SessionStore}
use n8n_gw.Vault
use n8n_gw.N8n.{refused, invalid_credential}
use n8n_gw.Security.Cookie.{
  insecure_proxy_session_cookie_name, proxy_session_cookie_name,
  proxy_session_cookie_name_for_secure,
}
use n8n_gw.Security.Tokens.{equal_token}
use n8n_gw.Server.State.{Request, State}
use n8n_gw.Server.Deps.{Deps, Net, Config}
use n8n_gw.Server.Targets.{safe_return_to, native_login_return_to}
use n8n_gw.Server.Targets.Safe.{
  IsSafeTarget, safe_return_to-IsSafeTarget, native_login_return_to-IsSafeTarget,
}
use n8n_gw.Server.Sessions.{
  is_in, ids_of_name, ids_of_names, session_cookie_ids, lookup_ids, lookup_session_from_cookies,
  on_found, require_session,
}
use n8n_gw.Server.Sessions.Ids.{distinct, has_cookie, session_cookie_ids_lem, require_session_lem}
use n8n_gw.Server.Ready.{handle_ready}
use n8n_gw.Server.Readiness.{handle_ready_status}
use n8n_gw.Server.Link.{handle_link_post}
use n8n_gw.Server.Csrf.{handle_link_post_refuses}
use n8n_gw.Server.Serve.{serve_http, class_of}
use n8n_gw.Server.Answers.Http.{console_answers, is_forwarded, arrived, begun, serve_http-answers}
use n8n_gw.Base.{
  ◌+◌, ◌≡◌, ◌⊎◌, ◌↔◌, refl, Text, codes, ◌==◌, if◌then◌else◌, true, false, not, ◌&&◌, ◌||◌, none,
  some, [], ◌∷◌, length, lookup,
}

abbrev pub alice : Session
alice = record {
  issuer = codes "idp";
  subject = codes "alice";
  email = codes "alice@example.org";
  name = codes "Alice";
  linked = true;
  created_at = 0;
  expires_at = 100;
}

abbrev one_session : SessionStore (Unit {0})
one_session = record {
  create_session = λ sess w. (Session.ok (codes "s"), w);
  save_session = λ id sess w. (Session.ok tt, w);
  get_session = λ id w. (Session.ok alice, w);
  delete_session = λ id w. (Session.ok tt, w);
  store_oidc_state = λ state v w. (Session.ok tt, w);
  take_oidc_state = λ state w. (Session.err Session.not_found, w);
  get_csrf = λ id w. (Session.ok (codes "t"), w);
  set_csrf = λ id token w. (Session.ok tt, w);
  ping = λ w. (Session.ok tt, w);
}

abbrev pub net : Net
net = record {
  split_host_port = λ s. none;
  parse_ip = λ s. none;
  cidr_contains = λ c s. none;
  parse_authority = λ s. none;
  request_uri = λ u. codes "/";
  query_escape = λ s. s;
}

abbrev deps : Deps (Unit {0})
deps = record {
  sessions = one_session;
  credentials = record {
    get = λ i s w. (Vault.err Vault.not_found, w);
    put = λ c w. (Vault.ok tt, w);
    delete = λ i s w. (Vault.ok tt, w);
    ping = λ w. (Vault.ok tt, w);
  };
  oidc = record {
    auth_code_url = λ a b c. codes "https://idp/auth";
    exchange = λ a b c w. (none, w);
    ping = λ w. (true, w);
  };
  n8n = record {
    login = λ i p h w. (refused invalid_credential, w);
    current_user = λ c w. (none, w);
    logout = λ c w. ((record { status_code = 200; cookies = [] }, true), w);
    ping = λ w. (true, w);
  };
  public_handler = λ r w. (200, w);
  console_handler = λ r w. (200, w);
  random_base64_url = λ n w. (some (codes "r"), w);
  now = λ w. 1;
  unix_nano = λ w. codes "1";
  net = net;
}

abbrev pub cfg : Config
cfg = record {
  public_base_host = codes "n8n.example.org";
  public_base_scheme = codes "https";
  session_ttl_seconds = 3600;
  public_bypass_prefixes = codes "/webhook/" ∷ [];
  cookie_secure = false;
  trusted_proxy_cidrs = [];
}

-- A post of the link form without a token, and a request for the console.
abbrev pub forged : Request
forged = record {
  method = codes "POST";
  path = codes "/n8n-link";
  request_uri = codes "/n8n-link";
  host = codes "n8n.example.org";
  remote_addr = codes "10.0.0.1:9";
  headers = [];
  cookies = (codes "n8np_session", codes "s") ∷ [];
  query = (codes "redirect", codes "/workflows") ∷ [];
  form = [];
  form_is_bad = false;
  request_id = [];
}

abbrev pub console : Request
console = record forged {
  method = codes "GET";
  path = codes "/workflows";
  cookies = (codes "n8np_session", codes "s") ∷ (codes "n8np_n8n_bridge", codes "1") ∷ [];
}

abbrev initial : State (Unit {0})
initial = record {
  world = tt;
  response = record { headers = []; set_cookies = []; status = 200; answers = [] };
  metrics = [];
}

serve_http-answers_example :
    (length (serve_http deps cfg console initial).1.response.answers
      ≡ length initial.response.answers + 1)
    × (console_answers (serve_http deps cfg console initial).1.response.answers
        ≡ console_answers initial.response.answers
          + (if is_forwarded deps cfg
                (class_of deps cfg console)
                (arrived deps cfg console initial)
                (begun deps cfg console initial)
              then 1
              else 0))
serve_http-answers_example = serve_http-answers deps cfg console initial

handle_link_post_refuses_example :
    ((handle_link_post deps cfg forged initial).1.world
      ≡ (one_session.get_csrf (codes "s") (require_session deps cfg forged initial).1.world).1)
    × ((handle_link_post deps cfg forged initial).1.response.status ≡ 403)
unfolding require_session on_found lookup_session_from_cookies session_cookie_ids ids_of_names
    ids_of_name ◌==◌ proxy_session_cookie_name_for_secure is_in lookup_ids equal_token lookup
handle_link_post_refuses_example =
    handle_link_post_refuses deps cfg forged initial (codes "s") alice refl refl

safe_return_to-IsSafeTarget_example : IsSafeTarget net (safe_return_to net (codes "//evil.example"))
safe_return_to-IsSafeTarget_example = safe_return_to-IsSafeTarget net (codes "//evil.example")

native_login_return_to-IsSafeTarget_example : IsSafeTarget net (native_login_return_to net forged)
native_login_return_to-IsSafeTarget_example = native_login_return_to-IsSafeTarget net forged

require_session_lem_example :
    (is_in (codes "s") (session_cookie_ids cfg console) ≡ true)
    × ((w : Unit {0}) × ((one_session.get_session (codes "s") w).0 ≡ Session.ok alice))
unfolding require_session on_found lookup_session_from_cookies session_cookie_ids ids_of_names
    ids_of_name ◌==◌ proxy_session_cookie_name_for_secure is_in lookup_ids
require_session_lem_example = require_session_lem deps cfg console initial (codes "s") alice refl

session_cookie_ids_lem_example :
    (distinct (session_cookie_ids cfg console) ≡ true)
    × ((id : Text)
        → is_in id (session_cookie_ids cfg console) ≡ (
            not (id == [])
            && (has_cookie insecure_proxy_session_cookie_name id console.cookies
                || (has_cookie
                      (proxy_session_cookie_name_for_secure cfg.cookie_secure)
                      id
                      console.cookies
                    || has_cookie proxy_session_cookie_name id console.cookies))))
session_cookie_ids_lem_example = session_cookie_ids_lem cfg console

handle_ready_status_example :
    (((handle_ready deps console initial).1.response.status ≡ 200) ↔ (
      ((one_session.ping tt).0 ≡ Session.ok tt)
      × ((deps.credentials.ping tt).0 ≡ Vault.ok tt)
      × ((deps.n8n.ping tt).0 ≡ true)
      × ((deps.oidc.ping tt).0 ≡ true)))
    × (((handle_ready deps console initial).1.response.status ≡ 200)
        ⊎ ((handle_ready deps console initial).1.response.status ≡ 503))
handle_ready_status_example = handle_ready_status deps console initial
