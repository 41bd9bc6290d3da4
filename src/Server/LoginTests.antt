-- ===== src/Server/LoginTests.antt =====
-- The login and the logout at a concrete gateway, whose world is the list of the deleted sessions.
use n8n_gw.Session
use n8n_gw.Session.{Session, OidcState}
use n8n_gw.Vault
use n8n_gw.Vault.{Credential}
use n8n_gw.N8n.{LoginResult, logged_in}
use n8n_gw.Oidc.{Identity}
use n8n_gw.Security.Cookie.{clear_proxy_session_cookies, clear_n8n_bridge_cookie}
use n8n_gw.Server.State.{Request, value_of, State, SetCookie, own, redirect}
use n8n_gw.Server.Deps.{Deps}
use n8n_gw.Server.Sessions.{is_in, session_cookie_ids}
use n8n_gw.Server.Auth.{handle_auth_callback, handle_proxy_logout}
use n8n_gw.Server.Logout.{IsDeleting, AllDeleted, handle_proxy_logout_lem}
use n8n_gw.Server.Callback.{Refuses, handle_auth_callback-Refuses}
use n8n_gw.Server.Tests.{alice, net, cfg, console}
use n8n_gw.Base.{
  ◌≡◌, ◌⊎◌, Text, codes, ◌==◌, eq_iff, true, false, ◌||◌, none, some, List, [], ◌∷◌, ◌++◌, map,
  arith,
}

abbrev pub login_state : OidcState
login_state = record {
  nonce = codes "n";
  code_verifier = codes "v";
  return_to = codes "/workflows";
  created_at = 5;
}

abbrev pub identity : Identity
identity = record {
  issuer = codes "idp";
  subject = codes "alice";
  email = [];
  name = codes "Alice";
}

abbrev pub credential : Credential
credential = record {
  issuer = codes "idp";
  subject = codes "alice";
  email = [];
  n8n_email_or_login_id = codes "alice@example.org";
  n8n_password = codes "pw";
  linked_at = 3;
  updated_at = 4;
}

abbrev pub n8n_session : LoginResult
n8n_session = record { status_code = 200; body = []; cookies = codes "n8n-auth=x; Domain=n8n" ∷ [] }

abbrev pub deps : Deps (List Text)
deps = record {
  sessions = record {
    create_session = λ sess w. (Session.ok (codes "s"), w);
    save_session = λ id sess w. (Session.ok tt, w);
    get_session = λ id w. (Session.ok alice, w);
    delete_session = λ id w. (Session.ok tt, id ∷ w);
    store_oidc_state = λ state v w. (Session.ok tt, w);
    take_oidc_state = λ state w. (Session.ok login_state, w);
    get_csrf = λ id w. (Session.ok (codes "t"), w);
    set_csrf = λ id token w. (Session.ok tt, w);
    ping = λ w. (Session.ok tt, w);
  };
  credentials = record {
    get = λ i s w. (Vault.ok credential, w);
    put = λ c w. (Vault.ok tt, w);
    delete = λ i s w. (Vault.ok tt, w);
    ping = λ w. (Vault.ok tt, w);
  };
  oidc = record {
    auth_code_url = λ a b c. codes "https://idp/auth";
    exchange = λ a b c w. (some identity, w);
    ping = λ w. (true, w);
  };
  n8n = record {
    login = λ i p h w. (logged_in n8n_session, w);
    current_user = λ c w. (none, w);
    logout = λ c w. ((record { status_code = 200; cookies = [] }, true), w);
    ping = λ w. (true, w);
  };
  public_handler = λ r w. (200, w);
  console_handler = λ r w. (200, w);
  random_base64_url = λ n w. (some (codes "r"), w);
  now = λ w. 1;
  unix_nano = λ w. codes "1";
  net = net;
}

abbrev pub callback : Request
callback = record console {
  path = codes "/auth/callback";
  query = (codes "state", codes "st") ∷ (codes "code", codes "c") ∷ [];
}

abbrev initial : State (List Text)
initial = record {
  world = [];
  response = record { headers = []; set_cookies = []; status = 200; answers = [] };
  metrics = [];
}

abbrev Gone : List Text → Text → Type 0
Gone w id = is_in id w ≡ true

deletion : IsDeleting deps cfg Gone
unfolding is_in
deletion = record {
  deletes = λ id w. ground (arith, eq_iff id id);
  keeps = λ id at w h. ground arith;
  logs_out = λ cookie at w h. h;
}

handle_proxy_logout_lem_example :
    let t = (handle_proxy_logout deps cfg console initial).1 in
    (AllDeleted deps cfg (session_cookie_ids cfg console) initial.world
      → (id : Text) → is_in id (session_cookie_ids cfg console) ≡ true
      → Gone t.world id)
    × (t.response.answers ≡ initial.response.answers ++ redirect (codes "/") ∷ [])
    × (t.response.status ≡ 302)
    × ((n8n : List SetCookie) × (t.response.set_cookies
          ≡ n8n
            ++ map own (clear_proxy_session_cookies cfg.cookie_secure)
            ++ own (clear_n8n_bridge_cookie cfg.cookie_secure) ∷ []))
handle_proxy_logout_lem_example = handle_proxy_logout_lem deps cfg Gone deletion console initial

handle_auth_callback-Refuses_example :
    let state = value_of (codes "state") callback.query in
    let code = value_of (codes "code") callback.query in
    let took = deps.sessions.take_oidc_state state [] in
    let t = (handle_auth_callback deps cfg callback initial).1 in
    ((state ≡ []) ⊎ (code ≡ []) → Refuses deps cfg initial t [] 400)
    × ((e : Session.Failure)
        → state == [] || code == [] ≡ false
        → took.0 ≡ Session.err e
        → Refuses deps cfg initial t took.1 400)
    × ((stored : OidcState)
        → state == [] || code == [] ≡ false
        → took.0 ≡ Session.ok stored
        → (deps.oidc.exchange code stored.nonce stored.code_verifier took.1).0 ≡ none
        → Refuses deps cfg initial t
            (deps.oidc.exchange code stored.nonce stored.code_verifier took.1).1
            401)
handle_auth_callback-Refuses_example = handle_auth_callback-Refuses deps cfg callback initial
