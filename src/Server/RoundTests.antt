-- ===== src/Server/RoundTests.antt =====
-- A login and its callback over the login states of MemoryStore.
use n8n_gw.Session
use n8n_gw.Session.{OidcState}
use n8n_gw.Session.Memory
use n8n_gw.Session.Memory.{MemoryStore, new_memory_store}
use n8n_gw.Session.Memory.Laws.{take_oidc_state_once}
use n8n_gw.Vault
use n8n_gw.N8n.{logged_in}
use n8n_gw.Server.State.{Request, value_of, State, redirect}
use n8n_gw.Server.Deps.{Deps}
use n8n_gw.Server.Targets.{safe_return_to}
use n8n_gw.Server.Sessions.{session_cookie_ids, ids_of_names, ids_of_name}
use n8n_gw.Server.Auth.{handle_auth_login, handle_auth_callback}
use n8n_gw.Server.Callback.Run.{Succeeds}
use n8n_gw.Server.Login.{
  Begins, kept, handle_auth_login_lem, handle_auth_login-handle_auth_callback,
}
use n8n_gw.Server.Tests.{alice, net, cfg, console}
use n8n_gw.Server.LoginTests.{identity, credential, n8n_session}
use n8n_gw.Base.{
  ◌≡◌, ◌∙◌, ap, sym, refl, Text, codes, ◌==◌, true, none, some, [], ◌∷◌, ◌++◌, lookup, insert,
  remove,
}

abbrev deps : Deps MemoryStore
deps = record {
  sessions = record {
    create_session = λ sess w. (Session.ok (codes "s"), w);
    save_session = λ id sess w. (Session.ok tt, w);
    get_session = λ id w. (Session.ok alice, w);
    delete_session = λ id w. Memory.delete_session id w;
    store_oidc_state = λ state v w. Memory.store_oidc_state state v w;
    take_oidc_state = λ state w. Memory.take_oidc_state state w;
    get_csrf = λ id w. Memory.get_csrf id w;
    set_csrf = λ id token w. Memory.set_csrf id token w;
    ping = λ w. (Session.ok tt, w);
  };
  credentials = record {
    get = λ i s w. (Vault.ok credential, w);
    put = λ c w. (Vault.ok tt, w);
    delete = λ i s w. (Vault.ok tt, w);
    ping = λ w. (Vault.ok tt, w);
  };
  oidc = record {
    auth_code_url = λ a b c. codes "https://idp/auth";
    exchange = λ a b c w. (some identity, w);
    ping = λ w. (true, w);
  };
  n8n = record {
    login = λ i p h w. (logged_in n8n_session, w);
    current_user = λ c w. (none, w);
    logout = λ c w. ((record { status_code = 200; cookies = [] }, true), w);
    ping = λ w. (true, w);
  };
  public_handler = λ r w. (200, w);
  console_handler = λ r w. (200, w);
  random_base64_url = λ n w. (some (codes "r"), w);
  now = λ w. 1;
  unix_nano = λ w. codes "1";
  net = net;
}

abbrev login : Request
login = record console {
  path = codes "/auth/login";
  cookies = [];
  query = (codes "return_to", codes "/workflows") ∷ [];
}

abbrev callback : Request
callback = record login { query = (codes "state", codes "r") ∷ (codes "code", codes "c") ∷ [] }

abbrev store : MemoryStore
store = new_memory_store 100 10

abbrev at : MemoryStore → State MemoryStore
at w = record {
  world = w;
  response = record { headers = []; set_cookies = []; status = 200; answers = [] };
  metrics = [];
}

abbrev waiting : OidcState
waiting = kept deps cfg login (codes "r") (codes "r") 1

abbrev logged : MemoryStore
logged = (Memory.store_oidc_state (codes "r") waiting store).1

begins : Begins deps cfg login store
unfolding session_cookie_ids ids_of_names ids_of_name Memory.store_oidc_state
begins = record {
  state = codes "r";
  nonce = codes "r";
  verifier = codes "r";
  w1 = store;
  w2 = store;
  w3 = store;
  w4 = logged;
  no_cookie = refl;
  state_drawn = refl;
  nonce_drawn = refl;
  verifier_drawn = refl;
  stored = refl;
}

abbrev taken : MemoryStore
taken = (Memory.take_oidc_state (codes "r") logged).1

run : Succeeds deps cfg callback logged
unfolding Memory.store_oidc_state Memory.take_oidc_state lookup insert remove ◌==◌
run = record {
  stored = waiting;
  identity = identity;
  id = codes "s";
  cred = credential;
  result = n8n_session;
  sess = alice;
  w1 = taken;
  w2 = taken;
  w3 = taken;
  w4 = taken;
  w5 = taken;
  w6 = taken;
  w7 = taken;
  given = refl;
  taken = refl;
  exchanged = refl;
  created = refl;
  credential = refl;
  logged = refl;
  found = refl;
  saved = refl;
}

gives_back :
    (state : Text) (v : OidcState) (w w' : MemoryStore)
    → deps.sessions.store_oidc_state state v w ≡ (Session.ok tt, w')
    → (deps.sessions.take_oidc_state state w').0 ≡ Session.ok v
gives_back state v w w' e =
    ap (λ (x : MemoryStore). (Memory.take_oidc_state state x).0) (sym (ap (λ p. p.1) e))
    ∙ (take_oidc_state_once state v w).0

handle_auth_login-handle_auth_callback_example :
    let t = (handle_auth_login deps cfg login (at store)).1 in
    (t.response.answers ≡ [] ++ redirect (codes "https://idp/auth") ∷ [])
    × (t.response.set_cookies ≡ [])
    × (deps.oidc.exchange
          (value_of (codes "code") callback.query)
          begins.nonce
          begins.verifier
          run.w1
        ≡ (some run.identity, run.w2))
    × ((handle_auth_callback deps cfg callback (at logged)).1.response.answers
        ≡ [] ++ redirect (safe_return_to net (value_of (codes "return_to") login.query)) ∷ [])
unfolding lookup ◌==◌ begins
handle_auth_login-handle_auth_callback_example =
    handle_auth_login-handle_auth_callback deps cfg login callback (at store) (at logged) begins run
      gives_back (sym (handle_auth_login_lem deps cfg login (at store) begins).0) refl
