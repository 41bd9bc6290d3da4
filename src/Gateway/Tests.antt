-- ===== src/Gateway/Tests.antt =====
-- A gateway that main puts together from a small environment.
use n8n_gw.Config.{assemble, csv_default, fields_default}
use n8n_gw.Config.Tests.{parsers, env, cfg, loaded}
use n8n_gw.Session.Redis
use n8n_gw.Session.Redis.{RedisClient, Codec, value}
use n8n_gw.Vault.Kv.{VaultClient, KvStore, no_secret, done}
use n8n_gw.Vault.Start.{store_of}
use n8n_gw.Oidc
use n8n_gw.Oidc.{ProviderClient}
use n8n_gw.Oidc.Tests.{provider}
use n8n_gw.Proxy.{replied}
use n8n_gw.Routes.{route_protected_console, route_public_execution, classify_route, clean_path}
use n8n_gw.Security.Cookie.{has_n8n_bridge_cookie, proxy_session_cookie_name_for_secure}
use n8n_gw.Server.Forwarding.{normalize_forwarded_headers}
use n8n_gw.Vault.Start.Auth.{begun_with_token}
use n8n_gw.Server.State.{State}
use n8n_gw.Server.Deps.{Deps}
use n8n_gw.Server.Serve.{serve_http, class_of}
use n8n_gw.Server.Sessions.{
  require_session, on_found, lookup_session_from_cookies, session_cookie_ids, ids_of_names,
  ids_of_name, is_in, lookup_ids,
}
use n8n_gw.Server.Answers.Http.{console_answers, is_forwarded, arrived, begun, serve_http-answers}
use n8n_gw.Server.New.{Environment, new, server_config, nanoseconds}
use n8n_gw.Server.Tests.{alice, net, console}
use n8n_gw.Gateway.{Outside, serving, main, with_store, app, oidc_config}
use n8n_gw.Gateway.Console.{HasSession, main-HasSession}
use n8n_gw.Gateway.Upstream.{Forwards, main-Forwards}
use n8n_gw.Proxy.{is_print, upgrade_type}
use n8n_gw.Base.{
  ◌+◌, ◌≡◌, ◌∙◌, ◌≢◌, ap, refl, codes, trim_space, ◌==◌, ltb, if◌then◌else◌, true, none, some, [],
  ◌∷◌, lookup,
}

-- A server of Redis that knows one session.
abbrev redis : RedisClient (Unit {0})
redis = record {
  set = λ key v ttl w. (true, w);
  get = λ key w. (value (codes "alice"), w);
  get_del = λ key w. (value (codes "alice"), w);
  del = λ keys w. (true, w);
  ping = λ w. (true, w);
  random = λ w. (some (codes "s"), w);
  now = λ w. 7;
}

abbrev json : Codec
json = record {
  marshal_session = λ s. s.subject;
  unmarshal_session = λ t. some alice;
  marshal_state = λ s. s.nonce;
  unmarshal_state = λ t. none;
}

abbrev vault : VaultClient (Unit {0})
vault = record {
  read = λ path w. (done no_secret, w);
  write = λ path payload w. (done tt, w);
  delete = λ path w. (done tt, w);
  lookup_self = λ w. (done tt, w);
  renew_self = λ w. (true, w);
  app_role_login = λ role secret w. (done none, w);
  set_token = λ token w. w;
  now = λ w. 7;
}

abbrev environment : Environment (Unit {0})
environment = record {
  round_trip = λ limit until r w. (replied (record { status = 200; set_cookies = [] }), w);
  count_upstream_error = λ class w. w;
  random_base64_url = λ n w. (some (codes "r"), w);
  now = λ w. 7;
  unix_nano = λ w. codes "7";
  net = net;
}

abbrev out : Outside (Unit {0})
out = record {
  parsers = parsers;
  reads_redis_url = λ url. true;
  redis = redis;
  json = json;
  vault = vault;
  created = true;
  formats = record {
    format_time = λ t. t ∷ [];
    parse_rfc3339 = λ t. none;
    hash_component = λ s. s;
  };
  provider = provider;
  discovered = true;
  callback_url = λ u. codes "https://n8n.example.org/auth/callback";
  transport = λ timeout method url headers body w. (none, w);
  login_body = λ id password. id;
  environment = environment;
}

abbrev kv : KvStore
kv = store_of cfg.vault_kv_mount cfg.vault_kv_prefix [] []

abbrev client : ProviderClient
client = record {
  has_provider = true;
  has_verifier = true;
  scopes = codes "openid" ∷ codes "profile" ∷ codes "email" ∷ [];
  redirect_url = codes "https://n8n.example.org/auth/callback";
}

abbrev deps : Deps (Unit {0})
deps = app out cfg kv client

has_token : cfg.vault_token ≢ []
unfolding assemble lookup ◌==◌
has_token e = cc

discovers : Oidc.new true (oidc_config out cfg) ≡ some client
unfolding Oidc.new oidc_config assemble fields_default trim_space lookup ◌==◌
discovers = refl

served : (main out env tt).0 ≡ serving cfg.listen_addr cfg deps
unfolding main with_store
served =
    rw (loaded, main)
      (ap (with_store out cfg) (begun_with_token vault cfg tt has_token)
        ∙ rw (discovers, with_store) refl)

abbrev start : State (Unit {0})
start = record {
  world = tt;
  response = record { headers = []; set_cookies = []; status = 200; answers = [] };
  metrics = [];
}

to_console :
    is_forwarded deps
      (server_config cfg)
      (class_of deps (server_config cfg) console)
      (arrived deps (server_config cfg) console start)
      (begun deps (server_config cfg) console start)
    ≡ true
unfolding require_session classify_route assemble csv_default trim_space lookup on_found
    lookup_session_from_cookies session_cookie_ids ids_of_names ids_of_name
    normalize_forwarded_headers proxy_session_cookie_name_for_secure is_in lookup_ids new
    Redis.get_session has_n8n_bridge_cookie clean_path ◌==◌
to_console = refl

reaches :
    console_answers (serve_http deps (server_config cfg) console start).1.response.answers
    ≡ console_answers start.response.answers + 1
reaches = (serve_http-answers deps (server_config cfg) console start).1 ∙ rw to_console refl

main-HasSession_example :
    (class_of deps (server_config cfg) console ≡ route_protected_console)
    × HasSession out cfg console
main-HasSession_example =
    main-HasSession out env tt cfg.listen_addr cfg deps console start served reaches

main-Forwards_example :
    Forwards out.environment cfg route_protected_console none console tt
      (deps.console_handler console tt)
    × Forwards out.environment cfg route_public_execution
        (if ltb 0 (nanoseconds cfg.public_execution_body_limit)
          then some (nanoseconds cfg.public_execution_body_limit)
          else none)
        console
        tt
        (deps.public_handler console tt)
unfolding is_print upgrade_type lookup
main-Forwards_example = main-Forwards out env tt cfg.listen_addr cfg deps served console tt refl
