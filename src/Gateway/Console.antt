-- ===== src/Gateway/Console.antt =====
-- cmd/n8n-proxy/main.go: who reaches the console of a gateway that main has put together.
use mathlib.Core.Path.{subst}
use n8n_gw.Config
use n8n_gw.Config.{Env, Result, load}
use n8n_gw.Session.{Session}
use n8n_gw.Session.Redis.{redis_session_prefix, value}
use n8n_gw.Session.Redis.Laws.{get_session_is_alive}
use n8n_gw.Vault.Kv.{KvStore}
use n8n_gw.Vault.Start.{Started, new_store}
use n8n_gw.Vault.Start.Auth.{auth_of}
use n8n_gw.Oidc
use n8n_gw.Oidc.{ProviderClient}
use n8n_gw.Routes.{
  RouteClass, route_internal, route_public_execution, route_blocked_native_login,
  route_native_login_alias, route_protected_console,
}
use n8n_gw.Server.State.{Request, State}
use n8n_gw.Server.Deps.{Deps, Config}
use n8n_gw.Server.Forwarding.{normalize_forwarded_headers}
use n8n_gw.Server.Sessions.{is_in, session_cookie_ids, require_session}
use n8n_gw.Server.Sessions.Ids.{require_session_lem}
use n8n_gw.Server.Serve.{serve_http, class_of, prepared, request_id}
use n8n_gw.Server.Answers.Http.{console_answers, is_forwarded, arrived, begun, serve_http-answers}
use n8n_gw.Server.New.{server_config, new}
use n8n_gw.Gateway.{
  Outside, Main, serving, exited, main, with_store, app, session_store, oidc_config,
}
use n8n_gw.Base.{
  ℕ, ◌+◌, ◌≤◌, ◌≡◌, ◌∙◌, ap, sym, refl, Text, true, Option, some, ◌++◌, inl, inr, ◌⊎◌, Option-cases,
  arith,
}

Result-cases :
    (r : Result Config.Config)
    → ((e : Config.Failure) × (r ≡ Config.err e)) ⊎ ((cfg : Config.Config) × (r ≡ Config.ok cfg))
Result-cases (Config.err e) = inl (e, refl)
Result-cases (Config.ok cfg) = inr (cfg, refl)

module _ {W : Type 0} (out : Outside W) where
  -- What stands behind a gateway that serves.
  pub record Built (env : Env) (w : W) (listen : Text) (cfg : Config.Config) (deps : Deps W)
      : Type 0 where
    pub kv : KvStore
    pub renewal : Option ℕ
    pub client : ProviderClient
    pub loaded : load out.parsers env ≡ Config.ok cfg
    pub stored :
        (new_store out.vault out.created (auth_of cfg) cfg.vault_kv_mount cfg.vault_kv_prefix w).0
        ≡ Started.started kv renewal
    pub discovered : Oidc.new out.discovered (oidc_config out cfg) ≡ some client
    pub over : deps ≡ app out cfg kv client

  abbrev BuiltBy : Env → W → Main W → Type 0
  BuiltBy env w (exited e) = Unit {0}
  BuiltBy env w (serving listen cfg deps) = Built env w listen cfg deps

  with_store-Built :
      (env : Env) (w : W) (at : Config.Config) (started : Started) (listen : Text)
      (cfg : Config.Config) (deps : Deps W)
      → load out.parsers env ≡ Config.ok at
      → (new_store out.vault out.created (auth_of at) at.vault_kv_mount at.vault_kv_prefix w).0
        ≡ started
      → with_store out at started ≡ serving listen cfg deps
      → Built env w listen cfg deps
  unfolding with_store
  with_store-Built env w at (Started.refused e) listen cfg deps loaded stored h =
      absurd (ground arith)
  with_store-Built env w at (Started.started kv renewal) listen cfg deps loaded stored h =
      elim (Option-cases (Oidc.new out.discovered (oidc_config out at))) [
        | inl none_there ↦ absurd (ground arith)
        | inr (client, made) ↦ subst (BuiltBy env w) (rw (made, with_store) at h) (record {
          kv = kv;
          renewal = renewal;
          client = client;
          loaded = loaded;
          stored = stored;
          discovered = made;
          over = refl;
        })
      ]

  pub main-Built :
      (env : Env) (w : W) (listen : Text) (cfg : Config.Config) (deps : Deps W)
      → (main out env w).0 ≡ serving listen cfg deps
      → Built env w listen cfg deps
  unfolding main
  main-Built env w listen cfg deps h = elim (Result-cases (load out.parsers env)) [
    | inl (e, broke) ↦ absurd (ground arith)
    | inr (at, loaded) ↦
        with_store-Built env w at _ listen cfg deps loaded refl (rw (loaded, main) at h)
  ]

module _ {W : Type 0} (deps : Deps W) (cfg : Config) where
  prepared-cookies : (r : Request) (id : Text) → (prepared deps cfg r id).cookies ≡ r.cookies
  unfolding normalize_forwarded_headers
  prepared-cookies r id = ground arith

  same_ids :
      (r : Request) (s : State W)
      → session_cookie_ids cfg (arrived deps cfg r s) ≡ session_cookie_ids cfg r
  unfolding session_cookie_ids
  same_ids r s = rw (prepared-cookies r (request_id deps cfg r s).0) refl

  -- A request that is forwarded has a session.
  forwarded :
      (class : RouteClass) (r : Request) (s : State W)
      → is_forwarded deps cfg class r s ≡ true
      → (class ≡ route_protected_console)
        × ((id : Text) × ((sess : Session) × ((require_session deps cfg r s).0 ≡ some (id, sess))))
  forwarded route_internal r s h = absurd (ground arith)
  forwarded route_public_execution r s h = absurd (ground arith)
  forwarded route_blocked_native_login r s h = absurd (ground arith)
  forwarded route_native_login_alias r s h = absurd (ground arith)
  forwarded route_protected_console r s h = elim (Option-cases (require_session deps cfg r s).0) [
    | inl missing ↦ absurd (ground arith)
    | inr ((id, sess), there) ↦ (refl, (id, (sess, there)))
  ]

  console-is_forwarded :
      (r : Request) (s : State W)
      → console_answers (serve_http deps cfg r s).1.response.answers
        ≡ console_answers s.response.answers + 1
      → is_forwarded deps cfg (class_of deps cfg r) (arrived deps cfg r s) (begun deps cfg r s)
        ≡ true
  console-is_forwarded r s h = ground (arith, (serve_http-answers deps cfg r s).1)

module _ {W : Type 0} (out : Outside W) where
  -- A session that a cookie names and that Redis holds, before the end of its life.
  pub record HasSession (cfg : Config.Config) (r : Request) : Type 0 where
    pub id : Text
    pub sess : Session
    pub at : W
    pub text : Text
    pub named : is_in id (session_cookie_ids (server_config cfg) r) ≡ true
    pub stored : (out.redis.get (redis_session_prefix ++ id) at).0 ≡ value text
    pub decoded : out.json.unmarshal_session text ≡ some sess
    pub alive : out.redis.now (out.redis.get (redis_session_prefix ++ id) at).1 ≤ sess.expires_at

  app-HasSession :
      (cfg : Config.Config) (kv : KvStore) (client : ProviderClient) (r : Request) (s : State W)
      → console_answers
          (serve_http (app out cfg kv client) (server_config cfg) r s).1.response.answers
        ≡ console_answers s.response.answers + 1
      → (class_of (app out cfg kv client) (server_config cfg) r ≡ route_protected_console)
        × HasSession cfg r
  unfolding new
  app-HasSession cfg kv client r s h =
      let deps = app out cfg kv client in
      let conf = server_config cfg in
      let r' = arrived deps conf r s in
      let (protected, (id, (sess, found))) =
        forwarded deps conf (class_of deps conf r) r' (begun deps conf r s)
          (console-is_forwarded deps conf r s h) in
      let (named, (w, got)) =
        require_session_lem deps conf r' (begun deps conf r s) id sess found in
      let (text, stored, decoded, alive) =
        get_session_is_alive out.redis out.json (session_store out cfg) id w sess got in
      (
        protected,
        record {
          id = id;
          sess = sess;
          at = w;
          text = text;
          named = ap (is_in id) (sym (same_ids deps conf r s)) ∙ named;
          stored = stored;
          decoded = decoded;
          alive = alive;
        },
      )

  -- If the gateway that main serves answers a request from the console, then the request is on a
  -- protected route, and one of its session cookies is the id of a session that Redis held under its key
  -- and whose life had not ended.
  pub main-HasSession :
      (env : Env) (w : W) (listen : Text) (cfg : Config.Config) (deps : Deps W) (r : Request)
      (s : State W)
      → (main out env w).0 ≡ serving listen cfg deps
      → console_answers (serve_http deps (server_config cfg) r s).1.response.answers
        ≡ console_answers s.response.answers + 1
      → (class_of deps (server_config cfg) r ≡ route_protected_console) × HasSession cfg r
  main-HasSession env w listen cfg deps r s served h =
      let built = main-Built out env w listen cfg deps served in
      subst
        (λ d.
          console_answers (serve_http d (server_config cfg) r s).1.response.answers
            ≡ console_answers s.response.answers + 1
          → (class_of d (server_config cfg) r ≡ route_protected_console) × HasSession cfg r)
        (sym built.over) (app-HasSession cfg built.kv built.client r s) h
