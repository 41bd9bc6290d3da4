-- ===== src/Gateway/Upstream.antt =====
-- cmd/n8n-proxy/main.go: what n8n gets from the two proxies of a gateway that main has put together.
use mathlib.Core.Path.{subst}
use n8n_gw.Config
use n8n_gw.Config.{Env}
use n8n_gw.Base.Int.{ℤ}
use n8n_gw.Proxy.{
  Outgoing, header, Outcome, replied, broke, error_status, deadline, is_print, upgrade_type,
  is_dropped, serve, modify_response, body_limit,
}
use n8n_gw.Proxy.Forwarded.{directed}
use n8n_gw.Proxy.Hops.{to_n8n, sent_lem, upgrade_type-directed}
use n8n_gw.Vault.Kv.{KvStore}
use n8n_gw.Oidc.{ProviderClient}
use n8n_gw.Routes.{RouteClass, route_public_execution, route_protected_console}
use n8n_gw.Security.Sanitize.{sanitized_upstream_cookie_header}
use n8n_gw.Server.State.{Request}
use n8n_gw.Server.Deps.{Deps}
use n8n_gw.Server.New.{Environment, nanoseconds, outgoing, proxy_to, proxy_handler, new}
use n8n_gw.Gateway.{Outside, serving, main, app}
use n8n_gw.Gateway.Console.{main-Built}
use n8n_gw.Base.{
  ℕ, ◌≡◌, ◌∙◌, sym, ap, Text, codes, ◌==◌, ltb, if◌then◌else◌, Bool, true, Option, none, some, [],
  lookup, arith,
}

abbrev pub status_of : Outcome → ℕ
status_of (replied resp) = resp.status
status_of (broke e) = error_status e

module _ {W : Type 0} (env : Environment W) (cfg : Config.Config) (class : RouteClass)
    (limit : Option ℕ) where
  abbrev pub world_after : Outcome → W → W
  world_after (replied resp) w = w
  world_after (broke e) w = env.count_upstream_error class w

  -- The client's Connection header names it, or it is a header of one hop.
  abbrev pub drops_header : Request → Text → Bool
  drops_header r name = is_dropped (header (codes "Connection") (outgoing r)) name

  -- One round trip to n8n, from a handler's status and its world.
  pub record Forwards (r : Request) (w : W) (result : ℕ × W) : Type 0 where
    pub sent : Outgoing
    pub until : Option ℕ
    pub status : result.0 ≡ status_of (env.round_trip limit until sent w).0
    pub world :
        result.1
        ≡ world_after (env.round_trip limit until sent w).0 (env.round_trip limit until sent w).1
    pub scheme : sent.scheme ≡ cfg.n8n_upstream_url.scheme
    pub host : sent.host ≡ cfg.n8n_upstream_url.host
    pub url_host : sent.url_host ≡ cfg.n8n_upstream_url.host
    pub forwarded_host : lookup (codes "X-Forwarded-Host") sent.headers ≡ (
        if drops_header r (codes "X-Forwarded-Host") then none else some cfg.public_base_url.host)
    pub forwarded_proto : lookup (codes "X-Forwarded-Proto") sent.headers ≡ (
        if drops_header r (codes "X-Forwarded-Proto")
        then none
        else some cfg.public_base_url.scheme)
    pub cookie : lookup (codes "Cookie") sent.headers ≡ (
        let cookie = sanitized_upstream_cookie_header (header (codes "Cookie") (outgoing r)) in
        if drops_header r (codes "Cookie")
        then none
        else if cookie == []
        then none
        else some cookie)

  one_round_trip :
      (timeout : ℤ) (r : Request) (w : W)
      → is_print (upgrade_type (outgoing r)) ≡ true
      → let got =
          env.round_trip limit
            (deadline (proxy_to cfg timeout) (outgoing r))
            (to_n8n env.net.split_host_port cfg.n8n_upstream_url cfg.public_base_url (outgoing r))
            w in
        let result = proxy_handler env class (proxy_to cfg timeout) limit r w in
        (result.0 ≡ status_of got.0) × (result.1 ≡ world_after got.0 got.1)
  unfolding proxy_handler serve modify_response
  one_round_trip timeout r w printable =
      let p = proxy_to cfg timeout in
      let printed : is_print (
            upgrade_type
              (directed env.net.split_host_port p.upstream cfg.public_base_url (outgoing r)))
          ≡ true =
        ap is_print (
          upgrade_type-directed env.net.split_host_port p.upstream cfg.public_base_url (outgoing r))
        ∙ printable in
      ground (arith, printed)

  proxy_handler-Forwards :
      (timeout : ℤ) (r : Request) (w : W)
      → is_print (upgrade_type (outgoing r)) ≡ true
      → Forwards r w (proxy_handler env class (proxy_to cfg timeout) limit r w)
  proxy_handler-Forwards timeout r w printable =
      let split = env.net.split_host_port in
      let (to_scheme, to_host, to_url_host, named, proto, cookies, _) =
        sent_lem split cfg.n8n_upstream_url cfg.public_base_url (outgoing r) in
      record {
        sent = to_n8n split cfg.n8n_upstream_url cfg.public_base_url (outgoing r);
        until = deadline (proxy_to cfg timeout) (outgoing r);
        status = (one_round_trip timeout r w printable).0;
        world = (one_round_trip timeout r w printable).1;
        scheme = to_scheme;
        host = to_host;
        url_host = to_url_host;
        forwarded_host = named;
        forwarded_proto = proto;
        cookie = cookies;
      }

module _ {W : Type 0} (out : Outside W) where
  limit_lem : (limit : ℕ) → body_limit limit true ≡ (if ltb 0 limit then some limit else none)
  unfolding body_limit
  limit_lem limit = ground arith

  app-Forwards :
      (cfg : Config.Config) (kv : KvStore) (client : ProviderClient) (r : Request) (v : W)
      → is_print (upgrade_type (outgoing r)) ≡ true
      → Forwards out.environment cfg route_protected_console none r v
          ((app out cfg kv client).console_handler r v)
        × Forwards out.environment cfg route_public_execution
            (if ltb 0 (nanoseconds cfg.public_execution_body_limit)
              then some (nanoseconds cfg.public_execution_body_limit)
              else none)
            r
            v
            ((app out cfg kv client).public_handler r v)
  unfolding new
  app-Forwards cfg kv client r v printable = (
    proxy_handler-Forwards out.environment cfg route_protected_console none
        cfg.console_proxy_timeout r v printable,
    rw (← limit_lem (nanoseconds cfg.public_execution_body_limit)) (
        proxy_handler-Forwards out.environment cfg route_public_execution
          (body_limit (nanoseconds cfg.public_execution_body_limit) true)
          cfg.public_execution_timeout r v printable),
  )

  -- The handlers of a gateway that main serves, for the console and for the public prefixes, on a request
  -- that asks for no protocol that cannot be printed: each makes one round trip to the upstream's own host,
  -- with no cookie but the sanitized ones and with the scheme and host of the public URL in
  -- X-Forwarded-Proto and X-Forwarded-Host, where a header that the client's Connection names is dropped.
  -- The public one has a limit on the body if PUBLIC_EXECUTION_BODY_LIMIT is above zero. The status is
  -- n8n's, or 504 or 502 for a failure, which is counted.
  pub main-Forwards :
      (env : Env) (w : W) (listen : Text) (cfg : Config.Config) (deps : Deps W)
      → (main out env w).0 ≡ serving listen cfg deps
      → (r : Request) (v : W) → is_print (upgrade_type (outgoing r)) ≡ true
      → Forwards out.environment cfg route_protected_console none r v (deps.console_handler r v)
        × Forwards out.environment cfg route_public_execution
            (if ltb 0 (nanoseconds cfg.public_execution_body_limit)
              then some (nanoseconds cfg.public_execution_body_limit)
              else none)
            r
            v
            (deps.public_handler r v)
  main-Forwards env w listen cfg deps served r v printable =
      let built = main-Built out env w listen cfg deps served in
      subst
        (λ d.
          Forwards out.environment cfg route_protected_console none r v (d.console_handler r v)
          × Forwards out.environment cfg route_public_execution
              (if ltb 0 (nanoseconds cfg.public_execution_body_limit)
                then some (nanoseconds cfg.public_execution_body_limit)
                else none)
              r v (d.public_handler r v))
        (sym built.over) (app-Forwards cfg built.kv built.client r v printable)
