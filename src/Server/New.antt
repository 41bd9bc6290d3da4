-- ===== src/Server/New.antt =====
-- server.go: New, which makes the proxies that Dependencies leaves out, and newMetrics.
use Prim.Native.Nat.{◌/◌}
use n8n_gw.Config
use n8n_gw.Session.{SessionStore}
use n8n_gw.Vault.{CredentialStore}
use n8n_gw.N8n.{N8nClient}
use n8n_gw.Oidc.{OidcClient}
use n8n_gw.Proxy.{Outgoing, Outcome, ReverseProxy, body_limit, serve}
use n8n_gw.Routes.{
  RouteClass, route_internal, route_public_execution, route_blocked_native_login,
  route_native_login_alias, route_protected_console,
}
use n8n_gw.Server.State.{Request, Metric, requests, oidc_login, n8n_login, vault_ops}
use n8n_gw.Server.Deps.{Deps, Config, Net}
use n8n_gw.Base.Int.{ℤ, pos, negsuc}
use n8n_gw.Base.{
  ℕ, Text, codes, if◌then◌else◌, true, false, Option, none, some, List, [], ◌∷◌, ◌++◌, map,
}

-- A duration in nanoseconds; one below zero counts as zero here.
abbrev pub nanoseconds : ℤ → ℕ
nanoseconds (pos n) = n
nanoseconds (negsuc n) = 0

-- The fields of config.Config that the handlers read, where int(SessionTTL.Seconds()) is rounded down.
abbrev pub server_config : Config.Config → Config
server_config cfg = record {
  public_base_host = cfg.public_base_url.host;
  public_base_scheme = cfg.public_base_url.scheme;
  session_ttl_seconds = nanoseconds cfg.session_ttl / 1000000000;
  public_bypass_prefixes = cfg.public_bypass_prefixes;
  cookie_secure = cfg.cookie_secure;
  trusted_proxy_cidrs = cfg.trusted_proxy_cidrs;
}

-- A request of the server as the reverse proxy gets it; the server listens without TLS.
abbrev pub outgoing : Request → Outgoing
outgoing r = record {
  scheme = [];
  url_host = [];
  path = r.path;
  host = r.host;
  remote_addr = r.remote_addr;
  has_tls = false;
  headers = r.headers;
}

-- What New leaves to the environment: net/http's round trip under a limit of the body and a deadline, the
-- counter of upstream errors, and the sources of random texts and of the time.
pub record Environment (W : Type 0) : Type 0 where
  pub round_trip : Option ℕ → Option ℕ → Outgoing → W → Outcome × W
  pub count_upstream_error : RouteClass → W → W
  pub random_base64_url : ℕ → W → Option Text × W
  pub now : W → ℕ
  pub unix_nano : W → Text
  pub net : Net

-- Dependencies; `none` is a proxy that is nil.
pub record Dependencies (W : Type 0) : Type 0 where
  pub config : Config.Config
  pub sessions : SessionStore W
  pub credentials : CredentialStore W
  pub oidc : OidcClient W
  pub n8n : N8nClient W
  pub public_proxy : Option (Request → W → ℕ × W)
  pub console_proxy : Option (Request → W → ℕ × W)

-- The proxy of New with the timeout that is given.
abbrev pub proxy_to : Config.Config → ℤ → ReverseProxy
proxy_to cfg timeout = record {
  upstream = cfg.n8n_upstream_url;
  public_base = some cfg.public_base_url;
  timeout = nanoseconds timeout;
  force_secure = cfg.cookie_secure;
}

module _ {W : Type 0} (env : Environment W) where
  -- One of the two proxies as a handler; its callback counts an upstream error.
  unfoldable pub proxy_handler : RouteClass → ReverseProxy → Option ℕ → Request → W → ℕ × W
  proxy_handler class proxy limit r w =
      let served = serve env.net.split_host_port (env.round_trip limit) proxy (outgoing r) w in
      (served.0.0.status, if served.0.1 then env.count_upstream_error class served.1 else served.1)

  abbrev given_or : Option (Request → W → ℕ × W) → (Request → W → ℕ × W) → Request → W → ℕ × W
  given_or none made = made
  given_or (some given) made = given

  unfoldable pub new : Dependencies W → Deps W
  unfolding body_limit
  new d = record {
    sessions = d.sessions;
    credentials = d.credentials;
    oidc = d.oidc;
    n8n = d.n8n;
    public_handler = given_or d.public_proxy (
        proxy_handler route_public_execution (proxy_to d.config d.config.public_execution_timeout)
          (body_limit (nanoseconds d.config.public_execution_body_limit) true));
    console_handler = given_or d.console_proxy (
        proxy_handler route_protected_console (proxy_to d.config d.config.console_proxy_timeout)
          none);
    random_base64_url = env.random_base64_url;
    now = env.now;
    unix_nano = env.unix_nano;
    net = env.net;
  }

abbrev route_classes : List RouteClass
route_classes =
    route_internal ∷ route_public_execution ∷ route_blocked_native_login ∷ route_native_login_alias
    ∷ route_protected_console ∷ []

abbrev results_of : Text → List Metric
results_of operation =
    vault_ops operation (codes "success")
    ∷ vault_ops operation (codes "not_found")
    ∷ vault_ops operation (codes "error")
    ∷ []

-- The series that newMetrics makes at once, but for the durations and the upstream errors.
abbrev pub new_metrics : List Metric
new_metrics =
    map (λ class. requests class 200) route_classes
    ++ (map oidc_login (
          codes "started"
          ∷ codes "success"
          ∷ codes "bad_callback"
          ∷ codes "invalid_state"
          ∷ codes "exchange_failed"
          ∷ [])
        ++ (map n8n_login (
              codes "success"
              ∷ codes "invalid_credential"
              ∷ codes "mfa_required"
              ∷ codes "rate_limited"
              ∷ codes "error"
              ∷ [])
            ++ (results_of (codes "read")
                ++ (results_of (codes "write") ++ results_of (codes "delete")))))
