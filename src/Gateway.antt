-- ===== src/Gateway.antt =====
-- cmd/n8n-proxy/main.go: the parts put together.
pub mod Console
pub mod Upstream
pub mod Tests
use n8n_gw.Config
use n8n_gw.Config.{Env, Parsers, load}
use n8n_gw.Session.Redis.{RedisClient, Codec, RedisStore, new_redis_store, redis_sessions}
use n8n_gw.Vault.Kv.{VaultClient, Formats, KvStore, kv_credentials}
use n8n_gw.Vault.Start.{Started, new_store}
use n8n_gw.Vault.Start.Auth.{auth_of}
use n8n_gw.N8n.{Transport, HttpClient, new_client, http_n8n}
use n8n_gw.Oidc
use n8n_gw.Oidc.{Provider, ProviderClient, provider_client}
use n8n_gw.Server.Deps.{Deps}
use n8n_gw.Server.New.{Environment, Dependencies, nanoseconds, new}
use n8n_gw.Url.{Url}
use n8n_gw.Base.{ℕ, zero, suc, Text, Bool, true, false, if◌then◌else◌, Option, none, some}

-- What main only calls: the clients of Redis, Vault, the identity provider and n8n, and what they use.
-- `created` and `discovered` say that vaultapi.NewClient and gooidc.NewProvider succeed, `callback_url` is
-- PublicBaseURL.JoinPath("/auth/callback").String(), and `reads_redis_url` that redis.ParseURL reads the
-- text.
pub record Outside (W : Type 0) : Type 0 where
  pub parsers : Parsers
  pub reads_redis_url : Text → Bool
  pub redis : RedisClient W
  pub json : Codec
  pub vault : VaultClient W
  pub created : Bool
  pub formats : Formats
  pub provider : Provider W
  pub discovered : Bool
  pub callback_url : Url → Text
  pub transport : Transport W
  pub login_body : Text → Text → Text
  pub environment : Environment W

pub data Failure : Type 0 where
  load_config_failed create_vault_store_failed create_oidc_client_failed : Failure

-- main exits with status 1, or it serves.
pub data Main (W : Type 0) : Type 0 where
  exited : Failure → Main W
  serving : Text → Config.Config → Deps W → Main W

module _ {W : Type 0} (out : Outside W) where
  unfoldable pub oidc_config : Config.Config → Oidc.Config
  oidc_config cfg = record {
    issuer_url = cfg.oidc_issuer_url;
    client_id = cfg.oidc_client_id;
    client_secret = cfg.oidc_client_secret;
    scopes = cfg.oidc_scopes;
    redirect_url = out.callback_url cfg.public_base_url;
  }

  abbrev pub session_store : Config.Config → RedisStore
  session_store cfg =
      new_redis_store out.reads_redis_url cfg.redis_url (nanoseconds cfg.session_ttl)
        (nanoseconds cfg.oidc_state_ttl)

  -- The server over the stores and the clients.
  abbrev pub app : Config.Config → KvStore → ProviderClient → Deps W
  app cfg kv client = new out.environment (record {
    config = cfg;
    sessions = redis_sessions out.redis out.json (session_store cfg);
    credentials = kv_credentials out.vault out.formats kv;
    oidc = provider_client out.provider client;
    n8n =
        http_n8n
          (new_client out.transport cfg.n8n_upstream_url (nanoseconds cfg.console_proxy_timeout))
          out.login_body;
    public_proxy = none;
    console_proxy = none;
  })

  unfoldable pub with_store : Config.Config → Started → Main W
  unfolding oidc_config
  with_store cfg (Started.refused e) = exited create_vault_store_failed
  with_store cfg (Started.started kv renewal) = elim (Oidc.new out.discovered (oidc_config cfg)) [
    | none ↦ exited create_oidc_client_failed
    | some client ↦ serving cfg.listen_addr cfg (app cfg kv client)
  ]

  unfoldable pub main : Env → W → Main W × W
  unfolding with_store
  main env w = elim (load out.parsers env) [
    | Config.err e ↦ (exited load_config_failed, w)
    | Config.ok cfg ↦
        let store =
          new_store out.vault out.created (auth_of cfg) cfg.vault_kv_mount cfg.vault_kv_prefix w in
        (with_store cfg store.0, store.1)
  ]

-- How the server ends: by a signal, or because ListenAndServe returns, with http.ErrServerClosed or with
-- another error.
pub data Stop : Type 0 where
  signalled closed failed : Stop

-- The status with which main exits, where the Boolean says that the shutdown succeeds.
unfoldable pub exit_status : Stop → Bool → ℕ
exit_status failed _ = 1
exit_status signalled shut_down = if shut_down then 0 else 1
exit_status closed shut_down = if shut_down then 0 else 1
