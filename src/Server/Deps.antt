-- ===== src/Server/Deps.antt =====
-- server.go: the dependencies and the configuration that the handlers use.
use n8n_gw.Session.{SessionStore}
use n8n_gw.Vault.{CredentialStore}
use n8n_gw.N8n.{N8nClient}
use n8n_gw.Oidc.{OidcClient}
use n8n_gw.Server.State.{Request}
use n8n_gw.Url.{Url}
use n8n_gw.Base.{ℕ, Text, Bool, List, Option}

-- The parts of package net that the handlers call: SplitHostPort and the CIDR tests, and the parts
-- of net/url that `parse` leaves open.
pub record Net : Type 0 where
  pub split_host_port : Text → Option Text
  pub parse_ip : Text → Option Text
  pub cidr_contains : Text → Text → Option Bool
  pub parse_authority : Text → Option Text
  pub request_uri : Url → Text
  pub query_escape : Text → Text

-- `unix_nano` is the decimal print of time.Now().UnixNano().
pub record Deps (W : Type 0) : Type 0 where
  pub sessions : SessionStore W
  pub credentials : CredentialStore W
  pub oidc : OidcClient W
  pub n8n : N8nClient W
  pub public_handler : Request → W → ℕ × W
  pub console_handler : Request → W → ℕ × W
  pub random_base64_url : ℕ → W → Option Text × W
  pub now : W → ℕ
  pub unix_nano : W → Text
  pub net : Net

-- The fields of config.Config that the handlers read.
pub record Config : Type 0 where
  pub public_base_host : Text
  pub public_base_scheme : Text
  pub session_ttl_seconds : ℕ
  pub public_bypass_prefixes : List Text
  pub cookie_secure : Bool
  pub trusted_proxy_cidrs : List Text
