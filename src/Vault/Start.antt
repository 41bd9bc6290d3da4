-- ===== src/Vault/Start.antt =====
-- internal/vault/credential_store.go: NewStore and the renewal of the token.
pub mod Auth
use n8n_gw.Vault.Kv.{VaultClient, KvStore, login_app_role, renewal_interval}
use n8n_gw.Vault.Paths.{trim_slashes}
use n8n_gw.Base.{
  ℕ, zero, suc, Text, codes, ◌==◌, if◌then◌else◌, Bool, true, false, not, ◌&&◌, Option, none, some,
  [],
}

pub record AuthConfig : Type 0 where
  pub token : Text
  pub role_id : Text
  pub secret_id : Text

pub data StartError : Type 0 where
  client_failed login_failed not_configured : StartError

-- A store, with the interval of the renewal in seconds if one is started.
pub data Started : Type 0 where
  started : KvStore → Option ℕ → Started
  refused : StartError → Started

abbrev pub store_of : Text → Text → Text → Text → KvStore
store_of mount prefix role_id secret_id = record {
  mount = trim_slashes mount;
  prefix = trim_slashes prefix;
  role_id = role_id;
  secret_id = secret_id;
}

module _ {W : Type 0} (client : VaultClient W) where
  abbrev login_first : AuthConfig → Text → Text → W → Started × W
  login_first auth mount prefix w =
      let lease = login_app_role client auth.role_id auth.secret_id w in
      elim lease.0 [
        | none ↦ (refused login_failed, lease.1)
        | some ttl ↦ (
          started (store_of mount prefix auth.role_id auth.secret_id) (some (renewal_interval ttl)),
          lease.1,
        )
      ]

  -- NewStore, where `created` says that vaultapi.NewClient succeeds.
  unfoldable pub new_store : Bool → AuthConfig → Text → Text → W → Started × W
  new_store created auth mount prefix w =
      if not created
      then (refused client_failed, w)
      else if not (auth.token == [])
      then (started (store_of mount prefix [] []) none, client.set_token auth.token w)
      else if not (auth.role_id == []) && not (auth.secret_id == [])
      then login_first auth mount prefix w
      else (refused not_configured, w)

  -- One tick of the goroutine of startTokenRenewal.
  unfoldable pub renewal_tick : KvStore → W → W
  renewal_tick s w =
      let renewed = client.renew_self w in
      if renewed.0 then renewed.1 else (login_app_role client s.role_id s.secret_id renewed.1).1

  -- So many ticks.
  unfoldable pub renewal_ticks : ℕ → KvStore → W → W
  unfolding renewal_tick
  renewal_ticks zero s w = w
  renewal_ticks (suc n) s w = renewal_ticks n s (renewal_tick s w)
