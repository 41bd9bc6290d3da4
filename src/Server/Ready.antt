-- ===== src/Server/Ready.antt =====
-- server.go: handleReady.
use n8n_gw.Session
use n8n_gw.Vault
use n8n_gw.Server.State.{Request, Handler, ◌>>=◌, call, write_json, json_ready}
use n8n_gw.Server.Deps.{Deps}
use n8n_gw.Base.{Bool, true, false, ◌&&◌}

abbrev session_up : Session.Result (Unit {0}) → Bool
session_up (Session.ok _) = true
session_up (Session.err _) = false

abbrev vault_up : Vault.Result (Unit {0}) → Bool
vault_up (Vault.ok _) = true
vault_up (Vault.err _) = false

module _ {W : Type 0} (deps : Deps W) where
  unfoldable pub handle_ready : Request → Handler W
  handle_ready r = do
    redis ← call deps.sessions.ping
    vault ← call deps.credentials.ping
    n8n ← call deps.n8n.ping
    oidc ← call deps.oidc.ping
    write_json (
        json_ready (((session_up redis && vault_up vault) && n8n) && oidc)
          (record { redis = session_up redis; vault = vault_up vault; n8n = n8n; oidc = oidc }))
