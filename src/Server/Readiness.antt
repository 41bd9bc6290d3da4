-- ===== src/Server/Readiness.antt =====
-- server.go: what /readyz promises.
use n8n_gw.Session
use n8n_gw.Vault
use n8n_gw.Server.State.{Request, State, answer, set_header, answer_status}
use n8n_gw.Server.Deps.{Deps}
use n8n_gw.Server.Ready.{handle_ready}
use n8n_gw.Base.{◌≡◌, ◌⊎◌, ◌↔◌, true, arith}

module _ {W : Type 0} (deps : Deps W) where
  -- The status of /readyz is 200 if Redis, Vault, n8n and the identity provider, asked in this order,
  -- are all up, and 503 if one of them is not.
  pub handle_ready_status :
      (r : Request) (s : State W)
      → let redis = deps.sessions.ping s.world in
        let vault = deps.credentials.ping redis.1 in
        let n8n = deps.n8n.ping vault.1 in
        let oidc = deps.oidc.ping n8n.1 in
        let status = (handle_ready deps r s).1.response.status in
        ((status ≡ 200) ↔ (
          (redis.0 ≡ Session.ok tt) × (vault.0 ≡ Vault.ok tt) × (n8n.0 ≡ true) × (oidc.0 ≡ true)))
        × ((status ≡ 200) ⊎ (status ≡ 503))
  unfolding handle_ready set_header answer answer_status
  handle_ready_status r s = ground arith
