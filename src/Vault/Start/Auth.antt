-- ===== src/Vault/Start/Auth.antt =====
-- internal/vault/credential_store.go with internal/config/config.go: how a store logs in.
use n8n_gw.Config.{Config}
use n8n_gw.Config.Complete.{IsComplete}
use n8n_gw.Vault.Kv.{
  VaultClient, Reply, Formats, KvStore, login_app_role, renewal_interval, with_retry,
  reauthenticate_after_auth_error,
}
use n8n_gw.Vault.Start.{
  AuthConfig, not_configured, login_failed, Started, started, refused, new_store, store_of,
}
use n8n_gw.Base.{
  ℕ, ◌≡◌, ◌≢◌, ◌⊎◌, inl, inr, ◌==◌, eq_iff, true, Option, none, some, [], Option-cases, arith,
}

-- main: the AuthConfig of a configuration.
abbrev pub auth_of : Config → AuthConfig
auth_of cfg = record {
  token = cfg.vault_token;
  role_id = cfg.vault_role_id;
  secret_id = cfg.vault_secret_id;
}

module _ {W : Type 0} (client : VaultClient W) where
  -- A store without an AppRole never logs in again.
  no_role-with_retry :
      (formats : Formats) (s : KvStore) (A : Type 0) (call : W → Reply A × W) (w : W)
      → s.role_id ≡ []
      → with_retry client formats s call w ≡ call w
  unfolding with_retry reauthenticate_after_auth_error ◌==◌
  no_role-with_retry formats s A call w none_there = ground (arith, eq_iff s.role_id [])

  abbrev pub begun : Config → W → Started × W
  begun cfg w = new_store client true (auth_of cfg) cfg.vault_kv_mount cfg.vault_kv_prefix w

  pub begun_with_token :
      (cfg : Config) (w : W)
      → cfg.vault_token ≢ []
      → (begun cfg w).0 ≡ started (store_of cfg.vault_kv_mount cfg.vault_kv_prefix [] []) none
  unfolding new_store
  begun_with_token cfg w token = ground (arith, eq_iff cfg.vault_token [])

  begun_with_role :
      (cfg : Config) (w : W)
      → cfg.vault_token ≡ []
      → cfg.vault_role_id ≢ []
      → cfg.vault_secret_id ≢ []
      → ((begun cfg w).0 ≡ refused login_failed)
        ⊎ ((ttl : ℕ) × ((begun cfg w).0
              ≡ started
                  (store_of cfg.vault_kv_mount cfg.vault_kv_prefix cfg.vault_role_id
                    cfg.vault_secret_id)
                  (some ttl)))
  unfolding new_store
  begun_with_role cfg w token role secret =
      elim (Option-cases (login_app_role client cfg.vault_role_id cfg.vault_secret_id w).0) [
        | inl failed ↦ inl (
            ground (
              arith,
              eq_iff cfg.vault_token [],
              eq_iff cfg.vault_role_id [],
              eq_iff cfg.vault_secret_id [],
            ))
        | inr (ttl, good) ↦ inr (
          renewal_interval ttl,
          ground (
            arith,
            eq_iff cfg.vault_token [],
            eq_iff cfg.vault_role_id [],
            eq_iff cfg.vault_secret_id [],
          ),
        )
      ]

  abbrev HasAuth : Config → Type 0
  HasAuth cfg = (cfg.vault_token ≢ []) ⊎ ((cfg.vault_role_id ≢ []) × (cfg.vault_secret_id ≢ []))

  configured : (cfg : Config) (w : W) → HasAuth cfg → (begun cfg w).0 ≢ refused not_configured
  unfolding new_store
  configured cfg w auth =
      ground (
        arith,
        eq_iff cfg.vault_token [],
        eq_iff cfg.vault_role_id [],
        eq_iff cfg.vault_secret_id [],
      )

  by_token :
      (cfg : Config) (w : W) (s : KvStore) (renewal : Option ℕ)
      → cfg.vault_token ≢ []
      → (begun cfg w).0 ≡ started s renewal
      → (renewal ≡ none)
        × ((formats : Formats) (A : Type 0) (call : W → Reply A × W) (v : W)
            → with_retry client formats s call v ≡ call v)
  by_token cfg w s renewal token e =
      let known = begun_with_token cfg w token in
      (ground arith, λ formats A call v. no_role-with_retry formats s A call v (ground arith))

  by_role :
      (cfg : Config) (w : W)
      → HasAuth cfg
      → (s : KvStore) (renewal : Option ℕ) → cfg.vault_token ≡ []
      → (begun cfg w).0 ≡ started s renewal
      → (renewal ≢ none) × (s.role_id ≡ cfg.vault_role_id) × (s.secret_id ≡ cfg.vault_secret_id)
  by_role cfg w (inl token) s renewal missing e = absurd (token missing)
  by_role cfg w (inr (role, secret)) s renewal missing e =
      elim (begun_with_role cfg w missing role secret) [
        | inl failed ↦ absurd (ground arith)
        | inr (ttl, begun) ↦ ground arith
      ]

  -- With a configuration that Load has returned, and a client, NewStore fails only because the login is
  -- refused. With a token there is no renewal, and no later call logs in again. Without one the renewal
  -- is started, and the store keeps the AppRole of the configuration.
  pub new_store_lem :
      (cfg : Config) (w : W)
      → IsComplete cfg
      → let start = new_store client true (auth_of cfg) cfg.vault_kv_mount cfg.vault_kv_prefix w in
        (start.0 ≢ refused not_configured)
        × ((s : KvStore) (renewal : Option ℕ)
            → cfg.vault_token ≢ []
            → start.0 ≡ started s renewal
            → (renewal ≡ none)
              × ((formats : Formats) (A : Type 0) (call : W → Reply A × W) (v : W)
                  → with_retry client formats s call v ≡ call v))
        × ((s : KvStore) (renewal : Option ℕ)
            → cfg.vault_token ≡ []
            → start.0 ≡ started s renewal
            → (renewal ≢ none)
              × (s.role_id ≡ cfg.vault_role_id)
              × (s.secret_id ≡ cfg.vault_secret_id))
  new_store_lem cfg w complete =
      (configured cfg w complete.vault_auth, by_token cfg w, by_role cfg w complete.vault_auth)
