-- ===== src/Config/Complete.antt =====
-- internal/config/config.go: what a configuration that is loaded has.
use n8n_gw.Config.{
  Config, Result, ok, err, ◌>>=◌, Env, Parsers, absolute, check_required, check_vault_auth,
  parse_required_url, cookie_secure_setting, load, trimmed, Limits, read_limits, assemble,
}
use n8n_gw.Url.{Url, parse}
use n8n_gw.Base.{
  ◌≡◌, ap, ◌≢◌, ◌⊎◌, inl, inr, refl, Text, codes, ◌==◌, eq_iff, Bool, [], Bool-cases, Option-cases,
  arith,
}

-- A step that succeeds, and what follows it.
pub bind_ok :
    {A B : Type 0} (step : Result A) (next : A → Result B) {cfg : B}
    → step >>= next ≡ ok cfg
    → (found : A) × ((step ≡ ok found) × (next found ≡ ok cfg))
bind_ok (err failure) next h = absurd (ground arith)
bind_ok (ok found) next h = (found, (refl, h))

abbrev result_or : Config → Result Config → Config
result_or d (ok cfg) = cfg
result_or d (err e) = d

pub the_ok : {a b : Config} → ◌≡◌ {A = Result Config} (ok a) (ok b) → a ≡ b
the_ok {a} e = ap (result_or a) e

abbrev pub IsAbsolute : Url → Type 0
IsAbsolute u = (u.scheme ≢ []) × (u.host ≢ [])

-- What main relies on.
pub record IsComplete (cfg : Config) : Type 0 where
  pub base : IsAbsolute cfg.public_base_url
  pub upstream : IsAbsolute cfg.n8n_upstream_url
  pub issuer : cfg.oidc_issuer_url ≢ []
  pub client_id : cfg.oidc_client_id ≢ []
  pub client_secret : cfg.oidc_client_secret ≢ []
  pub redis : cfg.redis_url ≢ []
  pub vault : cfg.vault_addr ≢ []
  pub vault_auth : (cfg.vault_token ≢ []) ⊎ ((cfg.vault_role_id ≢ []) × (cfg.vault_secret_id ≢ []))

required_lem :
    (a b c d e : Text)
    → check_required a b c d e ≡ ok tt
    → (a ≢ []) × (b ≢ []) × (c ≢ []) × (d ≢ []) × (e ≢ [])
unfolding check_required
required_lem a b c d e h =
    ground (arith, eq_iff a [], eq_iff b [], eq_iff c [], eq_iff d [], eq_iff e [])

vault_auth_lem :
    (token role secret : Text)
    → check_vault_auth token role secret ≡ ok tt
    → (token ≢ []) ⊎ ((role ≢ []) × (secret ≢ []))
unfolding check_vault_auth
vault_auth_lem token role secret h =
    ground (arith, eq_iff token [], eq_iff role [], eq_iff secret [])

absolute_lem : (key : Text) (u v : Url) → absolute key u ≡ ok v → IsAbsolute v
absolute_lem key u v h = ground (arith, eq_iff u.scheme [], eq_iff u.host [])

module _ (parsers : Parsers) (env : Env) where
  parse_required_url-IsAbsolute :
      (key : Text) (u : Url) → parse_required_url parsers env key ≡ ok u → IsAbsolute u
  unfolding parse_required_url
  parse_required_url-IsAbsolute key u h = elim (Bool-cases (trimmed env key == [])) [
    | inl unset ↦ absurd (ground arith)
    | inr given ↦ elim (Option-cases (parse parsers.parse_authority (trimmed env key))) [
      | inl bad ↦ absurd (ground arith)
      | inr (v, good) ↦ absolute_lem key v u (ground arith)
    ]
  ]

  assembled :
      (base upstream : Url) (limits : Limits) (secure : Bool) (cfg : Config)
      → IsAbsolute base
      → IsAbsolute upstream
      → (trimmed env (codes "OIDC_ISSUER_URL") ≢ [])
        × (trimmed env (codes "OIDC_CLIENT_ID") ≢ [])
        × (env (codes "OIDC_CLIENT_SECRET") ≢ [])
        × (trimmed env (codes "REDIS_URL") ≢ [])
        × (trimmed env (codes "VAULT_ADDR") ≢ [])
      → (env (codes "VAULT_TOKEN") ≢ [])
        ⊎ ((trimmed env (codes "VAULT_ROLE_ID") ≢ []) × (env (codes "VAULT_SECRET_ID") ≢ []))
      → ◌≡◌ {A = Result Config} (ok (assemble parsers env base upstream limits secure)) (ok cfg)
      → IsComplete cfg
  unfolding assemble
  assembled base upstream limits secure cfg b u (issuer, client, secret, redis, vault) auth e =
      rw (← the_ok e) (record {
        base = b;
        upstream = u;
        issuer = issuer;
        client_id = client;
        client_secret = secret;
        redis = redis;
        vault = vault;
        vault_auth = auth;
      })

  -- A configuration that Load returns has two absolute URLs, the required settings are not empty, and
  -- there is a token for Vault or both parts of an AppRole.
  pub load-IsComplete : (cfg : Config) → load parsers env ≡ ok cfg → IsComplete cfg
  unfolding load
  load-IsComplete cfg h =
      let (base, (e1, h1)) =
        bind_ok (parse_required_url parsers env (codes "PUBLIC_BASE_URL")) _ h in
      let (upstream, (e2, h2)) =
        bind_ok (parse_required_url parsers env (codes "N8N_UPSTREAM_URL")) _ h1 in
      let (_, (e3, h3)) = bind_ok (check_required _ _ _ _ _) _ h2 in
      let (_, (e4, h4)) = bind_ok (check_vault_auth _ _ _) _ h3 in
      let (limits, (e5, h5)) = bind_ok (read_limits parsers env) _ h4 in
      let (secure, (e6, h6)) = bind_ok (cookie_secure_setting env base) _ h5 in
      assembled base upstream limits secure cfg (parse_required_url-IsAbsolute _ base e1)
        (parse_required_url-IsAbsolute _ upstream e2) (required_lem _ _ _ _ _ e3)
        (vault_auth_lem _ _ _ e4) h6
