-- ===== src/Config.antt =====
-- internal/config/config.go: Load, over the environment. time.ParseDuration is a parameter.
pub mod Values
pub mod Complete
pub mod Prefixes
pub mod Tests
use n8n_gw.Url.{Url, parse}
use n8n_gw.Vault.Paths.{trim_slashes}
use n8n_gw.Config.Values.{parse_bool, fields, csv_parts}
use n8n_gw.Base.Int.{ℤ, pos, parse_int64}
use n8n_gw.Base.{
  ℕ, ◌*◌, Text, codes, ◌==◌, if◌then◌else◌, Bool, true, false, not, ◌&&◌, ◌||◌, Option, none, some,
  List, [], ◌∷◌, trim_space, to_lower,
}

abbrev pub default_bypass_prefixes : List Text
default_bypass_prefixes =
    codes "/webhook/"
    ∷ codes "/webhook-test/"
    ∷ codes "/webhook-waiting/"
    ∷ codes "/form/"
    ∷ codes "/form-test/"
    ∷ codes "/forms/"
    ∷ codes "/forms-test/"
    ∷ []

-- Durations are in nanoseconds.
pub record Config : Type 0 where
  pub listen_addr : Text
  pub public_base_url : Url
  pub n8n_upstream_url : Url
  pub oidc_issuer_url : Text
  pub oidc_client_id : Text
  pub oidc_client_secret : Text
  pub oidc_scopes : List Text
  pub redis_url : Text
  pub vault_addr : Text
  pub vault_token : Text
  pub vault_role_id : Text
  pub vault_secret_id : Text
  pub vault_kv_mount : Text
  pub vault_kv_prefix : Text
  pub session_ttl : ℤ
  pub oidc_state_ttl : ℤ
  pub console_proxy_timeout : ℤ
  pub public_execution_timeout : ℤ
  pub public_execution_body_limit : ℤ
  pub public_bypass_prefixes : List Text
  pub cookie_secure : Bool
  pub trusted_proxy_cidrs : List Text
  pub log_level : Text

pub record Limits : Type 0 where
  pub session_ttl : ℤ
  pub oidc_state_ttl : ℤ
  pub console_timeout : ℤ
  pub public_timeout : ℤ
  pub body_limit : ℤ

-- The errors of Load; the text is the key of the setting.
pub data Failure : Type 0 where
  is_required : Text → Failure
  does_not_parse : Text → Failure
  is_not_absolute : Text → Failure
  settings_missing : Failure
  vault_auth_missing : Failure

pub data Result (A : Type 0) : Type 0 where
  err : Failure → Result A
  ok : A → Result A

-- An early return of the error, and what follows a step that succeeds.
module _ {A B : Type 0} where
  infixl 5 ◌>>=◌ ◌>>◌
  abbrev pub ◌>>=◌ : Result A → (A → Result B) → Result B
  ◌>>=◌ step next = elim step [ err failure ↦ err failure | ok found ↦ next found ]

  abbrev pub ◌>>◌ : Result A → Result B → Result B
  ◌>>◌ check rest = check >>= (λ _. rest)

-- os.Getenv: "" for a variable that is not set.
abbrev pub Env : Type 0
Env = Text → Text

-- The authority of net/url, and time.ParseDuration.
pub record Parsers : Type 0 where
  pub parse_authority : Text → Option Text
  pub parse_duration : Text → Option ℤ

abbrev pub trimmed : Env → Text → Text
trimmed env key = trim_space (env key)

unfoldable pub env_default : Env → Text → Text → Text
env_default env key fallback = if trimmed env key == [] then fallback else trimmed env key

unfoldable pub fields_default : Env → Text → List Text → List Text
fields_default env key fallback =
    if trimmed env key == [] then fallback else fields (trimmed env key)

unfoldable pub csv_default : Env → Text → List Text → List Text
csv_default env key fallback =
    if trimmed env key == [] then fallback else csv_parts (trimmed env key)

abbrev pub parsed_or : {A : Type 0} → Text → Option A → Result A
parsed_or key none = err (does_not_parse key)
parsed_or key (some a) = ok a

unfoldable pub int64_default : Env → Text → ℤ → Result ℤ
int64_default env key fallback =
    if trimmed env key == [] then ok fallback else parsed_or key (parse_int64 (trimmed env key))

abbrev pub absolute : Text → Url → Result Url
absolute key u = if u.scheme == [] || u.host == [] then err (is_not_absolute key) else ok u

-- The check of the settings that Load reads before the durations.
unfoldable pub check_required : Text → Text → Text → Text → Text → Result (Unit {0})
check_required issuer client_id client_secret redis vault_addr =
    if issuer == []
      || (client_id == [] || (client_secret == [] || (redis == [] || vault_addr == [])))
    then err settings_missing
    else ok tt

unfoldable pub check_vault_auth : Text → Text → Text → Result (Unit {0})
check_vault_auth token role_id secret_id =
    if token == [] && (role_id == [] || secret_id == []) then err vault_auth_missing else ok tt

unfoldable pub cookie_secure_setting : Env → Url → Result Bool
cookie_secure_setting env base =
    if trimmed env (codes "COOKIE_SECURE") == []
    then ok (base.scheme == codes "https")
    else parsed_or (codes "COOKIE_SECURE") (parse_bool (trimmed env (codes "COOKIE_SECURE")))

abbrev pub second : ℕ
second = 1000000000

module _ (parsers : Parsers) (env : Env) where
  unfoldable pub parse_required_url : Text → Result Url
  parse_required_url key =
      if trimmed env key == []
      then err (is_required key)
      else parsed_or key (parse parsers.parse_authority (trimmed env key)) >>= absolute key

  unfoldable pub duration_default : Text → ℤ → Result ℤ
  duration_default key fallback =
      if trimmed env key == []
      then ok fallback
      else parsed_or key (parsers.parse_duration (trimmed env key))

  -- The durations and the limit, in the order in which Load reads them.
  unfoldable pub read_limits : Result Limits
  read_limits = do
    session_ttl ← duration_default (codes "SESSION_TTL") (pos (8 * 3600 * second))
    oidc_state_ttl ← duration_default (codes "OIDC_STATE_TTL") (pos (600 * second))
    console_timeout ← duration_default (codes "CONSOLE_PROXY_TIMEOUT") (pos (60 * second))
    public_timeout ← duration_default (codes "PUBLIC_EXECUTION_TIMEOUT") (pos (300 * second))
    body_limit ← int64_default env (codes "PUBLIC_EXECUTION_BODY_LIMIT") (pos (50 * 1024 * 1024))
    ok (record {
      session_ttl = session_ttl;
      oidc_state_ttl = oidc_state_ttl;
      console_timeout = console_timeout;
      public_timeout = public_timeout;
      body_limit = body_limit;
    })

  -- The configuration, once nothing more can fail.
  unfoldable pub assemble : Url → Url → Limits → Bool → Config
  assemble base upstream limits secure = record {
    listen_addr = env_default env (codes "LISTEN_ADDR") (codes ":8080");
    public_base_url = base;
    n8n_upstream_url = upstream;
    oidc_issuer_url = trimmed env (codes "OIDC_ISSUER_URL");
    oidc_client_id = trimmed env (codes "OIDC_CLIENT_ID");
    oidc_client_secret = env (codes "OIDC_CLIENT_SECRET");
    oidc_scopes =
        fields_default env (codes "OIDC_SCOPES")
          (codes "openid" ∷ codes "profile" ∷ codes "email" ∷ []);
    redis_url = trimmed env (codes "REDIS_URL");
    vault_addr = trimmed env (codes "VAULT_ADDR");
    vault_token = env (codes "VAULT_TOKEN");
    vault_role_id = trimmed env (codes "VAULT_ROLE_ID");
    vault_secret_id = env (codes "VAULT_SECRET_ID");
    vault_kv_mount = env_default env (codes "VAULT_KV_MOUNT") (codes "secret");
    vault_kv_prefix =
        trim_slashes
          (trim_space (env_default env (codes "VAULT_KV_PREFIX") (codes "n8n-gw/users")));
    session_ttl = limits.session_ttl;
    oidc_state_ttl = limits.oidc_state_ttl;
    console_proxy_timeout = limits.console_timeout;
    public_execution_timeout = limits.public_timeout;
    public_execution_body_limit = limits.body_limit;
    public_bypass_prefixes =
        csv_default env (codes "PUBLIC_BYPASS_PREFIXES") default_bypass_prefixes;
    cookie_secure = secure;
    trusted_proxy_cidrs = csv_default env (codes "TRUSTED_PROXY_CIDRS") [];
    log_level = to_lower (env_default env (codes "LOG_LEVEL") (codes "info"));
  }

  unfoldable pub load : Result Config
  load = do
    base ← parse_required_url (codes "PUBLIC_BASE_URL")
    upstream ← parse_required_url (codes "N8N_UPSTREAM_URL")
    check_required (trimmed env (codes "OIDC_ISSUER_URL")) (trimmed env (codes "OIDC_CLIENT_ID"))
        (env (codes "OIDC_CLIENT_SECRET")) (trimmed env (codes "REDIS_URL"))
        (trimmed env (codes "VAULT_ADDR"))
    check_vault_auth (env (codes "VAULT_TOKEN")) (trimmed env (codes "VAULT_ROLE_ID"))
        (env (codes "VAULT_SECRET_ID"))
    limits ← read_limits
    secure ← cookie_secure_setting env base
    ok (assemble base upstream limits secure)
