-- ===== src/Config/Tests.antt =====
-- A configuration that is loaded from a small environment.
use n8n_gw.Config.{
  Config, Env, Parsers, Limits, ok, load, assemble, trimmed, second, parse_required_url,
  duration_default, read_limits, check_required, check_vault_auth, cookie_secure_setting,
  int64_default,
}
use n8n_gw.Config.Values.{parse_bool}
use n8n_gw.Config.Complete.{IsComplete, load-IsComplete}
use n8n_gw.Config.Prefixes.{IsFull, load-prefixes}
use n8n_gw.Base.Int.{pos, negsuc, parse_int64}
use n8n_gw.Url.{Url, parse}
use n8n_gw.Base.{
  ◌*◌, ◌≡◌, has_prefix, to_lower, cut_at, ◌≢◌, refl, Text, codes, ◌==◌, trim_space, true, false,
  none, some, [], ◌∷◌, Dict, lookup, All,
}

abbrev settings : Dict Text
settings =
    (codes "PUBLIC_BASE_URL", codes "https://n8n.example.org")
    ∷ (codes "N8N_UPSTREAM_URL", codes "http://n8n")
    ∷ (codes "OIDC_ISSUER_URL", codes "https://idp")
    ∷ (codes "OIDC_CLIENT_ID", codes "gw")
    ∷ (codes "OIDC_CLIENT_SECRET", codes "s3")
    ∷ (codes "REDIS_URL", codes "redis://r")
    ∷ (codes "VAULT_ADDR", codes "http://vault")
    ∷ (codes "VAULT_TOKEN", codes "t")
    ∷ (codes "PUBLIC_EXECUTION_BODY_LIMIT", codes "-1")
    ∷ []

abbrev pub env : Env
env key = elim (lookup key settings) [ none ↦ [] | some v ↦ v ]

abbrev pub parsers : Parsers
parsers = record { parse_authority = λ s. some s; parse_duration = λ s. none }

abbrev base : Url
base = record {
  scheme = codes "https";
  opaque = [];
  host = codes "n8n.example.org";
  path = [];
  force_query = false;
  raw_query = [];
}

abbrev limits : Limits
limits = record {
  session_ttl = pos (8 * 3600 * second);
  oidc_state_ttl = pos (600 * second);
  console_timeout = pos (60 * second);
  public_timeout = pos (300 * second);
  body_limit = negsuc 0;
}

abbrev pub cfg : Config
cfg =
    assemble parsers env base (record base { scheme = codes "http"; host = codes "n8n" }) limits
      true

pub loaded : load parsers env ≡ ok cfg
unfolding load parse_required_url ◌==◌ trim_space lookup parse has_prefix to_lower cut_at
    check_required check_vault_auth read_limits duration_default int64_default parse_int64
    cookie_secure_setting
loaded = refl

load-IsComplete_example : IsComplete cfg
load-IsComplete_example = load-IsComplete parsers env cfg loaded

load-prefixes_example :
    All IsFull cfg.public_bypass_prefixes
    × (trimmed env (codes "COOKIE_SECURE") ≡ []
        → cfg.cookie_secure ≡ (cfg.public_base_url.scheme == codes "https"))
    × (trimmed env (codes "COOKIE_SECURE") ≢ []
        → parse_bool (trimmed env (codes "COOKIE_SECURE")) ≡ some cfg.cookie_secure)
load-prefixes_example = load-prefixes parsers env cfg loaded
