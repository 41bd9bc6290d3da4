-- ===== src/Config/Prefixes.antt =====
-- internal/config/config.go: the lists and the flags of a configuration that is loaded.
use n8n_gw.Config.{
  Config, Result, ok, Env, Parsers, load, trimmed, csv_default, default_bypass_prefixes, Limits,
  assemble, cookie_secure_setting, parse_required_url, check_required, check_vault_auth,
  read_limits, int64_default,
}
use n8n_gw.Config.Complete.{bind_ok, the_ok}
use n8n_gw.Config.Values.{keep_full, csv_parts, parse_bool}
use n8n_gw.Base.Int.{ℤ, pos, negsuc, parse_int64, in_range, unsigned}
use n8n_gw.Url.{Url}
use n8n_gw.Base.{
  ℕ, zero, suc, nat_eq, ◌<◌, ◌≡◌, ◌≢◌, inl, inr, Text, codes, ◌==◌, eq_iff, Bool, true, false,
  Option, none, some, List, [], ◌∷◌, All, split, trim_space, Bool-cases, Option-cases, arith,
}

abbrev pub IsFull : Text → Type 0
IsFull s = s ≢ []

keep_full-All : (parts : List Text) → All IsFull (keep_full parts)
unfolding keep_full
keep_full-All [] = tt
keep_full-All (part ∷ parts) = elim (Bool-cases (trim_space part == [])) [
  | inl empty ↦ rw empty (keep_full-All parts)
  | inr full ↦ rw full (ground (arith, eq_iff (trim_space part) []), keep_full-All parts)
]

csv_default-All :
    (env : Env) (key : Text) (fallback : List Text)
    → All IsFull fallback
    → All IsFull (csv_default env key fallback)
unfolding csv_default csv_parts
csv_default-All env key fallback h = elim (Bool-cases (trimmed env key == [])) [
  | inl unset ↦ rw unset h
  | inr given ↦ rw given (keep_full-All (split b',' (trimmed env key)))
]

defaults : All IsFull default_bypass_prefixes
defaults = ground arith

secure_lem :
    (env : Env) (base : Url) (secure : Bool)
    → cookie_secure_setting env base ≡ ok secure
    → (trimmed env (codes "COOKIE_SECURE") ≡ [] → secure ≡ (base.scheme == codes "https"))
      × (trimmed env (codes "COOKIE_SECURE") ≢ []
          → parse_bool (trimmed env (codes "COOKIE_SECURE")) ≡ some secure)
unfolding cookie_secure_setting
secure_lem env base secure h =
    let value = trimmed env (codes "COOKIE_SECURE") in
    elim (Option-cases (parse_bool value)) [
      | inl bad ↦ (λ e. ground (arith, eq_iff value []), λ e. ground (arith, eq_iff value []))
      | inr (b, good) ↦ (λ e. ground (arith, eq_iff value []), λ e. ground (arith, eq_iff value []))
    ]

assembled :
    (parsers : Parsers) (env : Env) (base upstream : Url) (limits : Limits) (secure : Bool)
    (cfg : Config)
    → cookie_secure_setting env base ≡ ok secure
    → ◌≡◌ {A = Result Config} (ok (assemble parsers env base upstream limits secure)) (ok cfg)
    → All IsFull cfg.public_bypass_prefixes
      × (trimmed env (codes "COOKIE_SECURE") ≡ []
          → cfg.cookie_secure ≡ (cfg.public_base_url.scheme == codes "https"))
      × (trimmed env (codes "COOKIE_SECURE") ≢ []
          → parse_bool (trimmed env (codes "COOKIE_SECURE")) ≡ some cfg.cookie_secure)
unfolding assemble
assembled parsers env base upstream limits secure cfg set e =
    let (unset, given) = secure_lem env base secure set in
    rw (← the_ok e) (
      csv_default-All env (codes "PUBLIC_BYPASS_PREFIXES") default_bypass_prefixes defaults,
      unset,
      given,
    )

-- The prefixes that are open without a session are never the empty text, which would open every path;
-- and the cookies are secure as COOKIE_SECURE says, or, if it is not set, exactly if the public base
-- URL has the scheme https.
pub load-prefixes :
    (parsers : Parsers) (env : Env) (cfg : Config)
    → load parsers env ≡ ok cfg
    → All IsFull cfg.public_bypass_prefixes
      × (trimmed env (codes "COOKIE_SECURE") ≡ []
          → cfg.cookie_secure ≡ (cfg.public_base_url.scheme == codes "https"))
      × (trimmed env (codes "COOKIE_SECURE") ≢ []
          → parse_bool (trimmed env (codes "COOKIE_SECURE")) ≡ some cfg.cookie_secure)
unfolding load
load-prefixes parsers env cfg h =
    let (base, (e1, h1)) = bind_ok (parse_required_url parsers env (codes "PUBLIC_BASE_URL")) _ h in
    let (upstream, (e2, h2)) =
      bind_ok (parse_required_url parsers env (codes "N8N_UPSTREAM_URL")) _ h1 in
    let (_, (e3, h3)) = bind_ok (check_required _ _ _ _ _) _ h2 in
    let (_, (e4, h4)) = bind_ok (check_vault_auth _ _ _) _ h3 in
    let (limits, (e5, h5)) = bind_ok (read_limits parsers env) _ h4 in
    let (secure, (e6, h6)) = bind_ok (cookie_secure_setting env base) _ h5 in
    assembled parsers env base upstream limits secure cfg e6 h6

abbrev pub IsInt64 : ℤ → Type 0
IsInt64 (pos n) = n < 9223372036854775808
IsInt64 (negsuc n) = n < 9223372036854775808

in_range-IsInt64 :
    (negative : Bool) (o : Option ℕ) (z : ℤ) → in_range negative o ≡ some z → IsInt64 z
in_range-IsInt64 negative none z h = absurd (ground arith)
in_range-IsInt64 true (some zero) (pos n) h = ground arith
in_range-IsInt64 true (some zero) (negsuc n) h = absurd (ground arith)
in_range-IsInt64 true (some (suc m)) (pos n) h = absurd (ground arith)
in_range-IsInt64 true (some (suc m)) (negsuc n) h = ground arith
in_range-IsInt64 false (some m) (pos n) h = ground arith
in_range-IsInt64 false (some m) (negsuc n) h = absurd (ground arith)

parse_int64-IsInt64 : (s : Text) (z : ℤ) → parse_int64 s ≡ some z → IsInt64 z
unfolding parse_int64
parse_int64-IsInt64 [] z h = absurd (ground arith)
parse_int64-IsInt64 (c ∷ s) z h = elim (Bool-cases (nat_eq c b'-')) [
  | inl minus ↦ in_range-IsInt64 true (unsigned s) z (ground arith)
  | inr other ↦ elim (Bool-cases (nat_eq c b'+')) [
    | inl plus ↦ in_range-IsInt64 false (unsigned s) z (ground arith)
    | inr digit ↦ in_range-IsInt64 false (unsigned (c ∷ s)) z (ground arith)
  ]
]

-- A number that int64Default reads is in the range of int64, if its fallback is.
pub int64_default_bounds :
    (env : Env) (key : Text) (fallback z : ℤ)
    → IsInt64 fallback
    → int64_default env key fallback ≡ ok z
    → IsInt64 z
unfolding int64_default
int64_default_bounds env key fallback z h e = elim (Bool-cases (trimmed env key == [])) [
  | inl unset ↦ (let same : fallback ≡ z = ground arith in rw (← same) h)
  | inr given ↦ elim (Option-cases (parse_int64 (trimmed env key))) [
    | inl bad ↦ absurd (ground arith)
    | inr (y, good) ↦ parse_int64-IsInt64 (trimmed env key) z (ground arith)
  ]
]
