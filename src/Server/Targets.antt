-- ===== src/Server/Targets.antt =====
-- server.go: where a login returns to.
pub mod Safe
use n8n_gw.Security.ReturnUrl.{valid_return_to}
use n8n_gw.Routes.{clean_path}
use n8n_gw.Url.{Url, parse}
use n8n_gw.Url.Escapes.{unescape}
use n8n_gw.Server.State.{Request, value_of}
use n8n_gw.Server.Deps.{Net}
use n8n_gw.Base.{
  ℕ, zero, suc, Text, codes, ◌==◌, has_prefix, if◌then◌else◌, Bool, true, false, not, ◌&&◌, ◌||◌,
  Option, none, some, List, [], ◌∷◌, trim_space,
}

unfoldable pub is_forbidden_clean : Text → Bool
is_forbidden_clean path =
    path == codes "/signout"
    || (path == codes "/signin"
        || (path == codes "/login"
            || (path == codes "/auth/logout" || path == codes "/rest/logout")))

abbrev pub root : Text
root = codes "/"

abbrev pub native_keys : List Text
native_keys = codes "redirect" ∷ codes "redirect_to" ∷ codes "return_to" ∷ []

-- The first target that there is.
abbrev pub or_root : Option Text → Option Text → Text
or_root (some target) referer = target
or_root none (some target) = target
or_root none none = root

module _ (net : Net) where
  unfoldable pub is_forbidden_return_path : Text → Bool
  is_forbidden_return_path value = elim (parse net.parse_authority value) [
    | none ↦ true
    | some parsed ↦ is_forbidden_clean (clean_path parsed.path)
  ]

  unfoldable pub is_allowed : Text → Bool
  is_allowed value =
      valid_return_to net.parse_authority value && not (is_forbidden_return_path value)

  unfoldable pub safe_return_to : Text → Text
  safe_return_to value = if is_allowed value then value else root

  -- The loop of validNativeReturnTo, with the rounds that are left.
  unfoldable pub native_rounds : ℕ → Text → Option Text
  native_rounds zero candidate = none
  native_rounds (suc rounds) candidate =
      let unescaped = unescape true candidate in
      let again : Option Text = elim unescaped [
        | none ↦ none
        | some next ↦ elim (next == candidate) [ true ↦ none | false ↦ native_rounds rounds next ]
      ] in
      if is_allowed candidate && has_prefix candidate root then some candidate else again

  unfoldable pub valid_native_return_to : Text → Option Text
  valid_native_return_to value = native_rounds 3 value

  unfoldable pub valid_referer_return_to : Request → Option Text
  valid_referer_return_to r =
      let raw = trim_space (value_of (codes "Referer") r.headers) in
      if raw == [] then none else elim (parse net.parse_authority raw) [
        | none ↦ none
        | some parsed ↦
            let value = net.request_uri parsed in
            if not (parsed.host == r.host)
            then none
            else if is_allowed value
            then some value
            else none
      ]

  unfoldable pub first_native : List Text → Request → Option Text
  first_native [] r = none
  first_native (key ∷ keys) r = elim (valid_native_return_to (value_of key r.query)) [
    | some target ↦ some target
    | none ↦ first_native keys r
  ]

  unfoldable pub native_login_return_to : Request → Text
  native_login_return_to r = or_root (first_native native_keys r) (valid_referer_return_to r)
