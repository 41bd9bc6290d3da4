-- ===== src/Server/Targets/Safe.antt =====
-- server.go: the targets of every redirect after a login.
use n8n_gw.Security.ReturnUrl.Local.{IsLocal, valid_return_to-IsLocal}
use n8n_gw.Server.State.{Request, value_of}
use n8n_gw.Server.Deps.{Net}
use n8n_gw.Server.Targets.{
  is_forbidden_clean, is_forbidden_return_path, is_allowed, safe_return_to, native_rounds,
  valid_native_return_to, valid_referer_return_to, first_native, native_login_return_to, or_root,
  root, native_keys,
}
use n8n_gw.Routes.{clean_path}
use n8n_gw.Url.{Url, parse}
use n8n_gw.Url.Escapes.{unescape}
use n8n_gw.Base.{
  All, ◌==◌, ℕ, zero, suc, ◌≡◌, refl, inl, inr, ◌⊎◌, Text, codes, has_prefix, true, false, Option,
  none, some, List, [], ◌∷◌, arith, Option-cases, Bool-cases, trim_space,
}

module _ (net : Net) where
  -- The paths that would log out, or show n8n's own login page.
  abbrev pub forbidden_paths : List Text
  forbidden_paths =
      codes "/login"
      ∷ codes "/signin"
      ∷ codes "/signout"
      ∷ codes "/rest/logout"
      ∷ codes "/auth/logout"
      ∷ []

  -- A target that stays on this host and is "/", or is read by url.Parse, and whose path is none of the five once it is
  -- cleaned.
  abbrev pub IsSafeTarget : Text → Type 0
  IsSafeTarget target =
      IsLocal target
      × ((target ≡ root)
          ⊎ ((u : Url) × (parse net.parse_authority target ≡ some u)
              × All (λ page. clean_path u.path == page ≡ false) forbidden_paths))

  is_forbidden_clean-forbidden :
      (path : Text)
      → is_forbidden_clean path ≡ false
      → All (λ page. path == page ≡ false) forbidden_paths
  unfolding is_forbidden_clean
  is_forbidden_clean-forbidden path h = ground arith

  not_forbidden :
      (value : Text)
      → is_forbidden_return_path net value ≡ false
      → (u : Url) × (parse net.parse_authority value ≡ some u)
        × All (λ page. clean_path u.path == page ≡ false) forbidden_paths
  unfolding is_forbidden_return_path
  not_forbidden value h = elim (Option-cases (parse net.parse_authority value)) [
    | inl bad ↦ absurd (ground arith)
    | inr (u, good) ↦ (u, good, is_forbidden_clean-forbidden (clean_path u.path) (ground arith))
  ]

  is_allowed-IsSafeTarget : (value : Text) → is_allowed net value ≡ true → IsSafeTarget value
  unfolding is_allowed
  is_allowed-IsSafeTarget value h =
      let local = valid_return_to-IsLocal net.parse_authority value (ground arith) in
      let fine : is_forbidden_return_path net value ≡ false = ground arith in
      (local, inr (not_forbidden value fine))

  root-IsSafeTarget : IsSafeTarget root
  unfolding has_prefix
  root-IsSafeTarget = (inl (refl, refl, refl), inl refl)

  -- Every value that safeReturnTo gives is a local target that is "/", or that url.Parse reads with a
  -- cleaned path that is none of /login, /signin, /signout, /rest/logout and /auth/logout.
  pub safe_return_to-IsSafeTarget : (value : Text) → IsSafeTarget (safe_return_to net value)
  unfolding safe_return_to
  safe_return_to-IsSafeTarget value = elim (Bool-cases (is_allowed net value)) [
    | inl h ↦ rw h (is_allowed-IsSafeTarget value h)
    | inr h ↦ rw h root-IsSafeTarget
  ]

  native_rounds-allowed :
      (rounds : ℕ) (candidate : Text) {target : Text}
      → native_rounds net rounds candidate ≡ some target
      → (is_allowed net target ≡ true) × (has_prefix target root ≡ true)
  unfolding native_rounds
  native_rounds-allowed zero candidate h = absurd (ground arith)
  native_rounds-allowed (suc rounds) candidate {target} h =
      elim (Option-cases (unescape true candidate)) [
        | inl bad ↦ ground arith
        | inr (next, good) ↦ ground (arith, native_rounds-allowed rounds next {target = target})
      ]

  first_native-allowed :
      (keys : List Text) (r : Request) {target : Text}
      → first_native net keys r ≡ some target
      → is_allowed net target ≡ true
  unfolding first_native valid_native_return_to
  first_native-allowed [] r h = absurd (ground arith)
  first_native-allowed (key ∷ keys) r {target} h =
      elim (Option-cases (native_rounds net 3 (value_of key r.query))) [
        | inl missed ↦ ground (arith, first_native-allowed keys r {target = target})
        | inr (t, found) ↦
            let (allowed, _) = native_rounds-allowed 3 (value_of key r.query) found in ground arith
      ]

  valid_referer-allowed :
      (r : Request) {target : Text}
      → valid_referer_return_to net r ≡ some target
      → is_allowed net target ≡ true
  unfolding valid_referer_return_to
  valid_referer-allowed r {target} h =
      elim (Option-cases
        (parse net.parse_authority (trim_space (value_of (codes "Referer") r.headers)))) [
          | inl bad ↦ ground arith
          | inr (u, good) ↦ ground arith
        ]

  or_root-IsSafeTarget :
      (o q : Option Text)
      → ((target : Text) → o ≡ some target → is_allowed net target ≡ true)
      → ((target : Text) → q ≡ some target → is_allowed net target ≡ true)
      → IsSafeTarget (or_root o q)
  or_root-IsSafeTarget (some t) q h k = is_allowed-IsSafeTarget t (h t refl)
  or_root-IsSafeTarget none (some t) h k = is_allowed-IsSafeTarget t (k t refl)
  or_root-IsSafeTarget none none h k = root-IsSafeTarget

  -- The target after a login at n8n's own login page, whether it is taken from the query or from the
  -- Referer header, is safe, decoded up to three times.
  pub native_login_return_to-IsSafeTarget :
      (r : Request) → IsSafeTarget (native_login_return_to net r)
  unfolding native_login_return_to
  native_login_return_to-IsSafeTarget r =
      or_root-IsSafeTarget (first_native net native_keys r) (valid_referer_return_to net r)
        (λ target e. first_native-allowed native_keys r e) (λ target e. valid_referer-allowed r e)
