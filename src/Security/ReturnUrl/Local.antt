-- ===== src/Security/ReturnUrl/Local.antt =====
-- Accepted return targets stay on the gateway's own host.
use n8n_gw.Base.{
  ℕ, ◌≡◌, refl, ◌⊎◌, inl, inr, Text, codes, eq_iff, has_prefix, nat_eq, nat_eq_iff, ◌+◌, ◌*◌, true,
  false, Bool-cases, Option-cases, Option, none, some, [], ◌∷◌, arith,
}
use n8n_gw.Url.{Url, before, parse}
use n8n_gw.Url.Relative.{parse-path, has_prefix-before}
use n8n_gw.Url.Escapes.{unescape, unhex, escaped, plain}
use n8n_gw.Security.ReturnUrl.{is_local, valid_return_to}

-- A path on this host that no browser reads as `//host`, or an escaped slash, which a browser
-- resolves against the current directory.
abbrev pub IsLocal : Text → Type 0
IsLocal value =
    ((has_prefix value (codes "/") ≡ true)
      × (has_prefix value (codes "//") ≡ false)
      × (has_prefix value (codes "/\\") ≡ false))
    ⊎ ((has_prefix value (codes "%2F") ≡ true) ⊎ (has_prefix value (codes "%2f") ≡ true))

-- The two digits that decode to a slash.
hex_slash :
    (a b x y : ℕ)
    → unhex a ≡ some x
    → unhex b ≡ some y
    → x * 16 + y ≡ 47
    → (a ≡ b'2') × ((b ≡ b'F') ⊎ (b ≡ b'f'))
unfolding unhex
hex_slash a b x y p q e = ground arith

escaped_slash :
    (a b : ℕ) (o : Option Text) (q : Text)
    → escaped (unhex a) (unhex b) o ≡ some q
    → has_prefix q (codes "/") ≡ true
    → (a ≡ b'2') × ((b ≡ b'F') ⊎ (b ≡ b'f'))
unfolding has_prefix
escaped_slash a b o q e h = elim (Option-cases (unhex a)) [
  | inl bad ↦ absurd (ground arith)
  | inr (x, p) ↦ elim (Option-cases (unhex b)) [
    | inl bad ↦ absurd (ground arith)
    | inr (y, r) ↦ hex_slash a b x y p r (ground arith)
  ]
]

plain_slash :
    (c : ℕ) (o : Option Text) (q : Text)
    → plain false c o ≡ some q
    → has_prefix q (codes "/") ≡ true
    → c ≡ b'/'
unfolding has_prefix
plain_slash c none q e h = cc
plain_slash c (some r) q e h = ground arith

slash_head : (c : ℕ) (s : Text) → c ≡ b'/' → has_prefix (c ∷ s) (codes "/") ≡ true
unfolding has_prefix
slash_head c [] e = ground arith
slash_head c (d ∷ s) e = ground arith

percent_slash :
    (c a b : ℕ) (s : Text)
    → c ≡ b'%'
    → a ≡ b'2'
    → (b ≡ b'F') ⊎ (b ≡ b'f')
    → (has_prefix (c ∷ a ∷ b ∷ s) (codes "%2F") ≡ true)
      ⊎ (has_prefix (c ∷ a ∷ b ∷ s) (codes "%2f") ≡ true)
unfolding has_prefix
percent_slash c a b [] p q r = ground arith
percent_slash c a b (d ∷ s) p q r = ground arith

unescape_slash :
    (s q : Text)
    → unescape false s ≡ some q
    → has_prefix q (codes "/") ≡ true
    → (has_prefix s (codes "/") ≡ true)
      ⊎ ((has_prefix s (codes "%2F") ≡ true) ⊎ (has_prefix s (codes "%2f") ≡ true))
unfolding unescape has_prefix
unescape_slash [] q e h = ground arith
unescape_slash (c ∷ []) q e h = ground arith
unescape_slash (c ∷ a ∷ []) q e h = ground arith
unescape_slash (c ∷ a ∷ b ∷ s) q e h = elim (Bool-cases (nat_eq c b'%')) [
  | inl percent ↦
      let (two, letter) = escaped_slash a b (unescape false s) q (rw percent at e) h in
      inr (percent_slash c a b s ((nat_eq_iff c b'%').0 percent) two letter)
  | inr other ↦
      inl
        (slash_head c (a ∷ b ∷ s) (plain_slash c (unescape false (a ∷ b ∷ s)) q (rw other at e) h))
]

local_path :
    (value : Text) (u : Url)
    → (u.path ≡ codes "*") ⊎ (unescape false (before b'?' (before b'#' value)) ≡ some u.path)
    → has_prefix u.path (codes "/") ≡ true
    → (has_prefix value (codes "/") ≡ true)
      ⊎ ((has_prefix value (codes "%2F") ≡ true) ⊎ (has_prefix value (codes "%2f") ≡ true))
local_path value u (inl star) h = absurd (unfold has_prefix in (ground arith))
local_path value u (inr e) h =
    let start = unescape_slash (before b'?' (before b'#' value)) u.path e h in
    ground (
      arith,
      has_prefix-before b'?' (before b'#' value) (codes "/"),
      has_prefix-before b'?' (before b'#' value) (codes "%2F"),
      has_prefix-before b'?' (before b'#' value) (codes "%2f"),
      has_prefix-before b'#' value (codes "/"),
      has_prefix-before b'#' value (codes "%2F"),
      has_prefix-before b'#' value (codes "%2f"),
    )

is_local-eq-true :
    (o : Option Url)
    → is_local o ≡ true
    → (u : Url) × (o ≡ some u) × (u.scheme ≡ []) × (has_prefix u.path (codes "/") ≡ true)
is_local-eq-true none h = absurd (ground arith)
is_local-eq-true (some u) h = (u, refl, ground (arith, eq_iff u.scheme []), ground arith)

module _ (parse_authority : Text → Option Text) where
  valid_return_to_guards :
      (value : Text)
      → valid_return_to parse_authority value ≡ true
      → (has_prefix value (codes "//") ≡ false)
        × (has_prefix value (codes "/\\") ≡ false)
        × (is_local (parse parse_authority value) ≡ true)
  unfolding valid_return_to
  valid_return_to_guards value h = ground arith

  -- A value that ValidReturnTo accepts is a path that begins with one slash, not followed by a slash
  -- or a backslash, or it begins with an escaped slash.
  pub valid_return_to-IsLocal :
      (value : Text) → valid_return_to parse_authority value ≡ true → IsLocal value
  valid_return_to-IsLocal value h =
      let (slashes, backslash, local) = valid_return_to_guards value h in
      let (u, parsed, no_scheme, rooted) = is_local-eq-true (parse parse_authority value) local in
      let start =
        local_path value u (parse-path parse_authority value u parsed no_scheme slashes) rooted in
      ground arith
