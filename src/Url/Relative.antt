-- ===== src/Url/Relative.antt =====
-- What `parse` makes of a reference with no scheme that does not begin with `//`.
use n8n_gw.Base.{
  ℕ, ◌≡◌, ◌≢◌, refl, sym, ◌∙◌, ◌⊎◌, Text, codes, ◌==◌, has_prefix, true, false, Option, some, [],
  ◌∷◌, arith, to_lower,
}
use n8n_gw.Url.{
  Url, before, Scheme, missing, absent, found, get_scheme, scheme_tail, extend, by_scheme,
  parse_no_fragment, parse_query, parse,
}
use n8n_gw.Url.Escapes.{unescape}

to_lower-ne-nil : (c : ℕ) (s : Text) → to_lower (c ∷ s) ≢ []
unfolding to_lower
to_lower-ne-nil c [] = ground arith
to_lower-ne-nil c (b ∷ []) = ground arith
to_lower-ne-nil c (b ∷ d ∷ s) = ground arith

get_scheme-found_aux :
    (c : ℕ) (t : Scheme) (scheme rest : Text)
    → extend c t ≡ found scheme rest
    → to_lower scheme ≢ []
get_scheme-found_aux c missing scheme rest h = cc
get_scheme-found_aux c absent scheme rest h = cc
get_scheme-found_aux c (found t r) scheme rest h = ground (arith, to_lower-ne-nil c t)

get_scheme-found : (s scheme rest : Text) → get_scheme s ≡ found scheme rest → to_lower scheme ≢ []
unfolding get_scheme
get_scheme-found [] scheme rest h = absurd (ground arith)
get_scheme-found (c ∷ s) scheme rest h =
    ground (arith, get_scheme-found_aux c (scheme_tail s) scheme rest)

pub has_prefix-before :
    (b : ℕ) (s p : Text) → has_prefix (before b s) p ≡ true → has_prefix s p ≡ true
unfolding has_prefix before
has_prefix-before b [] p h = h
has_prefix-before b (c ∷ s) [] h = refl
has_prefix-before b (c ∷ s) (q ∷ p) h = ground (arith, has_prefix-before b s p)

module _ (parse_authority : Text → Option Text) where
  parse_query-path :
      (s : Text) (u : Url)
      → parse_query parse_authority [] s ≡ some u
      → has_prefix s (codes "//") ≡ false
      → unescape false (before b'?' s) ≡ some u.path
  unfolding to_lower ◌==◌
  parse_query-path s u h slashes = ground (arith, has_prefix-before b'?' s (codes "//"))

  parse_query-scheme :
      (scheme s : Text) (u : Url)
      → parse_query parse_authority scheme s ≡ some u
      → u.scheme ≡ to_lower scheme
  parse_query-scheme scheme s u h = ground arith

  by_scheme-path :
      (s : Text) (u : Url) (g : Scheme)
      → get_scheme s ≡ g
      → by_scheme parse_authority s g ≡ some u
      → u.scheme ≡ []
      → has_prefix s (codes "//") ≡ false
      → unescape false (before b'?' s) ≡ some u.path
  by_scheme-path s u missing e h no_scheme slashes = cc
  by_scheme-path s u absent e h no_scheme slashes = parse_query-path s u h slashes
  by_scheme-path s u (found scheme rest) e h no_scheme slashes =
      absurd
        (get_scheme-found s scheme rest e (sym (parse_query-scheme scheme rest u h) ∙ no_scheme))

  no_fragment-path :
      (s : Text) (u : Url)
      → parse_no_fragment parse_authority s ≡ some u
      → u.scheme ≡ []
      → has_prefix s (codes "//") ≡ false
      → (u.path ≡ codes "*") ⊎ (unescape false (before b'?' s) ≡ some u.path)
  no_fragment-path s u h no_scheme slashes = ground (arith, by_scheme-path s u (get_scheme s) refl)

  -- The path of a reference with no scheme and no authority is its decoded text up to the query.
  pub parse-path :
      (s : Text) (u : Url)
      → parse parse_authority s ≡ some u
      → u.scheme ≡ []
      → has_prefix s (codes "//") ≡ false
      → (u.path ≡ codes "*") ⊎ (unescape false (before b'?' (before b'#' s)) ≡ some u.path)
  unfolding parse
  parse-path s u h no_scheme slashes =
      ground (arith, no_fragment-path (before b'#' s) u, has_prefix-before b'#' s (codes "//"))
