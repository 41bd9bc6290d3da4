-- ===== src/Url.antt =====
-- What internal/security/return_url.go and internal/httpserver use of package net/url: the escape
-- decoding and `Parse`. The authority of an absolute reference is read by a parameter.
pub mod Escapes
pub mod Relative
use Escapes.{unescape}
use n8n_gw.Base.{
  ℕ, Text, codes, ◌==◌, has_prefix, has_suffix, contains_byte, cut_at, ltb, leb, nat_eq,
  if◌then◌else◌, Bool, true, false, not, ◌&&◌, ◌||◌, Option, none, some, [], ◌∷◌, to_lower,
}

pub record Url : Type 0 where
  pub scheme : Text
  pub opaque : Text
  pub host : Text
  pub path : Text
  pub force_query : Bool
  pub raw_query : Text

abbrev pub no_url : Url
no_url = record {
  scheme = [];
  opaque = [];
  host = [];
  path = [];
  force_query = false;
  raw_query = [];
}

-- stringContainsCTLByte
unfoldable pub has_control : Text → Bool
has_control [] = false
has_control (c ∷ s) = (ltb c 0x20 || nat_eq c 0x7f) || has_control s

abbrev is_letter : ℕ → Bool
is_letter c = (leb b'a' c && leb c b'z') || (leb b'A' c && leb c b'Z')

abbrev is_scheme_mark : ℕ → Bool
is_scheme_mark c = (leb b'0' c && leb c b'9') || (nat_eq c b'+' || (nat_eq c b'-' || nat_eq c b'.'))

-- What getScheme finds: an error, no scheme, or a scheme and the rest.
pub data Scheme : Type 0 where
  missing : Scheme
  absent : Scheme
  found : Text → Text → Scheme

abbrev extend : ℕ → Scheme → Scheme
extend c missing = missing
extend c absent = absent
extend c (found s r) = found (c ∷ s) r

-- The loop of getScheme behind the first letter.
unfoldable pub scheme_tail : Text → Scheme
scheme_tail [] = absent
scheme_tail (c ∷ s) =
    if is_letter c || is_scheme_mark c
    then extend c (scheme_tail s)
    else if nat_eq c b':'
    then found [] s
    else absent

unfoldable pub get_scheme : Text → Scheme
unfolding scheme_tail
get_scheme [] = absent
get_scheme (c ∷ s) =
    if is_letter c then extend c (scheme_tail s) else if nat_eq c b':' then missing else absent

-- What strings.Cut gives before and behind the first `b`.
unfoldable pub before : ℕ → Text → Text
before b [] = []
before b (c ∷ s) = if nat_eq c b then [] else c ∷ before b s

unfoldable pub behind : ℕ → Text → Text
behind b [] = []
behind b (c ∷ s) = if nat_eq c b then s else behind b s

-- The text ends in its only `?`.
abbrev forces_query : Text → Bool
forces_query s = elim (cut_at b'?' s) [ none ↦ false | some (l, r) ↦ r == [] ]

-- setPath
abbrev with_path : Url → Text → Option Url
with_path u p = elim (unescape false p) [ none ↦ none | some q ↦ some (record u { path = q }) ]

abbrev slash : Text
slash = codes "/"

module _ (parse_authority : Text → Option Text) where
  -- The text behind `//`: the host, and the path from the next slash on.
  abbrev parse_host : Url → Text → Option Url
  parse_host u s =
      let (authority, rest) = elim (cut_at b'/' s) as (λ _. Text × Text) [
        | none ↦ (s, [])
        | some (l, r) ↦ (l, b'/' ∷ r)
      ] in
      elim (parse_authority authority) [
        | none ↦ none
        | some host ↦ with_path (record u { host = host }) rest
      ]

  -- `parse` behind the scheme and the query
  abbrev parse_rest : Url → Text → Option Url
  parse_rest u rest =
      if not (has_prefix rest slash) && not (u.scheme == [])
      then some (record u { opaque = rest })
      else if not (has_prefix rest slash) && contains_byte (before b'/' rest) b':'
      then none
      else if (not (u.scheme == []) || not (has_prefix rest (codes "///")))
          && has_prefix rest (codes "//")
      then parse_host u (elim rest [ (_ ∷ _ ∷ s) ↦ s | _ ↦ [] ])
      else with_path u rest

  abbrev parse_query : Text → Text → Option Url
  parse_query scheme s =
      parse_rest
        (record no_url {
          scheme = to_lower scheme;
          force_query = forces_query s;
          raw_query = behind b'?' s;
        })
        (before b'?' s)

  abbrev by_scheme : Text → Scheme → Option Url
  by_scheme s missing = none
  by_scheme s absent = parse_query [] s
  by_scheme s (found scheme rest) = parse_query scheme rest

  abbrev parse_no_fragment : Text → Option Url
  parse_no_fragment s =
      if has_control s
      then none
      else if s == codes "*"
      then some (record no_url { path = codes "*" })
      else by_scheme s (get_scheme s)

  -- url.Parse
  unfoldable pub parse : Text → Option Url
  unfolding unescape get_scheme has_control before behind
  parse s = elim (parse_no_fragment (before b'#' s)) [
    | none ↦ none
    | some u ↦ elim (unescape false (behind b'#' s)) [ none ↦ none | some _ ↦ some u ]
  ]
