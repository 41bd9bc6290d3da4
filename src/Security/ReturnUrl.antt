-- ===== src/Security/ReturnUrl.antt =====
-- internal/security/return_url.go.
pub mod Local
use n8n_gw.Base.{
  ℕ, Text, codes, ◌==◌, has_prefix, contains_byte, if◌then◌else◌, Bool, true, false, not, ◌&&◌,
  ◌||◌, Option, none, some, [], ◌∷◌,
}
use n8n_gw.Url.{Url, parse}

abbrev pub is_local : Option Url → Bool
is_local none = false
is_local (some parsed) =
    if not (parsed.scheme == []) || not (parsed.host == [])
    then false
    else has_prefix parsed.path (codes "/")

module _ (parse_authority : Text → Option Text) where
  unfoldable pub valid_return_to : Text → Bool
  valid_return_to value =
      if value == []
      then false
      else if contains_byte value 0
          || (contains_byte value 13 || (contains_byte value 10 || contains_byte value 9))
      then false
      else if has_prefix value (codes "//") || has_prefix value (codes "/\\")
      then false
      else is_local (parse parse_authority value)
