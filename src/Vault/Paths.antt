-- ===== src/Vault/Paths.antt =====
-- The paths of credential_store.go, with path.Join and strings.Trim. The hash of a component stands
-- for base64.RawURLEncoding over sha256.Sum256.
use mathlib.Core.List.{tail}
use n8n_gw.Base.{
  Text, codes, ◌==◌, has_prefix, nat_eq, if◌then◌else◌, Bool, true, false, ◌||◌, List, [], ◌∷◌,
  ◌++◌, reverse, split, join,
}

-- strings.Trim(s, "/")
unfoldable pub trim_slashes_left : Text → Text
trim_slashes_left [] = []
trim_slashes_left (c ∷ s) = if nat_eq c b'/' then trim_slashes_left s else c ∷ s

unfoldable pub trim_slashes : Text → Text
unfolding trim_slashes_left
trim_slashes s = reverse (trim_slashes_left (reverse (trim_slashes_left s)))

abbrev pub top_is_up : List Text → Bool
top_is_up [] = true
top_is_up (t ∷ _) = t == codes ".."

-- path.Clean: ".." takes the part before it along; at the start of a relative path it stays.
unfoldable pub clean_step : Bool → List Text → Text → List Text
unfolding ◌==◌
clean_step rooted stack part =
    if part == [] || part == codes "."
    then stack
    else if part == codes ".."
    then (if top_is_up stack then (if rooted then stack else part ∷ stack) else tail stack)
    else part ∷ stack

unfoldable pub clean_parts : Bool → List Text → List Text → List Text
unfolding clean_step
clean_parts rooted stack [] = reverse stack
clean_parts rooted stack (part ∷ parts) = clean_parts rooted (clean_step rooted stack part) parts

unfoldable pub clean : Text → Text
unfolding clean_parts split join has_prefix ◌==◌
clean s =
    if has_prefix s (codes "/")
    then codes "/" ++ join (codes "/") (clean_parts true [] (split b'/' s))
    else let cleaned = join (codes "/") (clean_parts false [] (split b'/' s)) in
      if cleaned == [] then codes "." else cleaned

unfoldable pub without_empty : List Text → List Text
unfolding ◌==◌
without_empty [] = []
without_empty (part ∷ parts) =
    if part == [] then without_empty parts else part ∷ without_empty parts

-- The elements that are not empty, joined and cleaned; no element gives the empty path.
abbrev pub join_full : List Text → Text
join_full [] = []
join_full (p ∷ ps) = clean (join (codes "/") (p ∷ ps))

-- path.Join: the empty elements are ignored.
unfoldable pub path_join : List Text → Text
unfolding without_empty clean join
path_join parts = join_full (without_empty parts)

module _ (hash_component : Text → Text) where
  unfoldable pub data_path : Text → Text → Text → Text → Text
  unfolding path_join
  data_path mount prefix issuer subject =
      path_join
        (mount ∷ codes "data" ∷ prefix ∷ hash_component issuer ∷ hash_component subject ∷ [])

  unfoldable pub metadata_path : Text → Text → Text → Text → Text
  unfolding path_join
  metadata_path mount prefix issuer subject =
      path_join
        (mount ∷ codes "metadata" ∷ prefix ∷ hash_component issuer ∷ hash_component subject ∷ [])

  unfoldable pub path_for : Text → Text → Text → Text
  unfolding path_join trim_slashes
  path_for prefix issuer subject =
      path_join (trim_slashes prefix ∷ hash_component issuer ∷ hash_component subject ∷ [])
