-- ===== src/Config/Values.antt =====
-- The values of settings: strconv.ParseBool, strings.Fields and the parts between commas.
use n8n_gw.Base.Space.{strip_any, spaces}
use n8n_gw.Base.{
  ℕ, zero, suc, Text, codes, ◌==◌, if◌then◌else◌, Bool, true, false, ◌||◌, Option, none, some, List,
  [], ◌∷◌, ◌++◌, length, split, trim_space,
}

unfoldable pub is_any : List Text → Text → Bool
unfolding ◌==◌
is_any [] s = false
is_any (t ∷ ts) s = t == s || is_any ts s

unfoldable pub parse_bool : Text → Option Bool
unfolding is_any
parse_bool s =
    if is_any (codes "1" ∷ codes "t" ∷ codes "T" ∷ codes "true" ∷ codes "TRUE" ∷ codes "True" ∷ [])
      s
    then some true
    else if is_any
        (codes "0" ∷ codes "f" ∷ codes "F" ∷ codes "false" ∷ codes "FALSE" ∷ codes "False" ∷ []) s
    then some false
    else none

-- A word that is not empty is put out.
abbrev flush : Text → List Text → List Text
flush [] words = words
flush (c ∷ s) words = (c ∷ s) ∷ words

-- strings.Fields: the word so far, and the text to go; every round takes a byte at least.
unfoldable pub fields_loop : ℕ → Text → Text → List Text
unfolding strip_any
fields_loop zero word s = flush word []
fields_loop (suc fuel) word [] = flush word []
fields_loop (suc fuel) word (c ∷ s) =
    let next = fields_loop fuel (word ++ c ∷ []) s in
    elim (strip_any spaces (c ∷ s)) [
      | some rest ↦ flush word (fields_loop fuel [] rest)
      | none ↦ next
    ]

unfoldable pub fields : Text → List Text
unfolding fields_loop
fields s = fields_loop (suc (length s)) [] s

-- The loop of csvDefault over the parts.
unfoldable pub keep_full : List Text → List Text
unfolding trim_space ◌==◌
keep_full [] = []
keep_full (part ∷ parts) =
    if trim_space part == [] then keep_full parts else trim_space part ∷ keep_full parts

unfoldable pub csv_parts : Text → List Text
unfolding keep_full split
csv_parts val = keep_full (split b',' val)
