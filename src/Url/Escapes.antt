-- ===== src/Url/Escapes.antt =====
-- url.PathUnescape and url.QueryUnescape.
use n8n_gw.Base.{
  ℕ, ◌+◌, ◌-◌, ◌*◌, Text, leb, nat_eq, if◌then◌else◌, Bool, ◌&&◌, Option, none, some, [], ◌∷◌,
}

-- `ishex` and `unhex`
unfoldable pub unhex : ℕ → Option ℕ
unhex c =
    if leb b'0' c && leb c b'9'
    then some (c - b'0')
    else if leb b'a' c && leb c b'f'
    then some (c - b'a' + 10)
    else if leb b'A' c && leb c b'F'
    then some (c - b'A' + 10)
    else none

abbrev pub escaped : Option ℕ → Option ℕ → Option Text → Option Text
escaped (some x) (some y) (some r) = some ((x * 16 + y) ∷ r)
escaped _ _ _ = none

abbrev pub plain : Bool → ℕ → Option Text → Option Text
plain plus c none = none
plain plus c (some r) = some ((if plus && nat_eq c b'+' then b' ' else c) ∷ r)

-- `plus` is the mode encodeQueryComponent.
unfoldable pub unescape : Bool → Text → Option Text
unfolding unhex
unescape plus [] = some []
unescape plus (c ∷ []) = if nat_eq c b'%' then none else plain plus c (some [])
unescape plus (c ∷ a ∷ []) = if nat_eq c b'%' then none else plain plus c (unescape plus (a ∷ []))
unescape plus (c ∷ a ∷ b ∷ s) =
    let decoded = escaped (unhex a) (unhex b) (unescape plus s) in
    let copied = plain plus c (unescape plus (a ∷ b ∷ s)) in
    if nat_eq c b'%' then decoded else copied
