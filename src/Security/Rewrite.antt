-- ===== src/Security/Rewrite.antt =====
-- internal/security/cookie.go: RewriteSetCookie, RewriteSetCookies and splitCookieParts.
pub mod Parts
pub mod Attributes
pub mod Complete
use n8n_gw.Base.{
  ℕ, Text, codes, ◌==◌, cut_at, leb, nat_eq, length, if◌then◌else◌, Bool, true, false, not, ◌&&◌,
  none, some, List, [], ◌∷◌, ◌++◌, map, join, trim_space, to_lower, equal_fold,
}

-- The loop of splitCookieParts: the text to go, raw[start:i], and inExpires.
unfoldable pub split_loop : Text → Text → Bool → List Text
unfolding equal_fold trim_space
split_loop [] current in_expires = current ∷ []
split_loop (c ∷ s) current in_expires =
    let expires =
      if leb 8 (length current) && equal_fold (trim_space (current ++ c ∷ [])) (codes "expires")
      then true
      else in_expires in
    let closed = current ∷ split_loop s [] false in
    let comma = split_loop s (current ++ c ∷ []) in_expires in
    let other = split_loop s (current ++ c ∷ []) expires in
    if nat_eq c b';' then closed else if nat_eq c b',' then comma else other

unfoldable pub split_cookie_parts : Text → List Text
unfolding split_loop
split_cookie_parts raw = split_loop raw [] false

unfoldable pub same_site_value : Text → Text
unfolding cut_at to_lower trim_space
same_site_value attr = elim (cut_at b'=' attr) [
  | none ↦ []
  | some (_, value) ↦ to_lower (trim_space value)
]

-- The key of a trimmed part.
unfoldable pub part_key : Text → Text
unfolding cut_at to_lower trim_space
part_key trimmed = elim (cut_at b'=' trimmed) [
  | none ↦ to_lower trimmed
  | some (name, _) ↦ to_lower (trim_space name)
]

-- The local variables of RewriteSetCookie.
pub record Rewrite : Type 0 where
  pub out : List Text
  pub has_path : Bool
  pub has_secure : Bool
  pub has_same_site : Bool

abbrev pub push : Rewrite → Text → Rewrite
push st part = record st { out = st.out ++ part ∷ [] }

-- The switch on the key of a part that is not empty.
unfoldable pub rewrite_trimmed : Bool → Rewrite → Text → Text → Rewrite
rewrite_trimmed force_secure st trimmed key =
    if key == codes "domain"
    then st
    else if key == codes "path"
    then push (record st { has_path = true }) trimmed
    else if key == codes "secure"
    then (if force_secure
        then push (record st { has_secure = true }) trimmed
        else record st { has_secure = true })
    else if key == codes "samesite"
    then (if not force_secure && same_site_value trimmed == codes "none"
        then push (record st { has_same_site = true }) (codes "SameSite=Lax")
        else push (record st { has_same_site = true }) trimmed)
    else push st trimmed

unfoldable pub rewrite_part : Bool → Rewrite → Text → Rewrite
unfolding rewrite_trimmed trim_space part_key same_site_value ◌==◌
rewrite_part force_secure st part =
    let trimmed = trim_space part in
    if trimmed == [] then st else rewrite_trimmed force_secure st trimmed (part_key trimmed)

unfoldable pub rewrite_parts : Bool → Rewrite → List Text → Rewrite
unfolding rewrite_part
rewrite_parts force_secure st [] = st
rewrite_parts force_secure st (part ∷ parts) =
    rewrite_parts force_secure (rewrite_part force_secure st part) parts

-- The three attributes that are added at the end.
unfoldable pub complete : Bool → Rewrite → List Text
complete force_secure st =
    st.out
    ++ ((if not st.has_path then codes "Path=/" ∷ [] else [])
        ++ ((if force_secure && not st.has_secure then codes "Secure" ∷ [] else [])
            ++ (if not st.has_same_site then codes "SameSite=Lax" ∷ [] else [])))

abbrev pub start : Text → Rewrite
start name = record { out = name ∷ []; has_path = false; has_secure = false; has_same_site = false }

-- The parts that RewriteSetCookie joins; splitCookieParts gives at least one.
unfoldable pub rewritten_parts : Bool → List Text → List Text
unfolding rewrite_parts complete trim_space
rewritten_parts force_secure [] = []
rewritten_parts force_secure (name ∷ parts) =
    complete force_secure (rewrite_parts force_secure (start (trim_space name)) parts)

unfoldable pub rewrite_set_cookie : Text → Bool → Text
unfolding rewritten_parts split_cookie_parts join
rewrite_set_cookie raw force_secure = elim (split_cookie_parts raw) [
  | [] ↦ raw
  | name ∷ parts ↦ join (codes "; ") (rewritten_parts force_secure (name ∷ parts))
]

-- The values of the response's Set-Cookie header.
unfoldable pub rewrite_set_cookies : List Text → Bool → List Text
unfolding rewrite_set_cookie
rewrite_set_cookies cookies force_secure =
    map (λ cookie. rewrite_set_cookie cookie force_secure) cookies
