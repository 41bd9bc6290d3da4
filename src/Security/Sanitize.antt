-- ===== src/Security/Sanitize.antt =====
-- internal/security/cookie.go: SanitizedUpstreamCookieHeader.
pub mod Laws
use n8n_gw.Security.Cookie.{is_proxy_cookie_name}
use n8n_gw.Base.{
  ℕ, Text, codes, ◌==◌, cut_at, if◌then◌else◌, Bool, true, false, Option, none, some, List, [], ◌∷◌,
  ◌++◌, map, split, join, trim_space, Dict, lookup, insert,
}

-- The local variables `order` and `values`.
pub record Jar : Type 0 where
  pub order : List Text
  pub values : Dict Text

-- values[name], which is "" at a missing key.
abbrev pub value_at : Text → Dict Text → Text
value_at name values = elim (lookup name values) [ none ↦ [] | some v ↦ v ]

unfoldable pub keep : Jar → Text → Text → Jar
unfolding lookup insert
keep jar name value = record {
  order = elim (lookup name jar.values) [ none ↦ jar.order ++ name ∷ [] | some _ ↦ jar.order ];
  values = insert name value jar.values;
}

-- One round of the loop. idx <= 0 is no "=", or one at the head.
unfoldable pub sanitize_part : Jar → Text → Jar
unfolding keep is_proxy_cookie_name trim_space cut_at
sanitize_part jar part = elim (cut_at b'=' (trim_space part)) [
  | none ↦ jar
  | some ([], _) ↦ jar
  | some (c ∷ l, r) ↦
      let name = trim_space (c ∷ l) in
      if is_proxy_cookie_name name then jar else keep jar name (trim_space r)
]

unfoldable pub sanitize_parts : Jar → List Text → Jar
unfolding sanitize_part
sanitize_parts jar [] = jar
sanitize_parts jar (part ∷ parts) = sanitize_parts (sanitize_part jar part) parts

abbrev pub empty_jar : Jar
empty_jar = record { order = []; values = [] }

unfoldable pub sanitized_upstream_cookie_header : Text → Text
unfolding sanitize_parts split join
sanitized_upstream_cookie_header raw =
    let jar = sanitize_parts empty_jar (split b';' raw) in
    join (codes "; ") (map (λ name. name ++ (codes "=" ++ value_at name jar.values)) jar.order)
