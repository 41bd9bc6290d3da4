-- ===== src/Security/Sanitize/Laws.antt =====
-- internal/security/cookie.go: which cookies reach the upstream.
use n8n_gw.Security.Cookie.{is_proxy_cookie_name}
use n8n_gw.Security.Sanitize.{Jar, keep, sanitize_part, sanitize_parts, empty_jar}
use n8n_gw.Base.{
  ℕ, ◌+◌, ◌≡◌, refl, inl, inr, Text, ◌==◌, eq_iff, cut_at, if◌then◌else◌, true, false, Option, none,
  some, List, [], ◌∷◌, ◌++◌, trim_space, lookup, lookup-insert, Option-cases, arith,
}

-- The name and the value of a part: what stands around its first "=", if the name is not empty
-- before it is trimmed.
unfoldable pub cookie_pair : Text → Option (Text × Text)
cookie_pair part = elim (cut_at b'=' (trim_space part)) [
  | none ↦ none
  | some ([], _) ↦ none
  | some (c ∷ l, r) ↦ some (trim_space (c ∷ l), trim_space r)
]

-- The value of the last part that has the name.
unfoldable pub last_value : Text → List Text → Option Text
unfolding cookie_pair
last_value name [] = none
last_value name (part ∷ parts) = elim (last_value name parts) [
  | some v ↦ some v
  | none ↦ elim (cookie_pair part) [
    | none ↦ none
    | some (n, v) ↦ if n == name then some v else none
  ]
]

unfoldable pub count : Text → List Text → ℕ
count name [] = 0
count name (n ∷ names) = (if n == name then 1 else 0) + count name names

abbrev pub tally : Option Text → ℕ
tally none = 0
tally (some _) = 1

abbrev or_else : Option Text → Option Text → Option Text
or_else none o = o
or_else (some v) o = some v

sanitize_part_lem :
    (jar : Jar) (part : Text)
    → sanitize_part jar part ≡ (elim (cookie_pair part) as (λ _. Jar) [
      | none ↦ jar
      | some (n, v) ↦ if is_proxy_cookie_name n then jar else keep jar n v
    ])
unfolding sanitize_part cookie_pair
sanitize_part_lem jar part = ground arith

count-snoc :
    (name n : Text) (names : List Text)
    → count name (names ++ n ∷ []) ≡ count name names + (if n == name then 1 else 0)
unfolding count
count-snoc name n [] = ground arith
count-snoc name n (m ∷ names) = ground (arith, count-snoc name n names)

lookup-keep :
    (name : Text) (jar : Jar) (n v : Text)
    → lookup name (keep jar n v).values ≡ (if n == name then some v else lookup name jar.values)
unfolding keep
lookup-keep name jar n v = lookup-insert n name v jar.values

count-keep :
    (name : Text) (jar : Jar) (n v : Text)
    → ((m : Text) → count m jar.order ≡ tally (lookup m jar.values))
    → count name (keep jar n v).order ≡ tally (lookup name (keep jar n v).values)
unfolding keep
count-keep name jar n v h = ground (
  arith,
  h name,
  h n,
  lookup-insert n name v jar.values,
  count-snoc name n jar.order,
  eq_iff n name,
)

module _ (name : Text) where
  lookup-sanitize_part :
      (jar : Jar) (part : Text)
      → is_proxy_cookie_name name ≡ false
      → lookup name (sanitize_part jar part).values
        ≡ or_else (last_value name (part ∷ [])) (lookup name jar.values)
  unfolding last_value
  lookup-sanitize_part jar part h = elim (Option-cases (cookie_pair part)) [
    | inl bad ↦ ground (arith, sanitize_part_lem jar part)
    | inr ((n, v), found) ↦
        ground (arith, sanitize_part_lem jar part, lookup-keep name jar n v, eq_iff n name)
  ]

  lookup-sanitize_parts :
      (jar : Jar) (parts : List Text)
      → is_proxy_cookie_name name ≡ false
      → lookup name (sanitize_parts jar parts).values
        ≡ or_else (last_value name parts) (lookup name jar.values)
  unfolding sanitize_parts last_value
  lookup-sanitize_parts jar [] h = refl
  lookup-sanitize_parts jar (part ∷ parts) h = ground (
    arith,
    lookup-sanitize_parts (sanitize_part jar part) parts h,
    lookup-sanitize_part jar part h,
  )

  lookup_proxy_part :
      (jar : Jar) (part : Text)
      → is_proxy_cookie_name name ≡ true
      → lookup name (sanitize_part jar part).values ≡ lookup name jar.values
  lookup_proxy_part jar part h = elim (Option-cases (cookie_pair part)) [
    | inl bad ↦ ground (arith, sanitize_part_lem jar part)
    | inr ((n, v), found) ↦
        ground (arith, sanitize_part_lem jar part, lookup-keep name jar n v, eq_iff n name)
  ]

  lookup_proxy_parts :
      (jar : Jar) (parts : List Text)
      → is_proxy_cookie_name name ≡ true
      → lookup name (sanitize_parts jar parts).values ≡ lookup name jar.values
  unfolding sanitize_parts
  lookup_proxy_parts jar [] h = refl
  lookup_proxy_parts jar (part ∷ parts) h =
      ground
        (arith, lookup_proxy_parts (sanitize_part jar part) parts h, lookup_proxy_part jar part h)

count-sanitize_part :
    (jar : Jar) (part : Text)
    → ((m : Text) → count m jar.order ≡ tally (lookup m jar.values))
    → (m : Text)
    → count m (sanitize_part jar part).order ≡ tally (lookup m (sanitize_part jar part).values)
count-sanitize_part jar part h m = elim (Option-cases (cookie_pair part)) [
  | inl bad ↦ ground (arith, sanitize_part_lem jar part, h m)
  | inr ((n, v), found) ↦ ground (arith, sanitize_part_lem jar part, count-keep m jar n v h, h m)
]

count-sanitize_parts :
    (jar : Jar) (parts : List Text)
    → ((m : Text) → count m jar.order ≡ tally (lookup m jar.values))
    → (m : Text)
    → count m (sanitize_parts jar parts).order ≡ tally (lookup m (sanitize_parts jar parts).values)
unfolding sanitize_parts
count-sanitize_parts jar [] h m = h m
count-sanitize_parts jar (part ∷ parts) h m =
    count-sanitize_parts (sanitize_part jar part) parts (count-sanitize_part jar part h) m

-- Of the parts of a Cookie header, the upstream gets every name that has a value, once, with the value
-- of the last part that has this name, and it gets none of the gateway's own cookies.
pub sanitize_parts_lem :
    (parts : List Text) (name : Text)
    → let jar = sanitize_parts empty_jar parts in
      let kept = if is_proxy_cookie_name name then none else last_value name parts in
      (lookup name jar.values ≡ kept) × (count name jar.order ≡ tally kept)
unfolding lookup count
sanitize_parts_lem parts name = ground (
  arith,
  lookup-sanitize_parts name empty_jar parts,
  lookup_proxy_parts name empty_jar parts,
  count-sanitize_parts empty_jar parts (λ m. refl) name,
)
