-- ===== src/Security/Rewrite/Attributes.antt =====
-- internal/security/cookie.go: the attributes of a rewritten Set-Cookie line.
use n8n_gw.Security.Rewrite.{same_site_value, part_key, Rewrite, rewrite_trimmed, push}
use n8n_gw.Base.{
  ◌≡◌, ap, ◌∙◌, refl, inl, inr, Text, codes, ◌==◌, eq_iff, if◌then◌else◌, Bool, true, false, not,
  ◌&&◌, ◌||◌, List, [], ◌∷◌, ◌++◌, trim_space, to_lower, cut_at, Bool-cases, arith,
}

-- A part has the key.
unfoldable pub any_key : Text → List Text → Bool
any_key key [] = false
any_key key (part ∷ parts) = part_key part == key || any_key key parts

-- A part says SameSite=None.
unfoldable pub any_none : List Text → Bool
any_none [] = false
any_none (part ∷ parts) =
    (part_key part == codes "samesite" && same_site_value part == codes "none") || any_none parts

pub any_key-append :
    (key : Text) (xs ys : List Text) → any_key key (xs ++ ys) ≡ (any_key key xs || any_key key ys)
unfolding any_key
any_key-append key [] ys = refl
any_key-append key (x ∷ xs) ys = ground (arith, any_key-append key xs ys)

pub any_none-append : (xs ys : List Text) → any_none (xs ++ ys) ≡ (any_none xs || any_none ys)
unfolding any_none
any_none-append [] ys = refl
any_none-append (x ∷ xs) ys = ground (arith, any_none-append xs ys)

-- What the flags of the loop say of the attributes behind the name.
abbrev pub Tracks : Bool → Text → List Text → Rewrite → Type 0
Tracks force name attributes st =
    (st.out ≡ name ∷ attributes)
    × (any_key (codes "domain") attributes ≡ false)
    × (any_key (codes "path") attributes ≡ st.has_path)
    × (any_key (codes "secure") attributes ≡ (force && st.has_secure))
    × (any_key (codes "samesite") attributes ≡ st.has_same_site)
    × ((not force && any_none attributes) ≡ false)

abbrev pub Tracked : Bool → Text → Rewrite → Type 0
Tracked force name st = (attributes : List Text) × Tracks force name attributes st

pub lax_key :
    (part_key (codes "SameSite=Lax") ≡ codes "samesite")
    × (same_site_value (codes "SameSite=Lax") ≡ codes "lax")
unfolding part_key same_site_value cut_at trim_space to_lower
lax_key = (refl, refl)

pub path_key : part_key (codes "Path=/") ≡ codes "path"
unfolding part_key cut_at trim_space to_lower
path_key = refl

pub secure_key : part_key (codes "Secure") ≡ codes "secure"
unfolding part_key cut_at trim_space to_lower
secure_key = refl

any_key-snoc :
    (key part : Text) (parts : List Text)
    → any_key key (parts ++ part ∷ []) ≡ (any_key key parts || part_key part == key)
unfolding any_key
any_key-snoc key part parts = ground (arith, any_key-append key parts (part ∷ []))

any_none-snoc :
    (part : Text) (parts : List Text)
    → any_none (parts ++ part ∷ []) ≡ (
        any_none parts
        || (part_key part == codes "samesite" && same_site_value part == codes "none"))
unfolding any_none
any_none-snoc part parts = ground (arith, any_none-append parts (part ∷ []))

-- A part is added, and the flags are set as its key wants.
added :
    (force : Bool) (name : Text) (st st' : Rewrite) (part : Text) (attributes : List Text)
    → Tracks force name attributes st
    → st'.out ≡ st.out ++ part ∷ []
    → part_key part == codes "domain" ≡ false
    → st'.has_path ≡ (st.has_path || part_key part == codes "path")
    → (force && st'.has_secure) ≡ ((force && st.has_secure) || part_key part == codes "secure")
    → st'.has_same_site ≡ (st.has_same_site || part_key part == codes "samesite")
    → (not force && (part_key part == codes "samesite" && same_site_value part == codes "none"))
      ≡ false
    → Tracked force name st'
added force name st st' part attributes (out, domain, path, secure, same_site, none_left) grown d p
      s q n =
    (
      attributes ++ part ∷ [],
      (
        grown ∙ ap (λ xs. xs ++ part ∷ []) out,
        ground (arith, any_key-snoc (codes "domain") part attributes),
        ground (arith, any_key-snoc (codes "path") part attributes),
        ground (arith, any_key-snoc (codes "secure") part attributes),
        ground (arith, any_key-snoc (codes "samesite") part attributes),
        ground (arith, any_none-snoc part attributes),
      ),
    )

-- Two keys are not the same one.
apart : (key a b : Text) → a == b ≡ false → key == a ≡ true → key == b ≡ false
apart key a b differ is_a = ground (arith, eq_iff key a, eq_iff key b, eq_iff a b)

pub on_branches :
    (b : Bool) (P : Rewrite → Type 0) {x y : Rewrite}
    → (b ≡ true → P x)
    → (b ≡ false → P y)
    → P (if b then x else y)
on_branches true P f g = f refl
on_branches false P f g = g refl

module _ (force : Bool) (name : Text) (st : Rewrite) (trimmed : Text) (attributes : List Text)
    (tracks : Tracks force name attributes st) where
  path_part :
      part_key trimmed == codes "path" ≡ true
      → Tracked force name (push (record st { has_path = true }) trimmed)
  unfolding ◌==◌
  path_part is_path =
      let not_domain = apart (part_key trimmed) (codes "path") (codes "domain") refl is_path in
      let not_secure = apart (part_key trimmed) (codes "path") (codes "secure") refl is_path in
      let not_same = apart (part_key trimmed) (codes "path") (codes "samesite") refl is_path in
      added force name st (push (record st { has_path = true }) trimmed) trimmed attributes tracks
        refl not_domain (ground arith) (ground arith) (ground arith) (ground arith)

  secure_part :
      part_key trimmed == codes "secure" ≡ true
      → Tracked force name (
          if force
          then push (record st { has_secure = true }) trimmed
          else record st { has_secure = true })
  unfolding ◌==◌
  secure_part is_secure =
      let not_domain = apart (part_key trimmed) (codes "secure") (codes "domain") refl is_secure in
      let not_path = apart (part_key trimmed) (codes "secure") (codes "path") refl is_secure in
      let not_same = apart (part_key trimmed) (codes "secure") (codes "samesite") refl is_secure in
      let st' : Rewrite = record st { has_secure = true } in
      let (out, domain, path, secure, same_site, none_left) = tracks in
      on_branches force (Tracked force name)
        (λ forced.
          added force name st (push st' trimmed) trimmed attributes tracks refl not_domain
            (ground arith) (ground arith) (ground arith) (ground arith))
        (λ free. (attributes, (out, domain, path, ground arith, same_site, none_left)))

  same_site_part :
      part_key trimmed == codes "samesite" ≡ true
      → Tracked force name (
          if not force && same_site_value trimmed == codes "none"
          then push (record st { has_same_site = true }) (codes "SameSite=Lax")
          else push (record st { has_same_site = true }) trimmed)
  unfolding ◌==◌
  same_site_part is_same =
      let not_domain = apart (part_key trimmed) (codes "samesite") (codes "domain") refl is_same in
      let not_path = apart (part_key trimmed) (codes "samesite") (codes "path") refl is_same in
      let not_secure = apart (part_key trimmed) (codes "samesite") (codes "secure") refl is_same in
      let st' : Rewrite = record st { has_same_site = true } in
      elim (Bool-cases (not force && same_site_value trimmed == codes "none")) [
        | inl replaced ↦ rw replaced (
            added force name st (push st' (codes "SameSite=Lax")) (codes "SameSite=Lax") attributes
              tracks refl (rw lax_key.0 refl) (rw lax_key.0 (ground arith))
              (rw lax_key.0 (ground arith)) (rw lax_key.0 (ground arith)) (ground (arith, lax_key)))
        | inr kept ↦ rw kept (
            added force name st (push st' trimmed) trimmed attributes tracks refl not_domain
              (ground arith) (ground arith) (ground arith) (ground arith))
      ]

  pub rewrite_trimmed-Tracked :
      Tracked force name (rewrite_trimmed force st trimmed (part_key trimmed))
  unfolding rewrite_trimmed
  rewrite_trimmed-Tracked = elim (Bool-cases (part_key trimmed == codes "domain")) [
    | inl is_domain ↦ rw is_domain (attributes, tracks)
    | inr not_domain ↦ elim (Bool-cases (part_key trimmed == codes "path")) [
      | inl is_path ↦ rw (not_domain, is_path) (path_part is_path)
      | inr not_path ↦ elim (Bool-cases (part_key trimmed == codes "secure")) [
        | inl is_secure ↦ rw (not_domain, not_path, is_secure) (secure_part is_secure)
        | inr not_secure ↦ elim (Bool-cases (part_key trimmed == codes "samesite")) [
          | inl is_same ↦ rw (not_domain, not_path, not_secure, is_same) (same_site_part is_same)
          | inr not_same ↦
              rw (not_domain, not_path, not_secure, not_same)
                (added force name st (push st trimmed) trimmed attributes tracks refl not_domain
                  (ground arith) (ground arith) (ground arith) (ground arith))
        ]
      ]
    ]
  ]
