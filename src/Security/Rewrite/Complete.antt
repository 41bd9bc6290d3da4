-- ===== src/Security/Rewrite/Complete.antt =====
-- internal/security/cookie.go: the attributes that RewriteSetCookie adds at the end of a line.
use n8n_gw.Security.Rewrite.Attributes.{
  any_key, any_none, any_key-append, any_none-append, Tracked, lax_key, path_key, secure_key,
  on_branches, rewrite_trimmed-Tracked,
}
use n8n_gw.Security.Rewrite.{
  same_site_value, part_key, Rewrite, rewrite_part, rewrite_parts, complete, start, rewritten_parts,
}
use n8n_gw.Base.{
  ◌≡◌, ap, refl, Text, codes, ◌==◌, if◌then◌else◌, Bool, true, false, not, ◌&&◌, ◌||◌, List, [],
  ◌∷◌, ◌++◌, trim_space, arith,
}

-- An attribute that is added under a condition.
abbrev when : Bool → Text → List Text
when b part = if b then part ∷ [] else []

any_key-when :
    (key part : Text) (b : Bool) → any_key key (when b part) ≡ (b && part_key part == key)
unfolding any_key
any_key-when key part true = ground arith
any_key-when key part false = refl

any_none-when :
    (part : Text) (b : Bool)
    → any_none (when b part)
      ≡ (b && (part_key part == codes "samesite" && same_site_value part == codes "none"))
unfolding any_none
any_none-when part true = ground arith
any_none-when part false = refl

module _ (p s q : Bool) where
  abbrev extra : List Text
  extra = when p (codes "Path=/") ++ (when s (codes "Secure") ++ when q (codes "SameSite=Lax"))

  any_key-extra :
      (key : Text)
      → any_key key extra ≡ (
          (p && codes "path" == key)
          || ((s && codes "secure" == key) || (q && codes "samesite" == key)))
  any_key-extra key =
      let second = when s (codes "Secure") in
      let third = when q (codes "SameSite=Lax") in
      ground (
        arith,
        path_key,
        secure_key,
        lax_key,
        any_key-append key (when p (codes "Path=/")) (second ++ third),
        any_key-append key second third,
        any_key-when key (codes "Path=/") p,
        any_key-when key (codes "Secure") s,
        any_key-when key (codes "SameSite=Lax") q,
      )

  any_none-extra : any_none extra ≡ false
  unfolding ◌==◌
  any_none-extra =
      let second = when s (codes "Secure") in
      let third = when q (codes "SameSite=Lax") in
      ground (
        arith,
        path_key,
        secure_key,
        lax_key,
        any_none-append (when p (codes "Path=/")) (second ++ third),
        any_none-append second third,
        any_none-when (codes "Path=/") p,
        any_none-when (codes "Secure") s,
        any_none-when (codes "SameSite=Lax") q,
      )

rewrite_part-Tracked :
    (force : Bool) (name : Text) (st : Rewrite) (part : Text)
    → Tracked force name st
    → Tracked force name (rewrite_part force st part)
unfolding rewrite_part
rewrite_part-Tracked force name st part (attributes, tracks) =
    on_branches (trim_space part == []) (Tracked force name) (λ empty. (attributes, tracks))
      (λ full. rewrite_trimmed-Tracked force name st (trim_space part) attributes tracks)

rewrite_parts-Tracked :
    (force : Bool) (name : Text) (st : Rewrite) (parts : List Text)
    → Tracked force name st
    → Tracked force name (rewrite_parts force st parts)
unfolding rewrite_parts
rewrite_parts-Tracked force name st [] h = h
rewrite_parts-Tracked force name st (part ∷ parts) h =
    rewrite_parts-Tracked force name (rewrite_part force st part) parts
      (rewrite_part-Tracked force name st part h)

-- What a rewritten line says behind the cookie's own part.
abbrev pub IsRewritten : Bool → List Text → Type 0
IsRewritten force attributes =
    (any_key (codes "domain") attributes ≡ false)
    × (any_key (codes "path") attributes ≡ true)
    × (any_key (codes "secure") attributes ≡ force)
    × (any_key (codes "samesite") attributes ≡ true)
    × ((not force && any_none attributes) ≡ false)

complete-IsRewritten :
    (force : Bool) (name : Text) (st : Rewrite)
    → Tracked force name st
    → (attributes : List Text) × ((complete force st ≡ name ∷ attributes)
        × IsRewritten force attributes)
unfolding complete
complete-IsRewritten force name st (attributes, (out, domain, path, secure, same_site, none_left)) =
    let p = not st.has_path in
    let s = force && not st.has_secure in
    let q = not st.has_same_site in
    let more = extra p s q in
    (
      attributes ++ more,
      (
        ap (λ xs. xs ++ more) out,
        (
          unfold ◌==◌ in
              ground (
                arith,
                any_key-append (codes "domain") attributes more,
                any_key-extra p s q (codes "domain"),
              ),
          unfold ◌==◌ in
              ground (
                arith,
                any_key-append (codes "path") attributes more,
                any_key-extra p s q (codes "path"),
              ),
          unfold ◌==◌ in
              ground (
                arith,
                any_key-append (codes "secure") attributes more,
                any_key-extra p s q (codes "secure"),
              ),
          unfold ◌==◌ in
              ground (
                arith,
                any_key-append (codes "samesite") attributes more,
                any_key-extra p s q (codes "samesite"),
              ),
          ground (arith, any_none-append attributes more, any_none-extra p s q),
        ),
      ),
    )

-- Whatever the parts of a Set-Cookie line are, the rewritten parts start with the trimmed first one,
-- and behind it there is no Domain, there is a Path and a SameSite, there is a Secure exactly if it is
-- forced, and without it SameSite is not None.
pub rewritten_parts-IsRewritten :
    (force_secure : Bool) (name : Text) (parts : List Text)
    → (attributes : List Text) × ((rewritten_parts force_secure (name ∷ parts)
          ≡ trim_space name ∷ attributes)
        × IsRewritten force_secure attributes)
unfolding rewritten_parts
rewritten_parts-IsRewritten force_secure name parts =
    complete-IsRewritten force_secure (trim_space name)
      (rewrite_parts force_secure (start (trim_space name)) parts)
      (rewrite_parts-Tracked force_secure (trim_space name) (start (trim_space name)) parts (
        [],
        (
          refl,
          unfold any_key in refl,
          unfold any_key in refl,
          unfold any_key in ground arith,
          unfold any_key in refl,
          unfold any_none in ground arith,
        ),
      ))
