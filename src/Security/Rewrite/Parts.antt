-- ===== src/Security/Rewrite/Parts.antt =====
-- internal/security/cookie.go: splitCookieParts.
use n8n_gw.Base.Split.{cons_head, split-ne-nil}
use n8n_gw.Security.Rewrite.{split_loop, split_cookie_parts}
use n8n_gw.Base.{
  ℕ, ◌≡◌, refl, ap, ◌∙◌, Text, nat_eq, Bool, true, false, List, [], ◌∷◌, ◌++◌, split, append_assoc,
  append-nil, ◌≢◌, inl, inr, Bool-cases, if◌then◌else◌,
}

-- The first part is preceded by what the loop has read.
abbrev prepend : Text → List Text → List Text
prepend current [] = []
prepend current (p ∷ ps) = (current ++ p) ∷ ps

prepend-cons :
    (c : ℕ) (current : Text) (ps : List Text)
    → ps ≢ []
    → prepend (current ++ c ∷ []) ps ≡ prepend current (cons_head c ps)
prepend-cons c current [] h = absurd (h refl)
prepend-cons c current (p ∷ ps) h = ap (λ x. x ∷ ps) (append_assoc current (c ∷ []) p)

prepend-nil : (ps : List Text) → prepend [] ps ≡ ps
prepend-nil [] = refl
prepend-nil (p ∷ ps) = refl

closed_part :
    (current : Text) {ps qs : List Text}
    → ps ≡ prepend [] qs
    → current ∷ ps ≡ prepend current ([] ∷ qs)
closed_part current {ps} {qs} e = rw (e, prepend-nil qs, append-nil)

both_branches : (b : Bool) {ps qs rs : List Text} → ps ≡ rs → qs ≡ rs → (if b then ps else qs) ≡ rs
both_branches true p q = p
both_branches false p q = q

split_loop-split :
    (s current : Text) (in_expires : Bool)
    → split_loop s current in_expires ≡ prepend current (split b';' s)
unfolding split_loop split
split_loop-split [] current in_expires = rw append-nil
split_loop-split (c ∷ s) current in_expires = elim (Bool-cases (nat_eq c b';')) [
  | inl semicolon ↦ rw semicolon (closed_part current (split_loop-split s [] false))
  | inr other ↦ rw other (
      both_branches (nat_eq c b',') (split_loop-split s (current ++ c ∷ []) in_expires)
        (split_loop-split s (current ++ c ∷ []) _)
      ∙ prepend-cons c current (split b';' s) (split-ne-nil b';' s))
]

-- The search for an Expires attribute changes nothing: splitCookieParts cuts the text at every
-- semicolon, also inside a date.
pub split_cookie_parts-split : (raw : Text) → split_cookie_parts raw ≡ split b';' raw
unfolding split_cookie_parts
split_cookie_parts-split raw = split_loop-split raw [] false ∙ prepend-nil _
