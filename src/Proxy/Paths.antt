-- ===== src/Proxy/Paths.antt =====
-- internal/proxy/reverse_proxy.go: singleJoiningSlash.
use n8n_gw.Proxy.{single_joining_slash, rest_of}
use n8n_gw.Base.{
  ◌≡◌, ◌∙◌, refl, inl, inr, ap, sym, Text, codes, has_prefix, has_suffix, strip_prefix, trim_suffix,
  nat_eq, if◌then◌else◌, true, false, none, some, [], ◌∷◌, ◌++◌, reverse, append_assoc, Bool-cases,
  reverse-reverse, arith,
}
use mathlib.Core.List.{reverse-cons}

-- strings.TrimPrefix(s, "/")
abbrev pub without_slash : Text → Text
without_slash [] = []
without_slash (c ∷ s) = if nat_eq c b'/' then s else c ∷ s

head_slash : (b : Text) → has_prefix b (codes "/") ≡ true → b ≡ codes "/" ++ without_slash b
unfolding has_prefix
head_slash [] h = absurd (ground arith)
head_slash (c ∷ s) h = ground arith

no_head_slash : (b : Text) → has_prefix b (codes "/") ≡ false → without_slash b ≡ b
unfolding has_prefix
no_head_slash [] h = refl
no_head_slash (c ∷ s) h = ground arith

-- A text that is written from its end.
last_slash :
    (s : Text)
    → has_prefix s (codes "/") ≡ true
    → (t : Text) × ((s ≡ codes "/" ++ t) × (strip_prefix (codes "/") s ≡ some t))
unfolding has_prefix strip_prefix
last_slash [] h = absurd (ground arith)
last_slash (c ∷ s) h = (s, (ground arith, ground arith))

no_last_slash : (s : Text) → has_prefix s (codes "/") ≡ false → strip_prefix (codes "/") s ≡ none
unfolding has_prefix strip_prefix
no_last_slash [] h = refl
no_last_slash (c ∷ s) h = ground arith

tail_slash :
    (a : Text) → has_suffix a (codes "/") ≡ true → a ≡ trim_suffix a (codes "/") ++ codes "/"
unfolding has_suffix trim_suffix
tail_slash a h =
    let (t, (e, stripped)) = last_slash (reverse a) h in
    let back : a ≡ reverse t ++ codes "/" =
      sym (reverse-reverse a) ∙ (ap reverse e ∙ reverse-cons b'/' t) in
    let cut : trim_suffix a (codes "/") ≡ reverse t = ground (arith, stripped) in
    back ∙ ap (λ x. x ++ codes "/") (sym cut)

no_tail_slash : (a : Text) → has_suffix a (codes "/") ≡ false → trim_suffix a (codes "/") ≡ a
unfolding has_suffix trim_suffix
no_tail_slash a h = ground (arith, no_last_slash (reverse a) h)

rest_of_slash : (b : Text) → has_prefix b (codes "/") ≡ true → rest_of b ≡ without_slash b
unfolding has_prefix
rest_of_slash [] h = absurd (ground arith)
rest_of_slash (c ∷ s) h = ground arith

-- The two paths are joined by exactly one slash: the first without its last slash, a slash, and the
-- second without its first one.
pub single_joining_slash_lem :
    (a b : Text)
    → single_joining_slash a b ≡ trim_suffix a (codes "/") ++ (codes "/" ++ without_slash b)
unfolding single_joining_slash
single_joining_slash_lem a b = elim (Bool-cases (has_suffix a (codes "/"))) [
  | inl ends ↦ elim (Bool-cases (has_prefix b (codes "/"))) [
    | inl starts ↦
        rw (ends, starts, rest_of_slash b starts)
          (ap (λ x. x ++ without_slash b) (tail_slash a ends)
            ∙ append_assoc (trim_suffix a (codes "/")) (codes "/") (without_slash b))
    | inr plain ↦
        rw (ends, plain, no_head_slash b plain)
          (ap (λ x. x ++ b) (tail_slash a ends)
            ∙ append_assoc (trim_suffix a (codes "/")) (codes "/") b)
  ]
  | inr open_end ↦ elim (Bool-cases (has_prefix b (codes "/"))) [
    | inl starts ↦
        rw (open_end, starts, no_tail_slash a open_end) (ap (λ x. a ++ x) (head_slash b starts))
    | inr plain ↦ rw (open_end, plain, no_tail_slash a open_end, no_head_slash b plain) refl
  ]
]
