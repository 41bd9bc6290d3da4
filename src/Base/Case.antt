-- ===== src/Base/Case.antt =====
-- strings.ToLower, strings.Contains and strings.TrimSuffix.
use Prim.Native.Nat.{ℕ, ◌+◌}
use mathlib.Core.Bool.{Bool, ◌&&◌, ◌||◌}
use mathlib.Core.List.{[], ◌∷◌, reverse}
use mathlib.Core.Option.{none, some}
use n8n_gw.Base.Tests.{leb, ◌==◌, if◌then◌else◌}
use n8n_gw.Base.Strings.{Text, has_prefix, strip_prefix, ◌==◌ as text_eq}

abbrev pub lower_byte : ℕ → ℕ
lower_byte c = if leb b'A' c && leb c b'Z' then c + 32 else c

-- Two other code points have an ASCII letter for their lower case: U+0130 (i) and U+212A (k). The
-- lower case of all the rest is not ASCII. The program compares the result with ASCII texts alone,
-- so they are left as they are.
unfoldable pub to_lower : Text → Text
to_lower [] = []
to_lower (a ∷ []) = lower_byte a ∷ []
to_lower (a ∷ b ∷ []) =
    let rest = to_lower (b ∷ []) in
    if a == 0xc4 && b == 0xb0 then b'i' ∷ [] else lower_byte a ∷ rest
to_lower (a ∷ b ∷ c ∷ s) =
    let rest = lower_byte a ∷ to_lower (b ∷ c ∷ s) in
    let dotted = b'i' ∷ to_lower (c ∷ s) in
    let kelvin = b'k' ∷ to_lower s in
    if a == 0xc4 && b == 0xb0
    then dotted
    else if a == 0xe2 && b == 0x84 && c == 0xaa
    then kelvin
    else rest

-- strings.EqualFold against an ASCII text: U+017F folds to s, and U+212A to k.
unfoldable pub fold : Text → Text
fold [] = []
fold (a ∷ []) = lower_byte a ∷ []
fold (a ∷ b ∷ []) =
    let rest = fold (b ∷ []) in if a == 0xc5 && b == 0xbf then b's' ∷ [] else lower_byte a ∷ rest
fold (a ∷ b ∷ c ∷ s) =
    let rest = lower_byte a ∷ fold (b ∷ c ∷ s) in
    let long_s = b's' ∷ fold (c ∷ s) in
    let kelvin = b'k' ∷ fold s in
    if a == 0xc5 && b == 0xbf
    then long_s
    else if a == 0xe2 && b == 0x84 && c == 0xaa
    then kelvin
    else rest

unfoldable pub equal_fold : Text → Text → Bool
unfolding fold text_eq
equal_fold s t = text_eq (fold s) (fold t)

-- strings.Contains(s, sub)
unfoldable pub contains : Text → Text → Bool
unfolding has_prefix
contains [] sub = has_prefix [] sub
contains (c ∷ s) sub = has_prefix (c ∷ s) sub || contains s sub

-- strings.TrimSuffix(s, suffix)
unfoldable pub trim_suffix : Text → Text → Text
unfolding strip_prefix
trim_suffix s p = elim (strip_prefix (reverse p) (reverse s)) [ none ↦ s | some r ↦ reverse r ]
