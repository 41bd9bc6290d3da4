-- ===== src/Base/Strings.antt =====
-- Go strings as lists of bytes, and the tests of package strings that the program makes on them.
use Prim.Native.Char.{code}
use Prim.Native.String.{String}
use Prim.Native.Nat.{ℕ}
use mathlib.Core.Path.{◌≡◌, refl}
use mathlib.Core.Logic.{◌↔◌, ◌≢◌, inl, inr}
use mathlib.Core.Bool.{Bool, true, false, ◌&&◌, ◌||◌}
use mathlib.Core.Option.{Option, none, some}
use mathlib.Core.List.{List, [], ◌∷◌, ◌++◌, reverse}
use native.Mathlib.Omega.{arith}
use n8n_gw.Base.Tests.{◌==◌ as nat_eq, if◌then◌else◌, Bool-cases, Option-cases}

abbrev pub Text : Type 0
Text = List ℕ

-- The bytes of an ASCII literal.
abbrev pub codes : String → Text
codes String.[] = []
codes (String.◌∷◌ c s) = code c ∷ codes s

infix 50 ◌==◌
unfoldable pub ◌==◌ : Text → Text → Bool
◌==◌ [] [] = true
◌==◌ (a ∷ s) (b ∷ t) = nat_eq a b && ◌==◌ s t
◌==◌ _ _ = false

pub eq_iff : (s t : Text) → ((s == t) ≡ true) ↔ (s ≡ t)
unfolding ◌==◌
eq_iff [] [] = ground arith
eq_iff [] (b ∷ t) = ground arith
eq_iff (a ∷ s) [] = ground arith
eq_iff (a ∷ s) (b ∷ t) = ground (arith, eq_iff s t)

pub eq_refl : (s : Text) → (s == s) ≡ true
eq_refl s = (eq_iff s s).1 refl

-- strings.CutPrefix
unfoldable pub strip_prefix : Text → Text → Option Text
strip_prefix [] s = some s
strip_prefix (p ∷ ps) [] = none
strip_prefix (p ∷ ps) (c ∷ s) = if nat_eq p c then strip_prefix ps s else none

-- strings.HasPrefix, the text first
unfoldable pub has_prefix : Text → Text → Bool
has_prefix s [] = true
has_prefix [] (p ∷ ps) = false
has_prefix (c ∷ s) (p ∷ ps) = nat_eq p c && has_prefix s ps

-- strings.HasSuffix
unfoldable pub has_suffix : Text → Text → Bool
unfolding has_prefix
has_suffix s p = has_prefix (reverse s) (reverse p)

-- strings.IndexByte(s, b) >= 0
unfoldable pub contains_byte : Text → ℕ → Bool
contains_byte [] b = false
contains_byte (c ∷ s) b = nat_eq c b || contains_byte s b

-- strings.Cut at one byte: what stands before the first `b` and behind it
unfoldable pub cut_at : ℕ → Text → Option (Text × Text)
cut_at b [] = none
cut_at b (c ∷ s) =
    if nat_eq c b
    then some ([], s)
    else elim (cut_at b s) [ none ↦ none | some (l, r) ↦ some (c ∷ l, r) ]

pub strip_prefix-eq-some : (p s : Text) {r : Text} → strip_prefix p s ≡ some r → s ≡ p ++ r
unfolding strip_prefix
strip_prefix-eq-some [] s h = ground arith
strip_prefix-eq-some (p ∷ ps) [] h = ground arith
strip_prefix-eq-some (p ∷ ps) (c ∷ s) {r} h = ground (arith, strip_prefix-eq-some ps s {r = r})

pub strip_prefix-append : (p r : Text) → strip_prefix p (p ++ r) ≡ some r
unfolding strip_prefix
strip_prefix-append [] r = refl
strip_prefix-append (p ∷ ps) r = ground (arith, strip_prefix-append ps r)

pub has_prefix-append : (p r : Text) → has_prefix (p ++ r) p ≡ true
unfolding has_prefix
has_prefix-append [] r = refl
has_prefix-append (p ∷ ps) r = ground (arith, has_prefix-append ps r)

pub append_of_has_prefix : (s p : Text) → has_prefix s p ≡ true → (r : Text) × (s ≡ p ++ r)
unfolding has_prefix
append_of_has_prefix s [] h = (s, refl)
append_of_has_prefix [] (p ∷ ps) h = absurd (ground arith)
append_of_has_prefix (c ∷ s) (p ∷ ps) h =
    let (r, e) = append_of_has_prefix s ps (ground arith) in (r, ground arith)

pub has_prefix-append_left : (s t p : Text) → has_prefix s p ≡ true → has_prefix (s ++ t) p ≡ true
unfolding has_prefix
has_prefix-append_left s t [] h = elim (s ++ t) as (λ x. has_prefix x [] ≡ true) [
  | [] ↦ refl
  | c ∷ r ↦ refl
]
has_prefix-append_left [] t (p ∷ ps) h = absurd (ground arith)
has_prefix-append_left (c ∷ s) t (p ∷ ps) h = ground (arith, has_prefix-append_left s t ps)

abbrev pub Lacks : ℕ → Text → Type 0
Lacks b [] = Unit
Lacks b (c ∷ s) = (c ≢ b) × Lacks b s

pub Lacks-append : (b : ℕ) (s t : Text) → Lacks b s → Lacks b t → Lacks b (s ++ t)
Lacks-append b [] t h k = k
Lacks-append b (c ∷ s) t (p, h) k = (p, Lacks-append b s t h k)

pub Lacks-append_left : (b : ℕ) (s t : Text) → Lacks b (s ++ t) → Lacks b s
Lacks-append_left b [] t h = tt
Lacks-append_left b (c ∷ s) t (p, h) = (p, Lacks-append_left b s t h)

pub Lacks-append_right : (b : ℕ) (s t : Text) → Lacks b (s ++ t) → Lacks b t
Lacks-append_right b [] t h = h
Lacks-append_right b (c ∷ s) t (p, h) = Lacks-append_right b s t h

-- The cut is at the first separator.
pub cut_at-eq-some :
    (b : ℕ) (s l r : Text) → cut_at b s ≡ some (l, r) → (s ≡ l ++ b ∷ r) × Lacks b l
unfolding cut_at
cut_at-eq-some b [] l r h = absurd (ground arith)
cut_at-eq-some b (c ∷ s) l r h = elim (Bool-cases (nat_eq c b)) [
  | inl same ↦ (ground arith, ground arith)
  | inr other ↦ elim (Option-cases (cut_at b s)) [
    | inl missed ↦ absurd (ground arith)
    | inr ((l', r'), found) ↦
        let (e, lacks) = cut_at-eq-some b s l' r' found in (ground arith, ground arith)
  ]
]

pub cut_at-append : (b : ℕ) (l r : Text) → Lacks b l → cut_at b (l ++ b ∷ r) ≡ some (l, r)
unfolding cut_at
cut_at-append b [] r h = ground arith
cut_at-append b (c ∷ l) r h = ground (arith, cut_at-append b l r)

pub cut_at-eq-none_iff : (b : ℕ) (s : Text) → (cut_at b s ≡ none) ↔ Lacks b s
unfolding cut_at
cut_at-eq-none_iff b [] = ground arith
cut_at-eq-none_iff b (c ∷ s) = ground (arith, cut_at-eq-none_iff b s)
