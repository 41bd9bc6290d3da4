-- ===== src/Base/Split.antt =====
-- strings.Split at one byte, and strings.Join.
use Prim.Native.Nat.{ℕ}
use mathlib.Core.Path.{◌≡◌, refl, ap, ◌∙◌}
use mathlib.Core.Logic.{◌≢◌}
use mathlib.Core.List.{List, [], ◌∷◌, ◌++◌}
use native.Mathlib.Omega.{arith}
use n8n_gw.Base.Tests.{◌==◌, if◌then◌else◌}
use n8n_gw.Base.Lists.{All}
use n8n_gw.Base.Strings.{Text, Lacks}

-- The bytes up to the first separator, and the parts behind it.
abbrev pub cons_head : ℕ → List Text → List Text
cons_head c [] = (c ∷ []) ∷ []
cons_head c (p ∷ ps) = (c ∷ p) ∷ ps

-- strings.Split(s, string(b)): there is always at least one part.
unfoldable pub split : ℕ → Text → List Text
split b [] = [] ∷ []
split b (c ∷ s) = if c == b then [] ∷ split b s else cons_head c (split b s)

-- strings.Join
unfoldable pub join : Text → List Text → Text
join sep [] = []
join sep (p ∷ []) = p
join sep (p ∷ q ∷ ps) = p ++ (sep ++ join sep (q ∷ ps))

pub split-ne-nil : (b : ℕ) (s : Text) → split b s ≢ []
unfolding split
split-ne-nil b [] = cc
split-ne-nil b (c ∷ s) = ground (arith, split-ne-nil b s)

All-cons_head :
    (b c : ℕ) (ps : List Text) → c ≢ b → All (Lacks b) ps → All (Lacks b) (cons_head c ps)
All-cons_head b c [] h k = ((h, tt), tt)
All-cons_head b c (p ∷ ps) h (k, ks) = ((h, k), ks)

pub split-Lacks : (b : ℕ) (s : Text) → All (Lacks b) (split b s)
unfolding split
split-Lacks b [] = (tt, tt)
split-Lacks b (c ∷ s) = ground (arith, split-Lacks b s, All-cons_head b c (split b s))

pub split-append : (b : ℕ) (p s : Text) → Lacks b p → split b (p ++ b ∷ s) ≡ p ∷ split b s
unfolding split
split-append b [] s h = ground arith
split-append b (c ∷ p) s h = ground (arith, split-append b p s)

pub split_of_Lacks : (b : ℕ) (p : Text) → Lacks b p → split b p ≡ p ∷ []
unfolding split
split_of_Lacks b [] h = refl
split_of_Lacks b (c ∷ p) h = ground (arith, split_of_Lacks b p)

join-cons_head :
    (sep : Text) (c : ℕ) (ps : List Text) → ps ≢ [] → join sep (cons_head c ps) ≡ c ∷ join sep ps
unfolding join
join-cons_head sep c [] h = absurd (h refl)
join-cons_head sep c (p ∷ []) h = refl
join-cons_head sep c (p ∷ q ∷ ps) h = refl

join_nil_head : (sep : Text) (ps : List Text) → ps ≢ [] → join sep ([] ∷ ps) ≡ sep ++ join sep ps
unfolding join
join_nil_head sep [] h = absurd (h refl)
join_nil_head sep (p ∷ ps) h = refl

-- Joining the parts with the separator gives the text back.
pub join-split : (b : ℕ) (s : Text) → join (b ∷ []) (split b s) ≡ s
unfolding split
join-split b [] = unfold join in refl
join-split b (c ∷ s) = ground (
  arith,
  join-cons_head (b ∷ []) c (split b s) (split-ne-nil b s),
  join_nil_head (b ∷ []) (split b s) (split-ne-nil b s),
  join-split b s,
)

-- The parts of a join, if no part holds the first byte of the separator.
pub split-join :
    (b : ℕ) (p : Text) (ps : List Text)
    → All (Lacks b) (p ∷ ps)
    → split b (join (b ∷ []) (p ∷ ps)) ≡ p ∷ ps
unfolding join
split-join b p [] (h, _) = split_of_Lacks b p h
split-join b p (q ∷ ps) (h, hs) =
    split-append b p (join (b ∷ []) (q ∷ ps)) h ∙ ap (λ rest. p ∷ rest) (split-join b q ps hs)
