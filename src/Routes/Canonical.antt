-- ===== src/Routes/Canonical.antt =====
-- internal/httpserver/routes.go: the paths that are classified.
use n8n_gw.Base.Split.{split-Lacks, split-join}
use n8n_gw.Routes.Paths.{resolve, resolve_all, segments, clean_rooted}
use n8n_gw.Routes.{clean_path, rooted, unescaped_path}
use mathlib.Core.List.{tail, reverse-cons}
use n8n_gw.Base.{
  ◌≡◌, ◌≢◌, refl, inl, inr, sym, Text, codes, ◌==◌, eq_iff, Lacks, ◌||◌, Bool-cases, List, [], ◌∷◌,
  ◌++◌, reverse, split, join, append_assoc, append-nil, All, All-reverse, arith,
}

-- A part of a path that path.Clean keeps.
abbrev pub IsPlain : Text → Type 0
IsPlain part = (part ≢ []) × (part ≢ codes ".") × (part ≢ codes "..") × Lacks b'/' part

All-tail : (stack : List Text) → All IsPlain stack → All IsPlain (tail stack)
All-tail [] h = tt
All-tail (part ∷ stack) (_, h) = h

resolve-IsPlain :
    (stack : List Text) (part : Text)
    → All IsPlain stack
    → Lacks b'/' part
    → All IsPlain (resolve stack part)
unfolding resolve
resolve-IsPlain stack part h lacks = elim (Bool-cases (part == [] || part == codes ".")) [
  | inl skipped ↦ rw skipped h
  | inr kept ↦ elim (Bool-cases (part == codes "..")) [
    | inl up ↦ rw (kept, up) (All-tail stack h)
    | inr down ↦
        rw (kept, down)
          (
            (
              ground (arith, eq_iff part []),
              ground (arith, eq_iff part (codes ".")),
              ground (arith, eq_iff part (codes "..")),
              lacks,
            ),
            h,
          )
  ]
]

resolve_all-IsPlain :
    (stack parts : List Text)
    → All IsPlain stack
    → All (Lacks b'/') parts
    → All IsPlain (resolve_all stack parts)
unfolding resolve_all
resolve_all-IsPlain stack [] h lacks = All-reverse IsPlain stack h
resolve_all-IsPlain stack (part ∷ parts) h (lack, lacks) =
    resolve_all-IsPlain (resolve stack part) parts (resolve-IsPlain stack part h lack) lacks

segments-IsPlain : (s : Text) → All IsPlain (segments s)
unfolding segments
segments-IsPlain s = resolve_all-IsPlain [] (split b'/' s) tt (split-Lacks b'/' s)

resolve-plain : (stack : List Text) (part : Text) → IsPlain part → resolve stack part ≡ part ∷ stack
unfolding resolve
resolve-plain stack part (full, here, up, _) =
    ground (arith, eq_iff part [], eq_iff part (codes "."), eq_iff part (codes ".."))

resolve_all-plain :
    (stack parts : List Text) → All IsPlain parts → resolve_all stack parts ≡ reverse stack ++ parts
unfolding resolve_all
resolve_all-plain stack [] h = sym (append-nil (reverse stack))
resolve_all-plain stack (part ∷ parts) (plain, h) =
    rw
      (
        resolve-plain stack part plain,
        resolve_all-plain (part ∷ stack) parts h,
        reverse-cons part stack,
        append_assoc (reverse stack) (part ∷ []) parts,
      )
      refl

Lacks-parts : (parts : List Text) → All IsPlain parts → All (Lacks b'/') parts
Lacks-parts [] h = tt
Lacks-parts (part ∷ parts) ((_, _, _, lacks), h) = (lacks, Lacks-parts parts h)

segments-join :
    (parts : List Text) → All IsPlain parts → segments (codes "/" ++ join (codes "/") parts) ≡ parts
unfolding segments join
segments-join [] h = refl
segments-join (part ∷ parts) h =
    rw (split-join b'/' part parts (Lacks-parts (part ∷ parts) h))
      (resolve_all-plain [] (part ∷ parts) h)

abbrev Canonical : Text → Type 0
Canonical path =
    (parts : List Text) × ((path ≡ codes "/" ++ join (codes "/") parts) × All IsPlain parts)

clean_path-Canonical : (raw_path : Text) → Canonical (clean_path raw_path)
unfolding clean_path clean_rooted ◌==◌
clean_path-Canonical [] = ([], (unfold join in refl, tt))
clean_path-Canonical (c ∷ raw) =
    let s = rooted (unescaped_path (c ∷ raw)) in (segments s, (refl, segments-IsPlain s))

-- CleanPath gives "/" and parts between slashes that are neither empty nor "." nor "..", and path.Clean
-- of what it gives changes nothing.
pub clean_path-IsCanonical :
    (raw_path : Text)
    → ((parts : List Text) × ((clean_path raw_path ≡ codes "/" ++ join (codes "/") parts)
          × All IsPlain parts))
      × (clean_rooted (clean_path raw_path) ≡ clean_path raw_path)
unfolding clean_rooted
clean_path-IsCanonical raw_path =
    let (parts, (e, plain)) = clean_path-Canonical raw_path in
    ((parts, (e, plain)), rw (e, segments-join parts plain) refl)
