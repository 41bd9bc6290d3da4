-- ===== src/Vault/Separate.antt =====
-- internal/vault/credential_store.go: two users never share a path.
use mathlib.Core.List.{reverse-cons}
use n8n_gw.Base.Split.{cons_head, split-append, split-ne-nil, split_of_Lacks}
use n8n_gw.Vault.Paths.{
  clean_step, clean_parts, clean, without_empty, join_full, path_join, data_path, metadata_path,
  path_for, trim_slashes,
}
use n8n_gw.Base.{
  ℕ, ◌≡◌, ◌≢◌, ◌∙◌, ap, sym, refl, inl, inr, Text, codes, ◌==◌, eq_iff, Lacks, has_prefix, nat_eq,
  Bool, true, false, Option, none, some, List, [], ◌∷◌, ◌++◌, reverse, split, join, append_assoc,
  Bool-cases, arith,
}

-- What base64.RawURLEncoding gives: no slash, no dot and at least one byte.
abbrev pub IsComponent : Text → Type 0
IsComponent s = (s ≢ []) × (s ≢ codes ".") × (s ≢ codes "..") × Lacks b'/' s

cons_head-append :
    (c : ℕ) (xs ys : List Text) → xs ≢ [] → cons_head c (xs ++ ys) ≡ cons_head c xs ++ ys
cons_head-append c [] ys h = absurd (h refl)
cons_head-append c (x ∷ xs) ys h = refl

split-append_any : (b : ℕ) (p rest : Text) → split b (p ++ b ∷ rest) ≡ split b p ++ split b rest
unfolding split
split-append_any b [] rest = ground arith
split-append_any b (c ∷ p) rest = elim (Bool-cases (nat_eq c b)) [
  | inl same ↦ rw same (ap (λ xs. [] ∷ xs) (split-append_any b p rest))
  | inr other ↦ rw other (
      ap (cons_head c) (split-append_any b p rest)
      ∙ cons_head-append c (split b p) (split b rest) (split-ne-nil b p))
]

clean_step-component :
    (rooted : Bool) (stack : List Text) (part : Text)
    → IsComponent part
    → clean_step rooted stack part ≡ part ∷ stack
unfolding clean_step
clean_step-component rooted stack part (full, here, up, _) =
    ground (arith, eq_iff part [], eq_iff part (codes "."), eq_iff part (codes ".."))

-- Two components at the end stay there.
clean_parts-end :
    (rooted : Bool) (stack xs : List Text) (a b : Text)
    → IsComponent a
    → IsComponent b
    → clean_parts rooted stack (xs ++ a ∷ b ∷ []) ≡ clean_parts rooted stack xs ++ a ∷ b ∷ []
unfolding clean_parts
clean_parts-end rooted stack [] a b ha hb =
    rw
      (
        clean_step-component rooted stack a ha,
        clean_step-component rooted (a ∷ stack) b hb,
        reverse-cons b (a ∷ stack),
        reverse-cons a stack,
      )
      (append_assoc (reverse stack) (a ∷ []) (b ∷ []))
clean_parts-end rooted stack (x ∷ xs) a b ha hb =
    clean_parts-end rooted (clean_step rooted stack x) xs a b ha hb

-- The last two parts between slashes.
unfoldable pub last_two : List Text → Option (Text × Text)
last_two [] = none
last_two (a ∷ []) = none
last_two (a ∷ b ∷ []) = some (a, b)
last_two (a ∷ b ∷ c ∷ xs) = last_two (b ∷ c ∷ xs)

last_two-append : (xs : List Text) (a b : Text) → last_two (xs ++ a ∷ b ∷ []) ≡ some (a, b)
unfolding last_two
last_two-append [] a b = refl
last_two-append (x ∷ []) a b = refl
last_two-append (x ∷ y ∷ []) a b = refl
last_two-append (x ∷ y ∷ z ∷ xs) a b = last_two-append (y ∷ z ∷ xs) a b

-- A joined list with two parts at its end.
join_end :
    (xs : List Text) (a b : Text)
    → xs ≢ []
    → join (codes "/") (xs ++ a ∷ b ∷ []) ≡ join (codes "/") xs ++ b'/' ∷ (a ++ b'/' ∷ b)
unfolding join
join_end [] a b h = absurd (h refl)
join_end (x ∷ []) a b h = refl
join_end (x ∷ y ∷ xs) a b h =
    ap (λ s. x ++ b'/' ∷ s) (join_end (y ∷ xs) a b (cc))
    ∙ sym (append_assoc x (b'/' ∷ join (codes "/") (y ∷ xs)) (b'/' ∷ (a ++ b'/' ∷ b)))

not_empty : (text a b : Text) → last_two (split b'/' text) ≡ some (a, b) → text ≢ []
unfolding last_two split
not_empty [] a b h e = cc
not_empty (c ∷ text) a b h e = cc

split-two : (a b : Text) → IsComponent a → IsComponent b → split b'/' (a ++ b'/' ∷ b) ≡ a ∷ b ∷ []
split-two a b (_, _, _, la) (_, _, _, lb) =
    split-append b'/' a b la ∙ ap (λ xs. a ∷ xs) (split_of_Lacks b'/' b lb)

split-join_end :
    (xs : List Text) (a b : Text)
    → IsComponent a
    → IsComponent b
    → (ys : List Text) × (split b'/' (join (codes "/") (xs ++ a ∷ b ∷ [])) ≡ ys ++ a ∷ b ∷ [])
split-join_end [] a b ha hb = ([], unfold join in split-two a b ha hb)
split-join_end (x ∷ xs) a b ha hb =
    let front = join (codes "/") (x ∷ xs) in
    (
      split b'/' front,
      ap (split b'/') (join_end (x ∷ xs) a b (cc))
          ∙ (split-append_any b'/' front (a ++ b'/' ∷ b)
              ∙ ap (λ ys. split b'/' front ++ ys) (split-two a b ha hb)),
    )

clean_end :
    (s : Text) (ys : List Text) (a b : Text)
    → IsComponent a
    → IsComponent b
    → split b'/' s ≡ ys ++ a ∷ b ∷ []
    → last_two (split b'/' (clean s)) ≡ some (a, b)
unfolding clean
clean_end s ys a b ha hb e = elim (Bool-cases (has_prefix s (codes "/"))) [
  | inl rooted ↦
      let (zs, shape) = split-join_end (clean_parts true [] ys) a b ha hb in
      rw (rooted, e, clean_parts-end true [] ys a b ha hb)
        (unfold split in ap last_two (ap (λ xs. [] ∷ xs) shape) ∙ last_two-append ([] ∷ zs) a b)
  | inr relative ↦
      let (zs, shape) = split-join_end (clean_parts false [] ys) a b ha hb in
      let text = join (codes "/") (clean_parts false [] ys ++ a ∷ b ∷ []) in
      let ends : last_two (split b'/' text) ≡ some (a, b) =
        ap last_two shape ∙ last_two-append zs a b in
      rw (relative, e, clean_parts-end false [] ys a b ha hb)
        (elim (Bool-cases (text == [])) [
          | inl empty ↦ absurd (not_empty text a b ends ((eq_iff text []).0 empty))
          | inr full ↦ rw full ends
        ])
]

without_empty-end :
    (parts : List Text) (a b : Text)
    → a ≢ []
    → b ≢ []
    → without_empty (parts ++ a ∷ b ∷ []) ≡ without_empty parts ++ a ∷ b ∷ []
unfolding without_empty
without_empty-end [] a b ha hb = ground (arith, eq_iff a [], eq_iff b [])
without_empty-end (part ∷ parts) a b ha hb = ground (arith, without_empty-end parts a b ha hb)

join_full-end :
    (xs : List Text) (a b : Text)
    → join_full (xs ++ a ∷ b ∷ []) ≡ clean (join (codes "/") (xs ++ a ∷ b ∷ []))
join_full-end [] a b = refl
join_full-end (x ∷ xs) a b = refl

path_join-end :
    (parts : List Text) (a b : Text)
    → IsComponent a
    → IsComponent b
    → last_two (split b'/' (path_join (parts ++ a ∷ b ∷ []))) ≡ some (a, b)
unfolding path_join
path_join-end parts a b ha hb =
    let xs = without_empty parts in
    let (ys, shape) = split-join_end xs a b ha hb in
    ap (λ ps. last_two (split b'/' (join_full ps))) (without_empty-end parts a b ha.0 hb.0)
    ∙ (ap (λ p. last_two (split b'/' p)) (join_full-end xs a b)
        ∙ clean_end (join (codes "/") (xs ++ a ∷ b ∷ [])) ys a b ha hb shape)

same_end :
    {p q : Text} (a b c d : Text)
    → last_two (split b'/' p) ≡ some (a, b)
    → last_two (split b'/' q) ≡ some (c, d)
    → p ≡ q
    → (a ≡ c) × (b ≡ d)
same_end a b c d hp hq e = ground (arith, ap (λ s. last_two (split b'/' s)) e)

-- If the hash of a component gives path components, then the two users of one credential path, whether
-- of KVStore's data or metadata or of MemoryStore, have the same hashes of issuer and subject, whatever
-- the mount and the prefix are; no "..", "." or slash of theirs takes the hashes out of the path.
pub paths_separate :
    (hash_component : Text → Text) (mount prefix issuer subject issuer' subject' : Text)
    → ((s : Text) → IsComponent (hash_component s))
    → let Same =
        (hash_component issuer ≡ hash_component issuer')
        × (hash_component subject ≡ hash_component subject') in
      (data_path hash_component mount prefix issuer subject
          ≡ data_path hash_component mount prefix issuer' subject'
        → Same)
      × (metadata_path hash_component mount prefix issuer subject
            ≡ metadata_path hash_component mount prefix issuer' subject'
          → Same)
      × (path_for hash_component prefix issuer subject
            ≡ path_for hash_component prefix issuer' subject'
          → Same)
unfolding data_path metadata_path path_for
paths_separate hash_component mount prefix i s i' s' good =
    let ends = λ (parts : List Text) (x y : Text).
      path_join-end parts (hash_component x) (hash_component y) (good x) (good y) in
    let kv = mount ∷ codes "data" ∷ prefix ∷ [] in
    let meta = mount ∷ codes "metadata" ∷ prefix ∷ [] in
    let memory = trim_slashes prefix ∷ [] in
    (
      (λ e. same_end _ _ _ _ (ends kv i s) (ends kv i' s') e),
      (λ e. same_end _ _ _ _ (ends meta i s) (ends meta i' s') e),
      (λ e. same_end _ _ _ _ (ends memory i s) (ends memory i' s') e),
    )
