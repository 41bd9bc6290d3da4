-- ===== src/Base/Assoc.antt =====
-- Go maps with string keys, as association lists.
use mathlib.Core.Path.{◌≡◌, refl}
use mathlib.Core.Logic.{◌≢◌}
use mathlib.Core.Option.{Option, none, some}
use mathlib.Core.List.{List, [], ◌∷◌}
use native.Mathlib.Omega.{arith}
use n8n_gw.Base.Tests.{if◌then◌else◌}
use n8n_gw.Base.Strings.{Text, ◌==◌, eq_iff}

-- The entries in the order in which their keys came.
abbrev pub Dict {ℓ} : Type ℓ → Type ℓ
Dict V = List (Text × V)

module _ {ℓ} {V : Type ℓ} where
  -- v, ok := m[key]
  unfoldable pub lookup : Text → Dict V → Option V
  lookup key [] = none
  lookup key ((name, held) ∷ rest) = if name == key then some held else lookup key rest

  -- m[key] = new, where a key that is not there goes to the end.
  unfoldable pub insert : Text → V → Dict V → Dict V
  insert key new [] = (key, new) ∷ []
  insert key new ((name, held) ∷ rest) =
      if name == key then (key, new) ∷ rest else (name, held) ∷ insert key new rest

  -- delete(m, key)
  unfoldable pub remove : Text → Dict V → Dict V
  remove key [] = []
  remove key ((name, held) ∷ rest) =
      if name == key then remove key rest else (name, held) ∷ remove key rest

  -- What a reader of the key `at` sees of a write and of a deletion.
  pub lookup-insert :
      (key at : Text) (new : V) (m : Dict V)
      → lookup at (insert key new m) ≡ (if key == at then some new else lookup at m)
  unfolding insert lookup
  lookup-insert key at new [] = refl
  lookup-insert key at new ((name, held) ∷ rest) =
      let same = eq_iff name key in
      let ih = lookup-insert key at new rest in
      ground (arith, ih, same, eq_iff key at, eq_iff name at)

  pub lookup-remove :
      (key at : Text) (m : Dict V)
      → lookup at (remove key m) ≡ (if key == at then none else lookup at m)
  unfolding remove lookup
  lookup-remove key at [] = ground arith
  lookup-remove key at ((name, held) ∷ rest) =
      let same = eq_iff name key in
      let ih = lookup-remove key at rest in ground (arith, ih, same, eq_iff key at, eq_iff name at)

  -- The key of an insertion or a removal, and any other key.
  pub lookup_inserted :
      (key : Text) (new : V) (m : Dict V) → lookup key (insert key new m) ≡ some new
  lookup_inserted key new m = ground (arith, lookup-insert key key new m, eq_iff key key)

  pub lookup_beside :
      (key at : Text) (new : V) (m : Dict V) → at ≢ key → lookup at (insert key new m) ≡ lookup at m
  lookup_beside key at new m other = ground (arith, lookup-insert key at new m, eq_iff key at)

  pub lookup_removed : (key : Text) (m : Dict V) → lookup key (remove key m) ≡ none
  lookup_removed key m = ground (arith, lookup-remove key key m, eq_iff key key)

  pub lookup_left : (key at : Text) (m : Dict V) → at ≢ key → lookup at (remove key m) ≡ lookup at m
  lookup_left key at m other = ground (arith, lookup-remove key at m, eq_iff key at)
