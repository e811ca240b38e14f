-- ===== src/Base/Maps.antt =====
-- `HashMap<String, V>` and `HashMap<PathBuf, V>` as association lists, and `HashSet<PathBuf>` as a
-- list. `insert` replaces in place, so that a key stands once; the order of iteration is the
-- order of the list.
use mathlib.Core.Path.{◌≡◌, refl}
use mathlib.Core.Logic.{inl, inr}
use mathlib.Core.Bool.{Bool, true, false, not, ◌&&◌, ◌||◌}
use mathlib.Core.Option.{Option, none, some}
use mathlib.Core.List.{List, [], ◌∷◌, ◌++◌}
use native.Mathlib.Omega.{arith}
use obsidian_mcp_semantic_me.Base.Tests.{if◌then◌else◌, Bool-cases}
use obsidian_mcp_semantic_me.Base.Lists.{keep}
use obsidian_mcp_semantic_me.Base.Utf8.{
  split_once, split, Text, text_eq, text_eq_iff, is_char_boundary, starts_with_whitespace,
  trim_start, trim_end, trim, trim_end_matches, starts_with, strip_prefix, ends_with, strip_suffix,
  has_byte, count_leading, find, rfind, lines, join, split_inclusive,
}

abbrev pub Dict {ℓ} : Type ℓ → Type ℓ
Dict V = List (Text × V)

module _ {ℓ} {V : Type ℓ} where
  unfoldable pub lookup : Text → Dict V → Option V
  lookup k [] = none
  lookup k ((j, v) ∷ m) = if text_eq j k then some v else lookup k m

  unfoldable pub insert : Text → V → Dict V → Dict V
  insert k v [] = (k, v) ∷ []
  insert k v ((j, w) ∷ m) = if text_eq j k then (j, v) ∷ m else (j, w) ∷ insert k v m

  unfoldable pub remove : Text → Dict V → Dict V
  remove k [] = []
  remove k ((j, w) ∷ m) = if text_eq j k then remove k m else (j, w) ∷ remove k m

  abbrev pub contains_key : Text → Dict V → Bool
  contains_key k m = elim (lookup k m) [ none ↦ false | some v ↦ true ]

  -- No key stands twice.
  abbrev pub IsUnique : Dict V → Type ℓ
  IsUnique [] = Unit
  IsUnique ((k, v) ∷ m) = (lookup k m ≡ none) × IsUnique m

  pub lookup-insert :
      (k j : Text) (v : V) (m : Dict V)
      → lookup j (insert k v m) ≡ (if text_eq k j then some v else lookup j m)
  unfolding lookup insert
  lookup-insert k j v [] = refl
  lookup-insert k j v ((i, w) ∷ m) =
      ground (arith, text_eq_iff k j, text_eq_iff i k, text_eq_iff i j, lookup-insert k j v m)

  pub lookup-remove :
      (k j : Text) (m : Dict V) → lookup j (remove k m) ≡ (if text_eq k j then none else lookup j m)
  unfolding lookup remove
  lookup-remove k j [] = ground arith
  lookup-remove k j ((i, w) ∷ m) =
      ground (arith, lookup-remove k j m, text_eq_iff i k, text_eq_iff i j, text_eq_iff k j)

  pub insert-IsUnique : (k : Text) (v : V) (m : Dict V) → IsUnique m → IsUnique (insert k v m)
  unfolding insert lookup
  insert-IsUnique k v [] h = (refl, tt)
  insert-IsUnique k v ((j, w) ∷ m) (fresh, h) = elim (Bool-cases (text_eq j k)) [
    | inl e ↦ rw e (fresh, h)
    | inr e ↦ rw e (
      ground (arith, lookup-insert k j v m, text_eq_iff j k, text_eq_iff k j),
      insert-IsUnique k v m h,
    )
  ]

  pub remove-IsUnique : (k : Text) (m : Dict V) → IsUnique m → IsUnique (remove k m)
  unfolding remove lookup
  remove-IsUnique k [] h = h
  remove-IsUnique k ((j, w) ∷ m) (fresh, h) = elim (Bool-cases (text_eq j k)) [
    | inl e ↦ rw e (remove-IsUnique k m h)
    | inr e ↦ rw e (ground (arith, lookup-remove k j m), remove-IsUnique k m h)
  ]

-- `entry(k).or_default()` for a map of collections.
abbrev pub or_empty {ℓ} : {A : Type ℓ} → Option (List A) → List A
or_empty none = []
or_empty (some xs) = xs

-- Sets of texts.
unfoldable pub member : Text → List Text → Bool
member x [] = false
member x (y ∷ s) = text_eq y x || member x s

unfoldable pub set_insert : Text → List Text → List Text
set_insert x [] = x ∷ []
set_insert x (y ∷ s) = if text_eq y x then y ∷ s else y ∷ set_insert x s

unfoldable pub set_remove : Text → List Text → List Text
set_remove x s = keep (λ y. not (text_eq y x)) s

pub member-set_insert :
    (x y : Text) (s : List Text) → member y (set_insert x s) ≡ (text_eq x y || member y s)
unfolding member set_insert
member-set_insert x y [] = refl
member-set_insert x y (z ∷ s) =
    ground (arith, member-set_insert x y s, text_eq_iff x y, text_eq_iff z x, text_eq_iff z y)

pub member-set_remove :
    (x y : Text) (s : List Text) → member y (set_remove x s) ≡ (not (text_eq x y) && member y s)
unfolding member set_remove
member-set_remove x y [] = ground arith
member-set_remove x y (z ∷ s) =
    ground (arith, member-set_remove x y s, text_eq_iff x y, text_eq_iff z x, text_eq_iff z y)

pub member-append : (x : Text) (s t : List Text) → member x (s ++ t) ≡ (member x s || member x t)
unfolding member
member-append x [] t = refl
member-append x (y ∷ s) t = ground (arith, member-append x s t)

-- What a run on texts and maps computes with.
unfoldable pub base_runs : Unit {0}
unfolding text_eq lookup insert remove member set_insert set_remove is_char_boundary
    starts_with_whitespace trim_start trim_end trim trim_end_matches starts_with strip_prefix
    ends_with strip_suffix has_byte count_leading find rfind split_inclusive lines join split
    split_once
base_runs = tt
