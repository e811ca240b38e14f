-- ===== src/Base/Order.antt =====
-- `sort` and `dedup` of texts, in the order of their bytes, and `BTreeMap<String, V>` as an
-- association list in that order.
use mathlib.Core.Path.{◌≡◌, refl}
use mathlib.Core.Logic.{inl, inr}
use mathlib.Core.Bool.{Bool, true, false, ◌&&◌, ◌||◌}
use mathlib.Core.Option.{some}
use mathlib.Core.List.{List, [], ◌∷◌}
use native.Mathlib.Omega.{arith}
use obsidian_mcp_semantic_me.Base.Tests.{ltb, ◌==◌, if◌then◌else◌, Bool-cases}
use obsidian_mcp_semantic_me.Base.Utf8.{Text, text_eq, text_eq_iff}
use obsidian_mcp_semantic_me.Base.Maps.{Dict, lookup, member}

unfoldable pub text_lt : Text → Text → Bool
text_lt [] [] = false
text_lt [] (b ∷ t) = true
text_lt (a ∷ s) [] = false
text_lt (a ∷ s) (b ∷ t) = ltb a b || (a == b && text_lt s t)

-- `cmp` on paths: component by component, so a separator is below all other bytes.
unfoldable pub path_lt : Text → Text → Bool
path_lt [] [] = false
path_lt [] (b ∷ t) = true
path_lt (a ∷ s) [] = false
path_lt (a ∷ s) (b ∷ t) =
    if a == b then path_lt s t else if a == b'/' then true else if b == b'/' then false else ltb a b

pub text_lt_trans : (s t r : Text) → text_lt s t ≡ true → text_lt t r ≡ true → text_lt s r ≡ true
unfolding text_lt
text_lt_trans [] [] r h k = cc
text_lt_trans [] (b ∷ t) [] h k = cc
text_lt_trans [] (b ∷ t) (c ∷ r) h k = refl
text_lt_trans (a ∷ s) [] r h k = cc
text_lt_trans (a ∷ s) (b ∷ t) [] h k = cc
text_lt_trans (a ∷ s) (b ∷ t) (c ∷ r) h k = ground (arith, text_lt_trans s t r)

-- Two texts that are not the same are in order one way round.
pub text_lt_total : (s t : Text) → text_eq s t ≡ false → text_lt s t ≡ false → text_lt t s ≡ true
unfolding text_lt text_eq
text_lt_total [] [] h k = cc
text_lt_total [] (b ∷ t) h k = cc
text_lt_total (a ∷ s) [] h k = refl
text_lt_total (a ∷ s) (b ∷ t) h k = ground (arith, text_lt_total s t)

-- `v.sort(); v.dedup();`, as an insertion sort that drops repetitions.
unfoldable pub insert_text : Text → List Text → List Text
insert_text x [] = x ∷ []
insert_text x (y ∷ ys) =
    if text_eq x y then y ∷ ys else if text_lt x y then x ∷ y ∷ ys else y ∷ insert_text x ys

unfoldable pub sort_dedup : List Text → List Text
sort_dedup [] = []
sort_dedup (x ∷ xs) = insert_text x (sort_dedup xs)

abbrev pub IsAbove : Text → List Text → Type 0
IsAbove x [] = Unit {0}
IsAbove x (y ∷ ys) = (text_lt x y ≡ true) × IsAbove y ys

abbrev pub IsAscending : List Text → Type 0
IsAscending [] = Unit {0}
IsAscending (x ∷ xs) = IsAbove x xs

insert_text-IsAbove :
    (z x : Text) (ys : List Text) → text_lt z x ≡ true → IsAbove z ys → IsAbove z (insert_text x ys)
unfolding insert_text
insert_text-IsAbove z x [] h k = (h, tt)
insert_text-IsAbove z x (y ∷ ys) h (p, k) = elim (Bool-cases (text_eq x y)) [
  | inl e ↦ rw e (p, k)
  | inr e ↦ elim (Bool-cases (text_lt x y)) [
    | inl lt ↦ rw (e, lt) (h, (lt, k))
    | inr ge ↦ rw (e, ge) (p, insert_text-IsAbove y x ys (text_lt_total x y e ge) k)
  ]
]

insert_text-IsAscending :
    (x : Text) (ys : List Text) → IsAscending ys → IsAscending (insert_text x ys)
unfolding insert_text
insert_text-IsAscending x [] k = tt
insert_text-IsAscending x (y ∷ ys) k = elim (Bool-cases (text_eq x y)) [
  | inl e ↦ rw e k
  | inr e ↦ elim (Bool-cases (text_lt x y)) [
    | inl lt ↦ rw (e, lt) (lt, k)
    | inr ge ↦ rw (e, ge) (insert_text-IsAbove y x ys (text_lt_total x y e ge) k)
  ]
]

member-insert_text :
    (z x : Text) (ys : List Text) → member z (insert_text x ys) ≡ (text_eq x z || member z ys)
unfolding insert_text member
member-insert_text z x [] = refl
member-insert_text z x (y ∷ ys) =
    ground (arith, member-insert_text z x ys, text_eq_iff x y, text_eq_iff x z, text_eq_iff y z)

pub sort_dedup-IsAscending : (xs : List Text) → IsAscending (sort_dedup xs)
unfolding sort_dedup
sort_dedup-IsAscending [] = tt
sort_dedup-IsAscending (x ∷ xs) =
    insert_text-IsAscending x (sort_dedup xs) (sort_dedup-IsAscending xs)

pub member-sort_dedup : (z : Text) (xs : List Text) → member z (sort_dedup xs) ≡ member z xs
unfolding sort_dedup member
member-sort_dedup z [] = refl
member-sort_dedup z (x ∷ xs) =
    ground (arith, member-insert_text z x (sort_dedup xs), member-sort_dedup z xs)

module _ {ℓ} {V : Type ℓ} where
  -- `BTreeMap::insert`
  unfoldable pub insert_sorted : Text → V → Dict V → Dict V
  insert_sorted k v [] = (k, v) ∷ []
  insert_sorted k v ((j, w) ∷ m) =
      if text_eq j k
      then (j, v) ∷ m
      else if text_lt k j
      then (k, v) ∷ (j, w) ∷ m
      else (j, w) ∷ insert_sorted k v m

  pub lookup-insert_sorted :
      (k j : Text) (v : V) (m : Dict V)
      → lookup j (insert_sorted k v m) ≡ (if text_eq k j then some v else lookup j m)
  unfolding lookup insert_sorted
  lookup-insert_sorted k j v [] = refl
  lookup-insert_sorted k j v ((i, w) ∷ m) =
      ground
        (arith, text_eq_iff k j, text_eq_iff i k, text_eq_iff i j, lookup-insert_sorted k j v m)
