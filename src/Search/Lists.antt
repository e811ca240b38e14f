-- ===== src/Search/Lists.antt =====
-- Lists of hits, kept, changed, sorted and cut as the searches of src/vault/mod.rs do.
use obsidian_mcp_semantic_me.Base.{
  ℕ, zero, suc, ◌≤◌, ◌≡◌, refl, inl, inr, Bool, true, ◌&&◌, List, [], ◌∷◌, map, arith, take, keep,
  length, length-take, All, Text, text_eq, text_eq_iff, member, Dict, insert, lookup, contains_key,
  Bool-cases,
}
use obsidian_mcp_semantic_me.Runtime.State.{keys_of}
use obsidian_mcp_semantic_me.Search.{insert_by, sort_by}

module _ {A : Type 0} (P : A → Type 0) where
  pub All-take : (n : ℕ) (xs : List A) → All P xs → All P (take n xs)
  All-take zero xs h = tt
  All-take (suc n) [] h = tt
  All-take (suc n) (x ∷ xs) (p, h) = (p, All-take n xs h)

  pub All-keep : (test : A → Bool) (xs : List A) → All P xs → All P (keep test xs)
  All-keep test [] h = tt
  All-keep test (x ∷ xs) (p, h) = elim (Bool-cases (test x)) [
    | inl e ↦ rw e (p, All-keep test xs h)
    | inr e ↦ rw e (All-keep test xs h)
  ]

  pub insert_by-All :
      (before : A → A → Bool) (x : A) (xs : List A) → P x → All P xs → All P (insert_by before x xs)
  unfolding insert_by
  insert_by-All before x [] p h = (p, tt)
  insert_by-All before x (y ∷ ys) p (q, h) = elim (Bool-cases (before y x)) [
    | inl e ↦ rw e (q, insert_by-All before x ys p h)
    | inr e ↦ rw e (p, (q, h))
  ]

  pub sort_by-All : (before : A → A → Bool) (xs : List A) → All P xs → All P (sort_by before xs)
  unfolding sort_by
  sort_by-All before [] h = tt
  sort_by-All before (x ∷ xs) (p, h) =
      insert_by-All before x (sort_by before xs) p (sort_by-All before xs h)

module _ {A B : Type 0} (P : A → Type 0) (Q : B → Type 0) (f : A → B) where
  pub All-map : ((x : A) → P x → Q (f x)) → (xs : List A) → All P xs → All Q (map f xs)
  All-map g [] h = tt
  All-map g (x ∷ xs) (p, h) = (g x p, All-map g xs h)

pub length-map : {A B : Type 0} (f : A → B) (xs : List A) → length (map f xs) ≡ length xs
length-map f [] = refl
length-map f (x ∷ xs) = rw (length-map f xs) refl

pub length-take_le : {A : Type 0} (n : ℕ) (xs : List A) → length (take n xs) ≤ n
length-take_le n xs = rw (length-take n xs) (omega arith)

pub keep-All :
    {A : Type 0} (test : A → Bool) (xs : List A) → All (λ x. test x ≡ true) (keep test xs)
keep-All test [] = tt
keep-All test (x ∷ xs) = elim (Bool-cases (test x)) [
  | inl e ↦ rw e (e, keep-All test xs)
  | inr e ↦ rw e (keep-All test xs)
]

pub member-keep :
    (test : Text → Bool) (p : Text) (xs : List Text)
    → member p (keep test xs) ≡ (test p && member p xs)
unfolding member
member-keep test p [] = ground arith
member-keep test p (x ∷ xs) =
    ground (arith, text_eq_iff x p, Bool-cases (test x), Bool-cases (test p), member-keep test p xs)

pub member-keys_of : {V : Type 0} (p : Text) (m : Dict V) → member p (keys_of m) ≡ contains_key p m
unfolding member lookup
member-keys_of p [] = refl
member-keys_of p ((k, v) ∷ m) = ground (arith, member-keys_of p m)

pub insert-All :
    {V : Type 0} (P : Text → Type 0) (k : Text) (v : V) (m : Dict V)
    → P k
    → All (λ e. P e.0) m
    → All (λ e. P e.0) (insert k v m)
unfolding insert
insert-All P k v [] p h = (p, tt)
insert-All P k v ((j, w) ∷ m) p (q, h) = elim (Bool-cases (text_eq j k)) [
  | inl e ↦ rw e (q, h)
  | inr e ↦ rw e (q, insert-All P k v m p h)
]
