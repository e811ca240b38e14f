-- ===== src/Base/Lists.antt =====
-- Lists measured and cut by native numbers, Boolean searches in them, and predicates by recursion.
use Prim.Native.Nat.{◌<◌, ◌<◌, ℕ, zero, suc, ◌+◌, ◌-◌, ◌≤◌, min}
use mathlib.Core.Path.{subst, ◌≡◌, refl, ap, ◌∙◌}
use mathlib.Core.Logic.{◌⊎◌, inl, inr}
use mathlib.Core.Bool.{Bool, false, ◌||◌}
use mathlib.Core.List.{List, [], ◌∷◌, ◌++◌, reverse, reverse_aux}
use mathlib.Core.Option.{Option, none, some}
use native.Mathlib.Omega.{arith}
use obsidian_mcp_semantic_me.Base.Tests.{if◌then◌else◌}

module _ {ℓ} {A : Type ℓ} where
  abbrev pub length : List A → ℕ
  length [] = 0
  length (x ∷ xs) = suc (length xs)

  abbrev pub get_elem? : List A → ℕ → Option A
  get_elem? [] i = none
  get_elem? (x ∷ xs) zero = some x
  get_elem? (x ∷ xs) (suc i) = get_elem? xs i

  abbrev pub take : ℕ → List A → List A
  take zero xs = []
  take (suc n) [] = []
  take (suc n) (x ∷ xs) = x ∷ take n xs

  abbrev pub drop : ℕ → List A → List A
  drop zero xs = xs
  drop (suc n) [] = []
  drop (suc n) (x ∷ xs) = drop n xs

  abbrev pub any : (A → Bool) → List A → Bool
  any p [] = false
  any p (x ∷ xs) = p x || any p xs

  -- `iter().filter(p)`
  abbrev pub keep : (A → Bool) → List A → List A
  keep p [] = []
  keep p (x ∷ xs) = if p x then x ∷ keep p xs else keep p xs

  pub length-append : (xs ys : List A) → length (xs ++ ys) ≡ length xs + length ys
  length-append [] ys = omega arith
  length-append (x ∷ xs) ys = omega (arith, length-append xs ys)

  pub length-take : (n : ℕ) (xs : List A) → length (take n xs) ≡ min n (length xs)
  length-take zero xs = omega arith
  length-take (suc n) [] = omega arith
  length-take (suc n) (x ∷ xs) = omega (arith, length-take n xs)

  pub length-drop : (n : ℕ) (xs : List A) → length (drop n xs) ≡ length xs - n
  length-drop zero xs = omega arith
  length-drop (suc n) [] = omega arith
  length-drop (suc n) (x ∷ xs) = omega (arith, length-drop n xs)

  pub take-nil : (n : ℕ) → take n [] ≡ []
  take-nil zero = refl
  take-nil (suc n) = refl

  pub take-append-drop : (n : ℕ) (xs : List A) → take n xs ++ drop n xs ≡ xs
  take-append-drop zero xs = refl
  take-append-drop (suc n) [] = refl
  take-append-drop (suc n) (x ∷ xs) = ap (λ l. x ∷ l) (take-append-drop n xs)

  length-reverse_aux : (xs ys : List A) → length (reverse_aux xs ys) ≡ length xs + length ys
  length-reverse_aux [] ys = omega arith
  length-reverse_aux (x ∷ xs) ys = omega (arith, length-reverse_aux xs (x ∷ ys))

  pub length-reverse : (xs : List A) → length (reverse xs) ≡ length xs
  length-reverse xs = omega (arith, length-reverse_aux xs [])

-- `&s[start..end]`, for `start ≤ end ≤ s.len()`.
abbrev pub slice {ℓ} : {A : Type ℓ} → List A → ℕ → ℕ → List A
slice xs start end = take (end - start) (drop start xs)

module _ {ℓ κ} {A : Type ℓ} (P : A → Type κ) where
  abbrev pub All : List A → Type κ
  All [] = Unit
  All (x ∷ xs) = P x × All xs

  pub All-append : (xs ys : List A) → All xs → All ys → All (xs ++ ys)
  All-append [] ys h k = k
  All-append (x ∷ xs) ys (p, h) k = (p, All-append xs ys h k)

-- "There is an element with `P`", with the place kept.
abbrev pub Any {ℓ} : {A : Type ℓ} → (A → Type 0) → List A → Type 0
Any P [] = ⊥
Any P (x ∷ xs) = P x ⊎ Any P xs

module _ {ℓ} {A : Type ℓ} (P : A → Type 0) where
  pub Any-append_left : (xs ys : List A) → Any P xs → Any P (xs ++ ys)
  Any-append_left [] ys h = elim h [ ]
  Any-append_left (x ∷ xs) ys (inl p) = inl p
  Any-append_left (x ∷ xs) ys (inr h) = inr (Any-append_left xs ys h)

  pub Any-append_right : (xs ys : List A) → Any P ys → Any P (xs ++ ys)
  Any-append_right [] ys h = h
  Any-append_right (x ∷ xs) ys h = inr (Any-append_right xs ys h)

-- A slice and what follows it make up the rest of the list.
pub slice-append-drop {ℓ} :
    {A : Type ℓ} (a e : ℕ) (xs : List A) → a ≤ e → slice xs a e ++ drop e xs ≡ drop a xs
slice-append-drop zero e xs h =
    let same : e - 0 ≡ e = omega arith in rw same (take-append-drop e xs)
slice-append-drop (suc a) zero xs h = absurd (omega arith)
slice-append-drop (suc a) (suc e) [] h = rw take-nil
slice-append-drop (suc a) (suc e) (x ∷ xs) h =
    let same : suc e - suc a ≡ e - a = omega arith in
    rw same (slice-append-drop a e xs (omega arith))

module _ {ℓ} {A : Type ℓ} where
  drop-nil : (n : ℕ) → drop {A = A} n [] ≡ []
  drop-nil zero = refl
  drop-nil (suc n) = refl

  pub drop-drop : (n m : ℕ) (xs : List A) → drop n (drop m xs) ≡ drop (m + n) xs
  drop-drop n zero xs = let same : 0 + n ≡ n = omega arith in rw same
  drop-drop n (suc m) [] = rw (drop-nil n, drop-nil (suc m + n))
  drop-drop n (suc m) (x ∷ xs) =
      let same : suc m + n ≡ suc (m + n) = omega arith in rw same (drop-drop n m xs)

  take-take : (w n : ℕ) (xs : List A) → w ≤ n → take w (take n xs) ≡ take w xs
  take-take zero n xs h = refl
  take-take (suc w) zero xs h = absurd (omega arith)
  take-take (suc w) (suc n) [] h = refl
  take-take (suc w) (suc n) (x ∷ xs) h = ap (λ l. x ∷ l) (take-take w n xs (omega arith))

  -- A window into a prefix is a window into the list.
  pub take-drop-take :
      (w c n : ℕ) (xs : List A) → c + w ≤ n → take w (drop c (take n xs)) ≡ take w (drop c xs)
  take-drop-take w zero n xs h = take-take w n xs (omega arith)
  take-drop-take w (suc c) zero xs h = absurd (omega arith)
  take-drop-take w (suc c) (suc n) [] h = refl
  take-drop-take w (suc c) (suc n) (x ∷ xs) h = take-drop-take w c n xs (omega arith)

  -- A window into a slice is a window into the list.
  pub take-drop-slice :
      (w c start end : ℕ) (xs : List A)
      → start + (c + w) ≤ end
      → take w (drop c (slice xs start end)) ≡ take w (drop (start + c) xs)
  take-drop-slice w c start end xs h =
      take-drop-take w c (end - start) (drop start xs) (omega arith)
      ∙ ap (take w) (drop-drop c start xs)

  pub length-slice :
      (xs : List A) (start end : ℕ)
      → start ≤ end
      → end ≤ length xs
      → length (slice xs start end) ≡ end - start
  length-slice xs start end h k =
      omega (arith, length-take (end - start) (drop start xs), length-drop start xs)

pub List-cases {ℓ} :
    {A : Type ℓ} (xs : List A) → (xs ≡ []) ⊎ ((x : A) × (ys : List A) × (xs ≡ x ∷ ys))
List-cases [] = inl refl
List-cases (x ∷ ys) = inr (x, ys, refl)

module _ {ℓ} {A : Type ℓ} where
  pub take-length-append : (xs ys : List A) → take (length xs) (xs ++ ys) ≡ xs
  take-length-append [] ys = refl
  take-length-append (x ∷ xs) ys = ground (arith, take-length-append xs ys)

  pub drop-length-append : (xs ys : List A) (n : ℕ) → drop (length xs + n) (xs ++ ys) ≡ drop n ys
  drop-length-append [] ys n = let same : 0 + n ≡ n = omega arith in rw same
  drop-length-append (x ∷ xs) ys n =
      let same : suc (length xs) + n ≡ suc (length xs + n) = omega arith in
      rw same (drop-length-append xs ys n)

  pub drop-length : (xs ys : List A) → drop (length xs) (xs ++ ys) ≡ ys
  drop-length [] ys = refl
  drop-length (x ∷ xs) ys = drop-length xs ys

module _ {κ} {A : Type 0} (P : A → Type κ) where
  pub All-Any : (xs : List A) (a : A) → All P xs → Any (λ x. x ≡ a) xs → P a
  All-Any [] a all h = absurd h
  All-Any (x ∷ xs) a (p, all) (inl same) = subst P same p
  All-Any (x ∷ xs) a (p, all) (inr h) = All-Any xs a all h

pub get_elem?-some {ℓ} :
    {A : Type ℓ} (xs : List A) (i : ℕ) → i < length xs → (a : A) × (get_elem? xs i ≡ some a)
get_elem?-some [] i h = absurd (omega arith)
get_elem?-some (x ∷ xs) zero h = (x, refl)
get_elem?-some (x ∷ xs) (suc i) h = get_elem?-some xs i (omega arith)
