-- ===== src/Base/Cuts.antt =====
-- `str::is_char_boundary`, in terms of what is left behind a place, and where what `str::rfind` finds ends.
use Prim.Native.Nat.{ℕ, zero, suc, ◌+◌, ◌≤◌, ◌<◌}
use mathlib.Core.Path.{◌≡◌, refl}
use mathlib.Core.Logic.{inl, inr}
use mathlib.Core.Bool.{true}
use mathlib.Core.Option.{some}
use mathlib.Core.List.{[], ◌∷◌}
use native.Mathlib.Omega.{arith}
use obsidian_mcp_semantic_me.Base.Tests.{Bool-cases, Option-cases}
use obsidian_mcp_semantic_me.Base.Lists.{length, take, drop}
use obsidian_mcp_semantic_me.Base.Utf8.{Text, is_char_boundary, starts_with, rfind}
use obsidian_mcp_semantic_me.Base.Boundaries.{is_lead3, IsCut, IsSpaced, ended, next}

pub boundary-IsCut :
    (n : ℕ) (s : Text) → n ≤ length s → IsCut (drop n s) → is_char_boundary s n ≡ true
unfolding is_char_boundary
boundary-IsCut zero s h c = refl
boundary-IsCut (suc n) [] h c = absurd (omega arith)
boundary-IsCut (suc zero) (a ∷ []) h c = ground arith
boundary-IsCut (suc zero) (a ∷ b ∷ s) h c = ground arith
boundary-IsCut (suc (suc n)) (a ∷ s) h c = ground (arith, boundary-IsCut (suc n) s)

-- A boundary of what is left is one of the whole.
boundary-suc :
    (a : ℕ) (s : Text) (n : ℕ)
    → 0 < n
    → is_char_boundary s n ≡ true
    → is_char_boundary (a ∷ s) (suc n) ≡ true
unfolding is_char_boundary
boundary-suc a s zero h k = absurd (omega arith)
boundary-suc a s (suc n) h k = ground arith

pub boundary-drop :
    (c n : ℕ) (s : Text)
    → 0 < n
    → c ≤ length s
    → is_char_boundary (drop c s) n ≡ true
    → is_char_boundary s (c + n) ≡ true
boundary-drop zero n s h le k = let same : 0 + n ≡ n = omega arith in rw same k
boundary-drop (suc c) n [] h le k = absurd (omega arith)
boundary-drop (suc c) n (a ∷ s) h le k =
    let same : suc c + n ≡ suc (c + n) = omega arith in
    rw same (boundary-suc a s (c + n) (omega arith) (boundary-drop c n s h (omega arith) k))

starts_with-taken :
    (pat : Text) (c : ℕ) (s : Text) → starts_with pat (take c s) ≡ true → starts_with pat s ≡ true
unfolding starts_with
starts_with-taken [] c s h = refl
starts_with-taken (p ∷ pat) zero s h = absurd (ground arith)
starts_with-taken (p ∷ pat) (suc c) [] h = absurd (ground arith)
starts_with-taken (p ∷ pat) (suc c) (b ∷ s) h = ground (arith, starts_with-taken pat c s)

-- An occurrence in the first bytes of a text is one in the text.
pub starts_with-take :
    (pat : Text) (c n : ℕ) (s : Text)
    → starts_with pat (drop n (take c s)) ≡ true
    → starts_with pat (drop n s) ≡ true
unfolding starts_with
starts_with-take pat c zero s h = starts_with-taken pat c s h
starts_with-take [] c (suc n) s h = refl
starts_with-take (p ∷ pat) zero (suc n) s h = absurd (ground arith)
starts_with-take (p ∷ pat) (suc c) (suc n) [] h = absurd (ground arith)
starts_with-take (p ∷ pat) (suc c) (suc n) (b ∷ s) h = starts_with-take (p ∷ pat) c n s h

pub rfind-starts_with :
    (pat s : Text) (p : ℕ) → rfind pat s ≡ some p → starts_with pat (drop p s) ≡ true
unfolding rfind
rfind-starts_with pat [] p h = absurd (ground arith)
rfind-starts_with pat (b ∷ s) p h = elim (Option-cases (rfind pat s)) [
  | inl e ↦ elim (Bool-cases (starts_with pat (b ∷ s))) [
    | inl f ↦ let same : p ≡ 0 = ground arith in rw same f
    | inr f ↦ absurd (ground arith)
  ]
  | inr (i, e) ↦ let same : p ≡ suc i = ground arith in rw same (rfind-starts_with pat s i e)
]

-- What ends in a byte of ASCII, or in a character of three bytes, ends at a boundary.
abbrev pub Closes : Text → Type 0
Closes pat = (s : Text) → IsSpaced s → starts_with pat s ≡ true → IsCut (drop (length pat) s)

pub ascii1-Closes : (a : ℕ) → a < 128 → Closes (a ∷ [])
unfolding starts_with
ascii1-Closes a small _ ended h = tt
ascii1-Closes a small _ (next b s p q r k) h = p (ground arith)

pub ascii2-Closes : (a b : ℕ) → b < 128 → Closes (a ∷ b ∷ [])
unfolding starts_with
ascii2-Closes a b small _ ended h = tt
ascii2-Closes a b small _ (next c _ p q r ended) h = tt
ascii2-Closes a b small _ (next c _ p q r (next d s p2 q2 r2 k)) h = p2 (ground arith)

pub char3-Closes : (a b c : ℕ) → is_lead3 a ≡ true → Closes (a ∷ b ∷ c ∷ [])
unfolding starts_with
char3-Closes a b c lead _ ended h = tt
char3-Closes a b c lead _ (next x [] p q r k) h = tt
char3-Closes a b c lead _ (next x (y ∷ []) p q r k) h = tt
char3-Closes a b c lead _ (next x (y ∷ z ∷ s) p q r k) h = q (ground arith)

pub length-boundary : (s : Text) → is_char_boundary s (length s) ≡ true
unfolding is_char_boundary
length-boundary [] = refl
length-boundary (b ∷ s) = ground arith
