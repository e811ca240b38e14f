-- ===== src/Base/Boundaries.antt =====
-- Which texts are UTF-8, and where their characters begin: what the bytes of UTF-8 say of the places
-- at which a string may be cut.
use Prim.Native.Nat.{ℕ, zero, suc, ◌-◌, ◌<◌}
use mathlib.Core.Path.{◌≡◌}
use mathlib.Core.Bool.{Bool, true, false, ◌&&◌}
use mathlib.Core.List.{[], ◌∷◌}
use native.Mathlib.Omega.{arith}
use obsidian_mcp_semantic_me.Base.Tests.{ltb, leb}
use obsidian_mcp_semantic_me.Base.Lists.{take, drop, slice}
use obsidian_mcp_semantic_me.Base.Utf8.{Text, is_continuation}

-- A lead byte of a character with so many bytes.
abbrev pub is_lead2 : ℕ → Bool
is_lead2 b = leb 192 b && ltb b 224

abbrev pub is_lead3 : ℕ → Bool
is_lead3 b = leb 224 b && ltb b 240

abbrev pub is_lead4 : ℕ → Bool
is_lead4 b = leb 240 b && ltb b 248

-- One character after the other, each a lead byte and its continuation bytes. Which code points there
-- are is left open, so every `str` is such a text.
pub data IsUtf8 : Text → Type 0 where
  done : IsUtf8 []
  one : (a : ℕ) (s : Text) → a < 128 → IsUtf8 s → IsUtf8 (a ∷ s)
  two :
      (a b : ℕ) (s : Text)
      → is_lead2 a ≡ true
      → is_continuation b ≡ true
      → IsUtf8 s
      → IsUtf8 (a ∷ b ∷ s)
  three :
      (a b c : ℕ) (s : Text)
      → is_lead3 a ≡ true
      → is_continuation b ≡ true
      → is_continuation c ≡ true
      → IsUtf8 s
      → IsUtf8 (a ∷ b ∷ c ∷ s)
  four :
      (a b c d : ℕ) (s : Text)
      → is_lead4 a ≡ true
      → is_continuation b ≡ true
      → is_continuation c ≡ true
      → is_continuation d ≡ true
      → IsUtf8 s
      → IsUtf8 (a ∷ b ∷ c ∷ d ∷ s)

-- The first byte, if there is one, is no continuation byte.
abbrev pub IsCut : Text → Type 0
IsCut [] = Unit {0}
IsCut (b ∷ s) = is_continuation b ≡ false

-- What a byte says of the bytes after it: a character of one byte ends with it, one of three bytes with
-- the second byte after it, and any with the third.
abbrev pub AfterOne : ℕ → Text → Type 0
AfterOne a s = a < 128 → IsCut s

abbrev pub AfterThree : ℕ → Text → Type 0
AfterThree a (b ∷ c ∷ s) = is_lead3 a ≡ true → IsCut s
AfterThree a _ = Unit {0}

abbrev pub HasCut : Text → Type 0
HasCut (b ∷ c ∷ d ∷ e ∷ s) =
    (is_continuation b && is_continuation c && is_continuation d && is_continuation e) ≡ false
HasCut _ = Unit {0}

-- These hold at every byte. It is so for a part of a text that is UTF-8, wherever it is cut.
pub data IsSpaced : Text → Type 0 where
  ended : IsSpaced []
  next :
      (a : ℕ) (s : Text) → AfterOne a s → AfterThree a s → HasCut s → IsSpaced s → IsSpaced (a ∷ s)

IsUtf8-IsCut : (s : Text) → IsUtf8 s → IsCut s
IsUtf8-IsCut _ done = tt
IsUtf8-IsCut _ (one a s h u) = ground arith
IsUtf8-IsCut _ (two a b s h k u) = ground arith
IsUtf8-IsCut _ (three a b c s h k l u) = ground arith
IsUtf8-IsCut _ (four a b c d s h k l m u) = ground arith

three_off : (a : ℕ) (s : Text) → is_lead3 a ≡ false → AfterThree a s
three_off a [] h = tt
three_off a (b ∷ []) h = tt
three_off a (b ∷ c ∷ s) h = λ e. absurd (ground arith)

-- A start of a character is among the four bytes from a place up to three bytes before one.
cut0 : (s : Text) → IsCut s → HasCut s
cut0 [] h = tt
cut0 (b ∷ []) h = tt
cut0 (b ∷ c ∷ []) h = tt
cut0 (b ∷ c ∷ d ∷ []) h = tt
cut0 (b ∷ c ∷ d ∷ e ∷ s) h = ground arith

cut1 : (b : ℕ) (s : Text) → IsCut s → HasCut (b ∷ s)
cut1 b [] h = tt
cut1 b (c ∷ []) h = tt
cut1 b (c ∷ d ∷ []) h = tt
cut1 b (c ∷ d ∷ e ∷ s) h = ground arith

cut2 : (b c : ℕ) (s : Text) → IsCut s → HasCut (b ∷ c ∷ s)
cut2 b c [] h = tt
cut2 b c (d ∷ []) h = tt
cut2 b c (d ∷ e ∷ s) h = ground arith

cut3 : (b c d : ℕ) (s : Text) → IsCut s → HasCut (b ∷ c ∷ d ∷ s)
cut3 b c d [] h = tt
cut3 b c d (e ∷ s) h = ground arith

continued : (b : ℕ) (s : Text) → is_continuation b ≡ true → HasCut s → IsSpaced s → IsSpaced (b ∷ s)
continued b s h r k = next b s (λ e. absurd (ground arith)) (three_off b s (ground arith)) r k

pub IsUtf8-IsSpaced : (s : Text) → IsUtf8 s → IsSpaced s
IsUtf8-IsSpaced _ done = ended
IsUtf8-IsSpaced _ (one a s h u) =
    let cut = IsUtf8-IsCut s u in
    next a s (λ _. cut) (three_off a s (ground arith)) (cut0 s cut) (IsUtf8-IsSpaced s u)
IsUtf8-IsSpaced _ (two a b s h k u) =
    let cut = IsUtf8-IsCut s u in
    next a (b ∷ s) (λ e. absurd (ground arith)) (three_off a (b ∷ s) (ground arith)) (cut1 b s cut)
      (continued b s k (cut0 s cut) (IsUtf8-IsSpaced s u))
IsUtf8-IsSpaced _ (three a b c s h k l u) =
    let cut = IsUtf8-IsCut s u in
    next a (b ∷ c ∷ s) (λ e. absurd (ground arith)) (λ _. cut) (cut2 b c s cut)
      (continued b (c ∷ s) k (cut1 c s cut) (continued c s l (cut0 s cut) (IsUtf8-IsSpaced s u)))
IsUtf8-IsSpaced _ (four a b c d s h k l m u) =
    let cut = IsUtf8-IsCut s u in
    next a (b ∷ c ∷ d ∷ s) (λ e. absurd (ground arith)) (three_off a (b ∷ c ∷ d ∷ s) (ground arith))
      (cut3 b c d s cut)
      (continued b (c ∷ d ∷ s) k (cut2 c d s cut)
        (continued c (d ∷ s) l (cut1 d s cut) (continued d s m (cut0 s cut) (IsUtf8-IsSpaced s u))))

pub IsSpaced-drop : (n : ℕ) (s : Text) → IsSpaced s → IsSpaced (drop n s)
IsSpaced-drop zero s h = h
IsSpaced-drop (suc n) _ ended = ended
IsSpaced-drop (suc n) _ (next a s p q r h) = IsSpaced-drop n s h

IsCut-take : (n : ℕ) (s : Text) → IsCut s → IsCut (take n s)
IsCut-take zero s h = tt
IsCut-take (suc n) [] h = tt
IsCut-take (suc n) (b ∷ s) h = h

AfterThree-take : (n : ℕ) (a : ℕ) (s : Text) → AfterThree a s → AfterThree a (take n s)
AfterThree-take zero a s h = tt
AfterThree-take (suc n) a [] h = tt
AfterThree-take (suc zero) a (b ∷ s) h = tt
AfterThree-take (suc (suc n)) a (b ∷ []) h = tt
AfterThree-take (suc (suc n)) a (b ∷ c ∷ s) h = λ e. IsCut-take n s (h e)

HasCut-take : (n : ℕ) (s : Text) → HasCut s → HasCut (take n s)
HasCut-take zero s h = tt
HasCut-take (suc n) [] h = tt
HasCut-take (suc zero) (b ∷ s) h = tt
HasCut-take (suc (suc n)) (b ∷ []) h = tt
HasCut-take (suc (suc zero)) (b ∷ c ∷ s) h = tt
HasCut-take (suc (suc (suc n))) (b ∷ c ∷ []) h = tt
HasCut-take (suc (suc (suc zero))) (b ∷ c ∷ d ∷ s) h = tt
HasCut-take (suc (suc (suc (suc n)))) (b ∷ c ∷ d ∷ []) h = tt
HasCut-take (suc (suc (suc (suc n)))) (b ∷ c ∷ d ∷ e ∷ s) h = h

IsSpaced-take : (n : ℕ) (s : Text) → IsSpaced s → IsSpaced (take n s)
IsSpaced-take zero s h = ended
IsSpaced-take (suc n) _ ended = ended
IsSpaced-take (suc n) _ (next a s p q r h) =
    next a (take n s) (λ e. IsCut-take n s (p e)) (AfterThree-take n a s q) (HasCut-take n s r)
      (IsSpaced-take n s h)

pub IsSpaced-slice : (s : Text) (a e : ℕ) → IsSpaced s → IsSpaced (slice s a e)
IsSpaced-slice s a e h = IsSpaced-take (e - a) (drop a s) (IsSpaced-drop a s h)
