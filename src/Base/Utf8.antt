-- ===== src/Base/Utf8.antt =====
-- Rust's `&str` as the list of its UTF-8 bytes, with the functions of the standard library that
-- the sources call. A byte index is an index into the list.
mod Search
unfoldable pub use Search.*
use Prim.Native.Char.{code}
use Prim.Native.String.{String}
use Prim.Native.Nat.{ℕ, zero, suc, ◌+◌, ◌-◌, ◌≤◌}
use mathlib.Core.Path.{◌≡◌, refl}
use mathlib.Core.Logic.{◌↔◌}
use mathlib.Core.Bool.{Bool, true, false, not, ◌&&◌, ◌||◌}
use mathlib.Core.Option.{Option, none, some}
use mathlib.Core.List.{List, [], ◌∷◌, ◌++◌, reverse}
use native.Mathlib.Omega.{arith}
use obsidian_mcp_semantic_me.Base.Tests.{ltb, leb, ◌==◌, if◌then◌else◌}
use obsidian_mcp_semantic_me.Base.Lists.{length, get_elem?, length-reverse}

abbrev pub Text : Type 0
Text = List ℕ

-- An ASCII literal.
abbrev pub bytes : String → Text
bytes String.[] = []
bytes (String.◌∷◌ c s) = code c ∷ bytes s

unfoldable pub text_eq : Text → Text → Bool
text_eq [] [] = true
text_eq [] (b ∷ t) = false
text_eq (a ∷ s) [] = false
text_eq (a ∷ s) (b ∷ t) = a == b && text_eq s t

pub text_eq_iff : (s t : Text) → (text_eq s t ≡ true) ↔ (s ≡ t)
unfolding text_eq
text_eq_iff [] [] = ground arith
text_eq_iff [] (b ∷ t) = ground arith
text_eq_iff (a ∷ s) [] = ground arith
text_eq_iff (a ∷ s) (b ∷ t) = ground (arith, text_eq_iff s t)

pub text_eq_refl : (s : Text) → text_eq s s ≡ true
text_eq_refl s = (text_eq_iff s s).1 refl

-- `is_char_boundary`: not in the middle of a UTF-8 sequence.
abbrev pub is_continuation : ℕ → Bool
is_continuation b = leb 128 b && ltb b 192

abbrev starts_char : Option ℕ → Bool
starts_char none = false
starts_char (some b) = not (is_continuation b)

unfoldable pub is_char_boundary : Text → ℕ → Bool
is_char_boundary s zero = true
is_char_boundary s (suc i) = suc i == length s || starts_char (get_elem? s (suc i))

-- `char::is_whitespace` on a character of one, two or three bytes.
abbrev is_ws1 : ℕ → Bool
is_ws1 a = (leb 9 a && leb a 13) || a == 32

abbrev is_ws2 : ℕ → ℕ → Bool
is_ws2 a b = a == 0xc2 && (b == 0x85 || b == 0xa0)

abbrev is_ws3 : ℕ → ℕ → ℕ → Bool
is_ws3 a b c =
    (a == 0xe1 && b == 0x9a && c == 0x80)
    || (a == 0xe2 && b == 0x80 && (leb 0x80 c && leb c 0x8a || c == 0xa8 || c == 0xa9 || c == 0xaf))
    || (a == 0xe2 && b == 0x81 && c == 0x9f)
    || (a == 0xe3 && b == 0x80 && c == 0x80)

unfoldable pub starts_with_whitespace : Text → Bool
starts_with_whitespace [] = false
starts_with_whitespace (a ∷ []) = is_ws1 a
starts_with_whitespace (a ∷ b ∷ []) = is_ws1 a || is_ws2 a b
starts_with_whitespace (a ∷ b ∷ c ∷ s) = is_ws1 a || is_ws2 a b || is_ws3 a b c

unfoldable pub trim_start : Text → Text
trim_start [] = []
trim_start (a ∷ []) = if is_ws1 a then [] else a ∷ []
trim_start (a ∷ b ∷ []) =
    if is_ws1 a then trim_start (b ∷ []) else if is_ws2 a b then [] else a ∷ b ∷ []
trim_start (a ∷ b ∷ c ∷ s) =
    let one = trim_start (b ∷ c ∷ s) in
    let two = trim_start (c ∷ s) in
    let three = trim_start s in
    if is_ws1 a
    then one
    else if is_ws2 a b
    then two
    else if is_ws3 a b c
    then three
    else a ∷ b ∷ c ∷ s

-- The same walk over the bytes from the end.
trim_reversed : Text → Text
trim_reversed [] = []
trim_reversed (c ∷ []) = if is_ws1 c then [] else c ∷ []
trim_reversed (c ∷ b ∷ []) =
    if is_ws1 c then trim_reversed (b ∷ []) else if is_ws2 b c then [] else c ∷ b ∷ []
trim_reversed (c ∷ b ∷ a ∷ s) =
    let one = trim_reversed (b ∷ a ∷ s) in
    let two = trim_reversed (a ∷ s) in
    let three = trim_reversed s in
    if is_ws1 c
    then one
    else if is_ws2 b c
    then two
    else if is_ws3 a b c
    then three
    else c ∷ b ∷ a ∷ s

unfoldable pub trim_end : Text → Text
unfolding trim_reversed
trim_end s = reverse (trim_reversed (reverse s))

unfoldable pub trim : Text → Text
unfolding trim_start trim_end
trim s = trim_end (trim_start s)

-- `trim_end_matches(b)`
trim_byte : ℕ → Text → Text
trim_byte n [] = []
trim_byte n (b ∷ s) = if b == n then trim_byte n s else b ∷ s

unfoldable pub trim_end_matches : ℕ → Text → Text
unfolding trim_byte
trim_end_matches n s = reverse (trim_byte n (reverse s))

length-trim_start : (s : Text) → length (trim_start s) ≤ length s
unfolding trim_start
length-trim_start [] = omega arith
length-trim_start (a ∷ []) = ground arith
length-trim_start (a ∷ b ∷ []) = ground (arith, length-trim_start (b ∷ []))
length-trim_start (a ∷ b ∷ c ∷ s) =
    ground (arith, length-trim_start (b ∷ c ∷ s), length-trim_start (c ∷ s), length-trim_start s)

length-trim_reversed : (s : Text) → length (trim_reversed s) ≤ length s
unfolding trim_reversed
length-trim_reversed [] = omega arith
length-trim_reversed (c ∷ []) = ground arith
length-trim_reversed (c ∷ b ∷ []) = ground (arith, length-trim_reversed (b ∷ []))
length-trim_reversed (c ∷ b ∷ a ∷ s) =
    ground (
      arith,
      length-trim_reversed (b ∷ a ∷ s),
      length-trim_reversed (a ∷ s),
      length-trim_reversed s,
    )

pub length-trim : (s : Text) → length (trim s) ≤ length s
unfolding trim
length-trim s = omega (
  arith,
  length-reverse (trim_reversed (reverse (trim_start s))),
  length-trim_reversed (reverse (trim_start s)),
  length-reverse (trim_start s),
  length-trim_start s,
)
