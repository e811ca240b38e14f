-- ===== src/Base/Decimal.antt =====
-- `to_string` and `parse` of a machine integer.
use Prim.Native.Nat.{ℕ, zero, suc, ◌+◌, ◌-◌, ◌*◌, ◌/◌, ◌%◌, ◌^◌, ◌≤◌, ◌<◌}
use mathlib.Core.Path.{◌≡◌, refl}
use mathlib.Core.Logic.{inl, inr}
use mathlib.Core.Bool.{false, ◌&&◌}
use mathlib.Core.Option.{Option, none, some}
use mathlib.Core.List.{[], ◌∷◌, ◌++◌}
use native.Mathlib.Omega.{arith}
use obsidian_mcp_semantic_me.Base.Tests.{Bool-cases, ltb, leb, ◌==◌, if◌then◌else◌}
use obsidian_mcp_semantic_me.Base.Utf8.{has_byte-append, Text, has_byte}

digits : ℕ → ℕ → Text
digits zero n = []
digits (suc fuel) n =
    let high = digits fuel (n / 10) in
    if ltb n 10 then (48 + n) ∷ [] else high ++ (48 + n % 10) ∷ []

-- `n.to_string()`
unfoldable pub to_decimal : ℕ → Text
unfolding digits
to_decimal n = digits (suc n) n

-- The value of the digits, on the value `n` of those before.
parse_digits : ℕ → Text → Option ℕ
parse_digits n [] = some n
parse_digits n (b ∷ s) = if leb 48 b && leb b 57 then parse_digits (n * 10 + (b - 48)) s else none

abbrev in_usize : Option ℕ → Option ℕ
in_usize none = none
in_usize (some n) = if ltb n (2 ^ 64) then some n else none

-- `s.parse::<usize>().ok()`: a sign is allowed, and there is a digit.
unfoldable pub parse_usize : Text → Option ℕ
unfolding parse_digits
parse_usize [] = none
parse_usize (b ∷ []) = in_usize (parse_digits 0 (b ∷ []))
parse_usize (b ∷ c ∷ s) =
    if b == b'+' then in_usize (parse_digits 0 (c ∷ s)) else in_usize (parse_digits 0 (b ∷ c ∷ s))

parse_digits-append :
    (n : ℕ) (s : Text) (d : ℕ) {v : ℕ}
    → d < 10
    → parse_digits n s ≡ some v
    → parse_digits n (s ++ (48 + d) ∷ []) ≡ some (v * 10 + d)
unfolding parse_digits
parse_digits-append n [] d {v} h e = ground arith
parse_digits-append n (b ∷ s) d {v} h e =
    let under : parse_digits (n * 10 + (b - 48)) s ≡ some v = ground arith in
    let later = parse_digits-append (n * 10 + (b - 48)) s d h under in ground arith

parse_digits-digits : (fuel n : ℕ) → n < fuel → parse_digits 0 (digits fuel n) ≡ some n
unfolding digits parse_digits
parse_digits-digits zero n h = absurd (omega arith)
parse_digits-digits (suc fuel) n h = elim (Bool-cases (ltb n 10)) [
  | inl e ↦ ground arith
  | inr e ↦
      let big : 10 ≤ n = ground arith in
      let high = parse_digits-digits fuel (n / 10) (omega arith) in
      let next = parse_digits-append 0 (digits fuel (n / 10)) (n % 10) (omega arith) high in
      let same : n / 10 * 10 + n % 10 ≡ n = omega arith in ground arith
]

-- The text of a number has a digit, and neither a sign nor a byte 0 in it.
digits-has_byte : (fuel n k : ℕ) → k < 48 → has_byte k (digits fuel n) ≡ false
unfolding digits has_byte
digits-has_byte zero n k h = refl
digits-has_byte (suc fuel) n k h = ground (
  arith,
  digits-has_byte fuel (n / 10) k h,
  has_byte-append k (digits fuel (n / 10)) ((48 + n % 10) ∷ []),
)

pub to_decimal-has_byte : (n k : ℕ) → k < 48 → has_byte k (to_decimal n) ≡ false
unfolding to_decimal
to_decimal-has_byte n k h = digits-has_byte (suc n) n k h

parse_usize-digits :
    (s : Text) (n : ℕ)
    → parse_digits 0 s ≡ some n
    → has_byte b'+' s ≡ false
    → ¬ (s ≡ [])
    → n < 2 ^ 64
    → parse_usize s ≡ some n
unfolding parse_usize has_byte
parse_usize-digits [] n e plus some_digit small = absurd (some_digit refl)
parse_usize-digits (b ∷ []) n e plus some_digit small = rw e (ground arith)
parse_usize-digits (b ∷ c ∷ s) n e plus some_digit small = rw e (ground arith)

append-snoc : (s : Text) (b : ℕ) → ¬ (s ++ b ∷ [] ≡ [])
append-snoc [] b h = ground arith
append-snoc (c ∷ s) b h = ground arith

digits-nonempty : (fuel n : ℕ) → ¬ (digits (suc fuel) n ≡ [])
unfolding digits
digits-nonempty fuel n h = ground (arith, append-snoc (digits fuel (n / 10)) (48 + n % 10))

-- What is printed is read again.
pub parse_usize-to_decimal : (n : ℕ) → n < 2 ^ 64 → parse_usize (to_decimal n) ≡ some n
unfolding to_decimal
parse_usize-to_decimal n h =
    parse_usize-digits (digits (suc n) n) n (parse_digits-digits (suc n) n (omega arith))
      (digits-has_byte (suc n) n b'+' (omega arith)) (digits-nonempty n n) h

-- A letter is no number.
pub parse_usize-letter : (b : ℕ) → 57 < b → parse_usize (b ∷ []) ≡ none
unfolding parse_usize parse_digits
parse_usize-letter b h = ground arith
