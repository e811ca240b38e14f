-- ===== src/Base/Utf8/Search.antt =====
-- Prefixes, substrings, lines and splitting of texts.
use Prim.Native.Nat.{ℕ, suc, zero, ◌+◌, ◌-◌, ◌≤◌}
use mathlib.Core.Path.{◌≡◌, refl}
use mathlib.Core.Logic.{inl, inr}
use mathlib.Core.Bool.{◌||◌, Bool, true, false, ◌&&◌}
use mathlib.Core.Option.{Option, none, some}
use mathlib.Core.List.{List, [], ◌∷◌, ◌++◌, reverse}
use native.Mathlib.Omega.{arith}
use obsidian_mcp_semantic_me.Base.Tests.{Bool-cases, ◌==◌, if◌then◌else◌, Option-cases}
use obsidian_mcp_semantic_me.Base.Lists.{length}

abbrev pub is_empty : List ℕ → Bool
is_empty [] = true
is_empty (b ∷ s) = false

unfoldable pub starts_with : List ℕ → List ℕ → Bool
starts_with [] s = true
starts_with (p ∷ pat) [] = false
starts_with (p ∷ pat) (b ∷ s) = p == b && starts_with pat s

unfoldable pub strip_prefix : List ℕ → List ℕ → Option (List ℕ)
strip_prefix [] s = some s
strip_prefix (p ∷ pat) [] = none
strip_prefix (p ∷ pat) (b ∷ s) = if p == b then strip_prefix pat s else none

abbrev map_reverse : Option (List ℕ) → Option (List ℕ)
map_reverse none = none
map_reverse (some s) = some (reverse s)

unfoldable pub ends_with : List ℕ → List ℕ → Bool
unfolding starts_with
ends_with pat s = starts_with (reverse pat) (reverse s)

unfoldable pub strip_suffix : List ℕ → List ℕ → Option (List ℕ)
unfolding strip_prefix
strip_suffix pat s = map_reverse (strip_prefix (reverse pat) (reverse s))

unfoldable pub has_byte : ℕ → List ℕ → Bool
has_byte n [] = false
has_byte n (b ∷ s) = if b == n then true else has_byte n s

-- The bytes `n` at the front: `chars().take_while(|c| *c == n).count()` for an ASCII `n`.
unfoldable pub count_leading : ℕ → List ℕ → ℕ
count_leading n [] = 0
count_leading n (b ∷ s) = if b == n then suc (count_leading n s) else 0

abbrev shift : Option ℕ → Option ℕ
shift none = none
shift (some i) = some (suc i)

-- `find(pat)`, for a pattern that is not empty.
unfoldable pub find : List ℕ → List ℕ → Option ℕ
find pat [] = none
find pat (b ∷ s) = if starts_with pat (b ∷ s) then some 0 else shift (find pat s)

-- `rfind(pat)`: the last occurrence.
unfoldable pub rfind : List ℕ → List ℕ → Option ℕ
rfind pat [] = none
rfind pat (b ∷ s) = elim (rfind pat s) [
  | some i ↦ some (suc i)
  | none ↦ if starts_with pat (b ∷ s) then some 0 else none
]

pub starts_with-length : (pat s : List ℕ) → starts_with pat s ≡ true → length pat ≤ length s
unfolding starts_with
starts_with-length [] s h = omega arith
starts_with-length (p ∷ pat) [] h = absurd (ground arith)
starts_with-length (p ∷ pat) (b ∷ s) h = ground (arith, starts_with-length pat s)

-- An occurrence ends within the text.
pub rfind-length : (pat s : List ℕ) {p : ℕ} → rfind pat s ≡ some p → p + length pat ≤ length s
unfolding rfind
rfind-length pat [] h = absurd (ground arith)
rfind-length pat (b ∷ s) {p} h = elim (Option-cases (rfind pat s)) [
  | inl e ↦ ground (arith, starts_with-length pat (b ∷ s))
  | inr (i, e) ↦ ground (arith, rfind-length pat s e)
]

-- `split_inclusive('\n')`: each line with its terminator; nothing after the last one.
abbrev pub add_front : ℕ → List (List ℕ) → List (List ℕ)
add_front b [] = (b ∷ []) ∷ []
add_front b (line ∷ lines) = (b ∷ line) ∷ lines

unfoldable pub split_inclusive : List ℕ → List (List ℕ)
split_inclusive [] = []
split_inclusive (b ∷ s) =
    if b == b'\n' then (b ∷ []) ∷ split_inclusive s else add_front b (split_inclusive s)

pub is_empty-has_byte : (n : ℕ) (s : List ℕ) → has_byte n s ≡ true → is_empty s ≡ false
unfolding has_byte
is_empty-has_byte n [] h = absurd (ground arith)
is_empty-has_byte n (b ∷ s) h = refl

-- `str::lines`: each line without its `\n`, and without the `\r` in front of one.
abbrev strip_or : Option (List ℕ) → List ℕ → List ℕ
strip_or none s = s
strip_or (some t) s = t

abbrev strip_eol : List ℕ → List ℕ
strip_eol line = elim (strip_suffix (b'\n' ∷ []) line) [
  | none ↦ line
  | some s ↦ strip_or (strip_suffix (b'\r' ∷ []) s) s
]

abbrev map_eol : List (List ℕ) → List (List ℕ)
map_eol [] = []
map_eol (line ∷ rest) = strip_eol line ∷ map_eol rest

unfoldable pub lines : List ℕ → List (List ℕ)
lines s = map_eol (split_inclusive s)

-- `join(sep)`
unfoldable pub join : List ℕ → List (List ℕ) → List ℕ
join sep [] = []
join sep (s ∷ []) = s
join sep (s ∷ t ∷ rest) = s ++ sep ++ join sep (t ∷ rest)

-- `split(sep)`, for a separator that is not empty: `skip` bytes of one are still to be passed over.
split_from : ℕ → List ℕ → List ℕ → List (List ℕ)
split_from skip sep [] = [] ∷ []
split_from zero sep (b ∷ s) =
    let cut = split_from (length sep - 1) sep s in
    let kept = split_from zero sep s in
    if starts_with sep (b ∷ s) then [] ∷ cut else add_front b kept
split_from (suc skip) sep (b ∷ s) = split_from skip sep s

unfoldable pub split : List ℕ → List ℕ → List (List ℕ)
unfolding split_from
split sep s = split_from zero sep s

add_front-nonempty : (b : ℕ) (ls : List (List ℕ)) → ¬ (add_front b ls ≡ [])
add_front-nonempty b [] h = ground arith
add_front-nonempty b (l ∷ ls) h = ground arith

split_from-nonempty : (skip : ℕ) (sep s : List ℕ) → ¬ (split_from skip sep s ≡ [])
unfolding split_from
split_from-nonempty skip sep [] h = ground arith
split_from-nonempty zero sep (b ∷ s) h =
    ground
      (arith, add_front-nonempty b (split_from zero sep s), Bool-cases (starts_with sep (b ∷ s)))
split_from-nonempty (suc skip) sep (b ∷ s) h = split_from-nonempty skip sep s h

pub split-nonempty : (sep s : List ℕ) → ¬ (split sep s ≡ [])
unfolding split
split-nonempty sep s h = split_from-nonempty zero sep s h

-- `split_once(sep)`, for one byte.
unfoldable pub split_once : ℕ → List ℕ → Option (List ℕ × List ℕ)
split_once n [] = none
split_once n (b ∷ s) = elim (split_once n s) [
  | none ↦ if b == n then some ([], s) else none
  | some (l, r) ↦ if b == n then some ([], s) else some (b ∷ l, r)
]

pub has_byte-append : (n : ℕ) (s t : List ℕ) → has_byte n (s ++ t) ≡ (has_byte n s || has_byte n t)
unfolding has_byte
has_byte-append n [] t = refl
has_byte-append n (b ∷ s) t = ground (arith, has_byte-append n s t)

pub split_once-append :
    (n : ℕ) (s t : List ℕ) → has_byte n s ≡ false → split_once n (s ++ n ∷ t) ≡ some (s, t)
unfolding split_once has_byte
split_once-append n [] t h = elim (Option-cases (split_once n t)) [
  | inl e ↦ rw (e, split_once) (ground arith)
  | inr (p, e) ↦ rw (e, split_once) (ground arith)
]
split_once-append n (b ∷ s) t h =
    let later : split_once n (s ++ n ∷ t) ≡ some (s, t) = split_once-append n s t (ground arith) in
    rw (later, split_once) (ground arith)

length-map_eol : (ls : List (List ℕ)) → length (map_eol ls) ≡ length ls
length-map_eol [] = refl
length-map_eol (l ∷ ls) = ground (arith, length-map_eol ls)

pub length-lines : (s : List ℕ) → length (lines s) ≡ length (split_inclusive s)
unfolding lines
length-lines s = length-map_eol (split_inclusive s)
