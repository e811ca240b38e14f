-- ===== src/Chunker/Windows.antt =====
-- src/vault/chunker.rs: the configuration, the split points and the step of the cursor.
use obsidian_mcp_semantic_me.Base.{
  ℕ, zero, suc, ◌+◌, ◌-◌, ◌*◌, ◌/◌, ◌^◌, min, max, Bool, Option, none, some, List, [], ◌∷◌, Text,
  bytes, length, take, rfind, is_char_boundary, leb, ltb, ◌==◌, if◌then◌else◌,
}

abbrev pub usize_max : ℕ
usize_max = 2 ^ 64 - 1

abbrev pub default_chunk_chars : ℕ
default_chunk_chars = 1000

abbrev pub default_chunk_overlap : ℕ
default_chunk_overlap = 200

abbrev pub hard_max_factor : ℕ
hard_max_factor = 2

pub record ChunkConfig : Type 0 where
  pub target : ℕ
  pub overlap : ℕ
  pub packing : Bool

-- `from_env`: each argument is what the variable parsed to, if it was set and was a number (for
-- the last, whether it was set to one of the words for true).
abbrev target_from : Option ℕ → ℕ
target_from none = default_chunk_chars
target_from (some v) = if leb 100 v then v else default_chunk_chars

abbrev overlap_from : Option ℕ → ℕ
overlap_from none = default_chunk_overlap
overlap_from (some v) = v

unfoldable pub from_env : Option ℕ → Option ℕ → Bool → ChunkConfig
from_env chars overlap packing =
    let target = target_from chars in
    record {
      target = target;
      overlap = min (overlap_from overlap) ((target - 1) / 2);
      packing = packing;
    }

-- `self.target.saturating_mul(HARD_MAX_FACTOR)`
unfoldable pub hard_max : ChunkConfig → ℕ
hard_max config = min (config.target * hard_max_factor) usize_max

-- `while cap > 0 && !s.is_char_boundary(cap) { cap -= 1; }`
unfoldable pub floor_boundary : Text → ℕ → ℕ
floor_boundary s zero = zero
floor_boundary s (suc cap) =
    let lower = floor_boundary s cap in if is_char_boundary s (suc cap) then suc cap else lower

-- `while back < next && !raw.is_char_boundary(back) { back += 1; }`, with `next - back` rounds left
unfoldable pub ceil_boundary : Text → ℕ → ℕ → ℕ
ceil_boundary raw back zero = back
ceil_boundary raw back (suc rounds) =
    let higher = ceil_boundary raw (suc back) rounds in
    if is_char_boundary raw back then back else higher

-- The separators in the order in which they are tried; the last sentence end is U+0964.
abbrev pub separators : List Text
separators =
    bytes "\n\n"
    ∷ bytes ". "
    ∷ bytes ".\n"
    ∷ bytes "! "
    ∷ bytes "? "
    ∷ (0xe0 ∷ 0xa5 ∷ 0xa4 ∷ [])
    ∷ bytes "\n"
    ∷ bytes " "
    ∷ []

-- `if let Some(p) = window.rfind(pat) && p > floor { return p + pat.len(); }` for each in turn
unfoldable pub split_at_first : Text → ℕ → List Text → Option ℕ
split_at_first cut floor [] = none
split_at_first cut floor (pat ∷ pats) = elim (rfind pat cut) [
  | none ↦ split_at_first cut floor pats
  | some p ↦ if ltb floor p then some (p + length pat) else split_at_first cut floor pats
]

abbrev pub or_cap : Option ℕ → ℕ → ℕ
or_cap none cap = cap
or_cap (some p) cap = p

unfoldable pub split_point : Text → ℕ → ℕ
split_point s limit =
    let cap = floor_boundary s limit in
    if leb (length s) limit
    then length s
    else or_cap (split_at_first (take cap s) (cap / 2) separators) cap

-- The length `take` of the piece that is to be cut off `remaining`; the slice itself, which panics where
-- this is inside a character, is in the loop.
unfoldable pub window : ChunkConfig → Text → ℕ
window config remaining =
    let split = split_point remaining config.target in
    let cut = if split == 0 then length remaining else split in
    if ltb (hard_max config) cut then max (floor_boundary remaining (hard_max config)) 1 else cut

-- The cursor after a piece of length `take_len`.
unfoldable pub next_cursor : ChunkConfig → Text → ℕ → ℕ → ℕ
next_cursor config raw cursor take_len =
    let next = cursor + take_len in
    let back = max (next - config.overlap) (cursor + 1) in
    if ltb 0 config.overlap then max (ceil_boundary raw back (next - back)) (cursor + 1) else next
