-- ===== src/Chunker/Progress.antt =====
-- src/vault/chunker.rs: the loop of `chunk_note` ends, and each piece is within `hard_max`.
use obsidian_mcp_semantic_me.Base.{if◌then◌else◌}
use obsidian_mcp_semantic_me.Base.{
  refl, All, Bool-cases, is_char_boundary, is_continuation, IsSpaced, ended, next, Closes,
  ascii1-Closes, ascii2-Closes, char3-Closes, drop, drop-drop, starts_with-take, rfind-starts_with,
  boundary-IsCut, IsSpaced-drop, inl, inr, true, ◌==◌, ltb, length-boundary, inr,
}
use obsidian_mcp_semantic_me.Base.{
  ℕ, zero, suc, ◌+◌, ◌-◌, ◌*◌, ◌/◌, ◌≤◌, ◌<◌, min, max, ◌≡◌, Option, some, inl, inr, List, [], ◌∷◌,
  arith, Text, length, take, length-take, rfind, rfind-length, leb, if_rule, Option-cases,
}
use obsidian_mcp_semantic_me.Chunker.Windows.{
  ChunkConfig, hard_max, floor_boundary, ceil_boundary, separators, split_at_first, split_point,
  window, next_cursor, usize_max,
}

floor_boundary-le : (s : Text) (cap : ℕ) → floor_boundary s cap ≤ cap
unfolding floor_boundary
floor_boundary-le s zero = omega arith
floor_boundary-le s (suc cap) = ground (arith, floor_boundary-le s cap)

ceil_boundary_bounds :
    (raw : Text) (back rounds : ℕ)
    → (back ≤ ceil_boundary raw back rounds) × (ceil_boundary raw back rounds ≤ back + rounds)
unfolding ceil_boundary
ceil_boundary_bounds raw back zero = omega arith
ceil_boundary_bounds raw back (suc rounds) =
    ground (arith, ceil_boundary_bounds raw (suc back) rounds)

split_at_first-le :
    (cut : Text) (floor : ℕ) (pats : List Text) {p : ℕ}
    → split_at_first cut floor pats ≡ some p
    → p ≤ length cut
unfolding split_at_first
split_at_first-le cut floor [] h = absurd (ground arith)
split_at_first-le cut floor (pat ∷ pats) {p} h = elim (Option-cases (rfind pat cut)) [
  | inl e ↦ split_at_first-le cut floor pats (rw (e, split_at_first) at h)
  | inr (i, e) ↦ ground (arith, rfind-length pat cut e, split_at_first-le cut floor pats {p = p})
]

split_point-le : (s : Text) (limit : ℕ) → split_point s limit ≤ length s
unfolding split_point
split_point-le s limit =
    let cap = floor_boundary s limit in
    let cut : Option ℕ = split_at_first (take cap s) (cap / 2) separators in
    if_rule (λ n. n ≤ length s) (leb (length s) limit) (λ _. omega arith)
      λ more. elim (Option-cases cut) [
        | inl e ↦ rw e (ground (arith, floor_boundary-le s limit))
        | inr (p, e) ↦ rw e (
            ground (
              arith,
              split_at_first-le (take cap s) (cap / 2) separators e,
              length-take cap s,
              floor_boundary-le s limit,
            ))
      ]

-- A window is not empty and stays within what remains.
pub window_bounds :
    (config : ChunkConfig) (remaining : Text)
    → 0 < length remaining
    → (0 < window config remaining) × (window config remaining ≤ length remaining)
unfolding window
window_bounds config remaining h =
    ground
      (arith, split_point-le remaining config.target, floor_boundary-le remaining (hard_max config))

pub window-le-hard_max :
    (config : ChunkConfig) (remaining : Text)
    → 0 < config.target
    → window config remaining ≤ hard_max config
unfolding window hard_max
window-le-hard_max config remaining h =
    ground (arith, floor_boundary-le remaining (min (config.target * 2) usize_max))

-- The cursor moves forward, and not past the end of the piece.
pub next_cursor_bounds :
    (config : ChunkConfig) (raw : Text) (cursor take_len : ℕ)
    → 0 < take_len
    → (cursor < next_cursor config raw cursor take_len)
      × (next_cursor config raw cursor take_len ≤ cursor + take_len)
unfolding next_cursor
next_cursor_bounds config raw cursor take_len h =
    let next = cursor + take_len in
    let back = max (next - config.overlap) (cursor + 1) in
    ground (arith, ceil_boundary_bounds raw back (next - back))

-- Where the pieces end, in a text of whole characters.
floor_boundary-boundary : (s : Text) (cap : ℕ) → is_char_boundary s (floor_boundary s cap) ≡ true
unfolding floor_boundary is_char_boundary
floor_boundary-boundary s zero = refl
floor_boundary-boundary s (suc cap) = elim (Bool-cases (is_char_boundary s (suc cap))) [
  | inl e ↦ rw (floor_boundary, e) e
  | inr e ↦ rw (floor_boundary, e) (floor_boundary-boundary s cap)
]

floor_boundary-ge :
    (s : Text) (i cap : ℕ) → is_char_boundary s i ≡ true → i ≤ cap → i ≤ floor_boundary s cap
unfolding floor_boundary
floor_boundary-ge s i zero e h = omega arith
floor_boundary-ge s i (suc cap) e h = elim (Bool-cases (is_char_boundary s (suc cap))) [
  | inl f ↦ ground arith
  | inr f ↦ elim (Bool-cases (i == suc cap)) [
    | inl g ↦ let same : i ≡ suc cap = ground arith in absurd (ground arith)
    | inr g ↦ ground (arith, floor_boundary-ge s i cap e)
  ]
]

-- No character is longer than four bytes.
some_boundary :
    (s : Text)
    → IsSpaced s
    → 4 < length s
    → (i : ℕ) × (0 < i) × (i ≤ 4) × (is_char_boundary s i ≡ true)
unfolding is_char_boundary
some_boundary _ ended h = absurd (omega arith)
some_boundary _ (next a [] p q r k) h = absurd (omega arith)
some_boundary _ (next a (b ∷ []) p q r k) h = absurd (omega arith)
some_boundary _ (next a (b ∷ c ∷ []) p q r k) h = absurd (omega arith)
some_boundary _ (next a (b ∷ c ∷ d ∷ []) p q r k) h = absurd (omega arith)
some_boundary _ (next a (b ∷ c ∷ d ∷ e ∷ s) p q r k) h = elim (Bool-cases (is_continuation b)) [
  | inr f ↦ (1, omega arith, omega arith, ground arith)
  | inl f ↦ elim (Bool-cases (is_continuation c)) [
    | inr g ↦ (2, omega arith, omega arith, ground arith)
    | inl g ↦ elim (Bool-cases (is_continuation d)) [
      | inr l ↦ (3, omega arith, omega arith, ground arith)
      | inl l ↦ (4, omega arith, omega arith, ground arith)
    ]
  ]
]

separators-Closes : All Closes separators
separators-Closes = (
  ascii2-Closes 10 10 (omega arith),
  (
    ascii2-Closes 46 32 (omega arith),
    (
      ascii2-Closes 46 10 (omega arith),
      (
        ascii2-Closes 33 32 (omega arith),
        (
          ascii2-Closes 63 32 (omega arith),
          (
            char3-Closes 0xe0 0xa5 0xa4 refl,
            (ascii1-Closes 10 (omega arith), (ascii1-Closes 32 (omega arith), tt)),
          ),
        ),
      ),
    ),
  ),
)

split_at_first-boundary :
    (s : Text) (cap floor : ℕ) (pats : List Text) (p : ℕ)
    → IsSpaced s
    → All Closes pats
    → split_at_first (take cap s) floor pats ≡ some p
    → is_char_boundary s p ≡ true
unfolding split_at_first
split_at_first-boundary s cap floor [] p k c h = absurd (ground arith)
split_at_first-boundary s cap floor (pat ∷ pats) p k (c, cs) h =
    elim (Option-cases (rfind pat (take cap s))) [
      | inl e ↦ split_at_first-boundary s cap floor pats p k cs (rw (e, split_at_first) at h)
      | inr (i, e) ↦ elim (Bool-cases (ltb floor i)) [
        | inr f ↦ split_at_first-boundary s cap floor pats p k cs (rw (e, split_at_first, f) at h)
        | inl f ↦
            let same : p ≡ i + length pat = ground arith in
            let within : i + length pat ≤ length s =
              omega (arith, rfind-length pat (take cap s) e, length-take cap s) in
            let there = starts_with-take pat cap i s (rfind-starts_with pat (take cap s) i e) in
            rw same (
              boundary-IsCut (i + length pat) s within
                (rw (← drop-drop (length pat) i s) (c (drop i s) (IsSpaced-drop i s k) there)))
      ]
    ]

split_point-boundary :
    (s : Text) (limit : ℕ) → IsSpaced s → is_char_boundary s (split_point s limit) ≡ true
unfolding split_point
split_point-boundary s limit k =
    let cap = floor_boundary s limit in
    let cut : Option ℕ = split_at_first (take cap s) (cap / 2) separators in
    if_rule (λ n. is_char_boundary s n ≡ true) (leb (length s) limit) (λ _. length-boundary s)
      λ more. elim (Option-cases cut) [
        | inl e ↦ rw e (floor_boundary-boundary s limit)
        | inr (p, e) ↦
            rw e (split_at_first-boundary s cap (cap / 2) separators p k separators-Closes e)
      ]

hard_max-ge : (config : ChunkConfig) → 2 ≤ config.target → 4 ≤ hard_max config
unfolding hard_max
hard_max-ge config h = omega arith

-- With a target of two bytes at least, a window ends between two characters.
pub window-boundary :
    (config : ChunkConfig) (remaining : Text)
    → 2 ≤ config.target
    → IsSpaced remaining
    → is_char_boundary remaining (window config remaining) ≡ true
unfolding window
window-boundary config remaining h k =
    let split = split_point remaining config.target in
    let cut = if split == 0 then length remaining else split in
    let at_cut : is_char_boundary remaining cut ≡ true =
      if_rule (λ n. is_char_boundary remaining n ≡ true) (split == 0)
        (λ _. length-boundary remaining) (λ _. split_point-boundary remaining config.target k) in
    let most = hard_max config in
    if_rule (λ n. is_char_boundary remaining n ≡ true) (ltb most cut)
      (λ long.
        let room : 4 ≤ most = hard_max-ge config h in
        let (i, pos, small, e) =
          some_boundary remaining k (ground (arith, split_point-le remaining config.target)) in
        let reached = floor_boundary-ge remaining i most e (omega arith) in
        let same : max (floor_boundary remaining most) 1 ≡ floor_boundary remaining most =
          omega arith in
        rw same (floor_boundary-boundary remaining most))
      (λ _. at_cut)

-- The cursor is between two characters, if the end of the piece is.
ceil_boundary-boundary :
    (raw : Text) (back rounds : ℕ)
    → is_char_boundary raw (back + rounds) ≡ true
    → is_char_boundary raw (ceil_boundary raw back rounds) ≡ true
unfolding ceil_boundary
ceil_boundary-boundary raw back zero h = let same : back + 0 ≡ back = omega arith in rw (← same) h
ceil_boundary-boundary raw back (suc rounds) h = elim (Bool-cases (is_char_boundary raw back)) [
  | inl e ↦ rw (ceil_boundary, e) e
  | inr e ↦
      let same : back + suc rounds ≡ suc back + rounds = omega arith in
      rw (ceil_boundary, e) (ceil_boundary-boundary raw (suc back) rounds (rw (← same) h))
]

pub next_cursor-boundary :
    (config : ChunkConfig) (raw : Text) (cursor take_len : ℕ)
    → 0 < take_len
    → is_char_boundary raw (cursor + take_len) ≡ true
    → is_char_boundary raw (next_cursor config raw cursor take_len) ≡ true
unfolding next_cursor
next_cursor-boundary config raw cursor take_len pos h =
    let next = cursor + take_len in
    let back = max (next - config.overlap) (cursor + 1) in
    if_rule (λ n. is_char_boundary raw n ≡ true) (ltb 0 config.overlap)
      (λ _.
        let whole : back + (next - back) ≡ next = omega arith in
        let bounds = ceil_boundary_bounds raw back (next - back) in
        let found = ceil_boundary raw back (next - back) in
        let same : max found (cursor + 1) ≡ found = omega (arith, bounds.0) in
        rw same (ceil_boundary-boundary raw back (next - back) (rw whole h)))
      (λ _. h)
