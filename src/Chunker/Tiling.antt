-- ===== src/Chunker/Tiling.antt =====
-- src/vault/chunker.rs: the sections cut the body into consecutive pieces.
use obsidian_mcp_semantic_me.Base.{
  ℕ, suc, ◌+◌, ◌≤◌, ◌<◌, ◌≡◌, refl, sym, ◌∙◌, inl, inr, not, ◌&&◌, List, [], ◌∷◌, ◌++◌, foldl,
  arith, Text, length, drop, slice, slice-append-drop, ltb, ◌==◌, Bool-cases, if_rule,
  split_inclusive, add_front, trim_start,
}
use obsidian_mcp_semantic_me.Chunker.Sections.{
  Section, Scan, initial_scan, close_section, open_heading, toggle_fence, is_fence, is_heading,
  advance, scan_line, sections,
}

-- The sections follow one another from `a` to `b`, and none is empty.
abbrev pub Tiles : ℕ → ℕ → List Section → Type 0
Tiles a b [] = a ≡ b
Tiles a b (s ∷ l) = (s.start ≡ a) × (a < s.end) × Tiles s.end b l

Tiles-concat :
    (a b : ℕ) (l : List Section) (s : Section)
    → Tiles a b l
    → s.start ≡ b
    → b < s.end
    → Tiles a s.end (l ++ s ∷ [])
Tiles-concat a b [] s h e lt = (e ∙ sym h, omega arith, refl)
Tiles-concat a b (t ∷ l) s (p, q, h) e lt = (p, q, Tiles-concat t.end b l s h e lt)

Tiles-eq : (a b c : ℕ) (l : List Section) → Tiles a b l → b ≡ c → Tiles a c l
Tiles-eq a b c [] h e = h ∙ e
Tiles-eq a b c (t ∷ l) (p, q, h) e = (p, q, Tiles-eq t.end b c l h e)

record IsScan (st : Scan) : Type 0 where
  tiled : Tiles 0 st.current_start st.out
  started : st.current_start ≤ st.offset

close_section-tiled : (st : Scan) → IsScan st → Tiles 0 st.offset (close_section st)
close_section-tiled st h = elim (Bool-cases (ltb st.current_start st.offset)) [
  | inl more ↦ rw more (Tiles-concat 0 st.current_start st.out _ h.tiled refl (ground arith))
  | inr same ↦
      rw same (Tiles-eq 0 st.current_start st.offset st.out h.tiled (ground (arith, h.started)))
]

open_heading-IsScan : (trimmed : Text) (st : Scan) → IsScan st → IsScan (open_heading trimmed st)
unfolding open_heading
open_heading-IsScan trimmed st h = record {
  tiled = close_section-tiled st h;
  started = omega arith;
}

toggle_fence-IsScan : (marker : ℕ) (st : Scan) → IsScan st → IsScan (toggle_fence marker st)
unfolding toggle_fence
toggle_fence-IsScan marker st h =
    if_rule IsScan (not st.in_fence) (λ _. record { tiled = h.tiled; started = h.started })
      λ _.
        if_rule IsScan (marker == st.fence_marker)
          (λ _. record { tiled = h.tiled; started = h.started }) (λ _. h)

advance-IsScan : (line : Text) (st : Scan) → IsScan st → IsScan (advance line st)
advance-IsScan line st h = record { tiled = h.tiled; started = omega (arith, h.started) }

scan_line-IsScan : (st : Scan) (line : Text) → IsScan st → IsScan (scan_line st line)
unfolding scan_line
scan_line-IsScan st line h =
    if_rule IsScan (is_fence (trim_start line))
      (λ _. advance-IsScan line _ (toggle_fence-IsScan _ st h))
      λ _.
        if_rule IsScan (not st.in_fence && is_heading (trim_start line))
          (λ _. advance-IsScan line _ (open_heading-IsScan _ st h)) (λ _. advance-IsScan line st h)

-- The offset counts the bytes of the lines that are read.
abbrev total : List Text → ℕ
total [] = 0
total (line ∷ lines) = length line + total lines

offset-scan_line : (st : Scan) (line : Text) → (scan_line st line).offset ≡ st.offset + length line
unfolding scan_line toggle_fence open_heading
offset-scan_line st line = ground arith

scan_all :
    (st : Scan) (lines : List Text)
    → IsScan st
    → IsScan (foldl scan_line st lines)
      × ((foldl scan_line st lines).offset ≡ st.offset + total lines)
scan_all st [] h = (h, omega arith)
scan_all st (line ∷ lines) h =
    let (later, same) = scan_all (scan_line st line) lines (scan_line-IsScan st line h) in
    (later, omega (arith, same, offset-scan_line st line))

total-add_front : (b : ℕ) (lines : List Text) → total (add_front b lines) ≡ suc (total lines)
total-add_front b [] = omega arith
total-add_front b (line ∷ lines) = omega arith

total-split_inclusive : (s : Text) → total (split_inclusive s) ≡ length s
unfolding split_inclusive
total-split_inclusive [] = refl
total-split_inclusive (b ∷ s) =
    ground (arith, total-split_inclusive s, total-add_front b (split_inclusive s))

-- The sections tile the body from its first byte to its last.
pub sections-tile : (body : Text) → Tiles 0 (length body) (sections body)
unfolding sections
sections-tile body =
    let (h, same) =
      scan_all initial_scan (split_inclusive body)
        (record { tiled = refl; started = omega arith }) in
    let st = foldl scan_line initial_scan (split_inclusive body) in
    let room : st.current_start ≤ length body =
      omega (arith, h.started, same, total-split_inclusive body) in
    if_rule (Tiles 0 (length body)) (ltb st.current_start (length body))
      (λ more. Tiles-concat 0 st.current_start st.out _ h.tiled refl (ground arith))
      (λ same. Tiles-eq 0 st.current_start (length body) st.out h.tiled (ground arith))

abbrev pub join_slices : Text → List Section → Text
join_slices body [] = []
join_slices body (s ∷ l) = slice body s.start s.end ++ join_slices body l

drop-length : (xs : Text) → drop (length xs) xs ≡ []
drop-length [] = refl
drop-length (x ∷ xs) = drop-length xs

join_slices-Tiles :
    (body : Text) (a : ℕ) (l : List Section)
    → Tiles a (length body) l
    → join_slices body l ≡ drop a body
join_slices-Tiles body a [] h = rw h (sym (drop-length body))
join_slices-Tiles body a (s ∷ l) (e, lt, h) =
    rw (join_slices-Tiles body s.end l h, e) (slice-append-drop a s.end body (omega arith))

-- Whatever the body, the sections that `sections` returns, in order, make up the body again: no
-- byte is lost, repeated or moved.
pub join_slices-sections : (body : Text) → join_slices body (sections body) ≡ body
join_slices-sections body = join_slices-Tiles body 0 (sections body) (sections-tile body)
