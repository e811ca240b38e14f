-- ===== src/Chunker/Trail.antt =====
-- src/vault/chunker.rs: the stack of headings that gives each section its path.
use obsidian_mcp_semantic_me.Base.{
  ℕ, ◌≤◌, ◌<◌, ◌≡◌, refl, not, ◌&&◌, Bool, true, List, [], ◌∷◌, foldl, map, reverse, arith, Text,
  length, length-reverse, leb, ltb, ◌==◌, if_rule, All, All-append, count_leading, split_inclusive,
  trim_start,
}
use obsidian_mcp_semantic_me.Chunker.Sections.{
  Section, Scan, initial_scan, pop_to, close_section, open_heading, toggle_fence, is_fence,
  is_heading, advance, scan_line, sections,
}

-- The levels on the stack fall strictly from the top to the bottom, from below `bound` to 1.
abbrev pub IsNested : ℕ → List (ℕ × Text) → Type 0
IsNested bound [] = Unit {0}
IsNested bound ((level, text) ∷ stack) = (1 ≤ level) × (level < bound) × IsNested level stack

pop_to-IsNested :
    (level bound : ℕ) (stack : List (ℕ × Text))
    → IsNested bound stack
    → IsNested level (pop_to level stack)
unfolding pop_to
pop_to-IsNested level bound [] h = tt
pop_to-IsNested level bound ((l, t) ∷ stack) (p, q, h) =
    if_rule (IsNested level) (leb level l) (λ _. pop_to-IsNested level l stack h)
      (λ less. (p, ground arith, h))

length-IsNested :
    (bound : ℕ) (stack : List (ℕ × Text)) → 1 ≤ bound → IsNested bound stack → length stack < bound
length-IsNested bound [] h n = h
length-IsNested bound ((l, t) ∷ stack) h (p, q, n) = omega (arith, length-IsNested l stack p n)

length-map : (stack : List (ℕ × Text)) → length (map (λ e. e.1) stack) ≡ length stack
length-map [] = refl
length-map (e ∷ stack) = omega (arith, length-map stack)

abbrev pub HasShortPath : Section → Type 0
HasShortPath s = length s.path ≤ 6

record IsTrail (st : Scan) : Type 0 where
  nested : IsNested 7 st.stack
  current : length st.current_path ≤ 6
  closed : All HasShortPath st.out

close_section-short : (st : Scan) → IsTrail st → All HasShortPath (close_section st)
close_section-short st h =
    if_rule (All HasShortPath) (ltb st.current_start st.offset)
      (λ _. All-append HasShortPath st.out _ h.closed (h.current, tt)) (λ _. h.closed)

heading_level :
    (trimmed : Text)
    → is_heading trimmed ≡ true
    → (1 ≤ count_leading b'#' trimmed) × (count_leading b'#' trimmed < 7)
unfolding is_heading
heading_level trimmed h = ground arith

open_heading-IsTrail :
    (trimmed : Text) (st : Scan)
    → is_heading trimmed ≡ true
    → IsTrail st
    → IsTrail (open_heading trimmed st)
unfolding open_heading
open_heading-IsTrail trimmed st e h =
    let level = count_leading b'#' trimmed in
    let (low, high) = heading_level trimmed e in
    let popped = pop_to-IsNested level 7 st.stack h.nested in
    record {
      nested = (low, high, popped);
      current = omega (
        arith,
        length-map (reverse (open_heading trimmed st).stack),
        length-reverse (open_heading trimmed st).stack,
        length-IsNested level (pop_to level st.stack) low popped,
      );
      closed = close_section-short st h;
    }

toggle_fence-IsTrail : (marker : ℕ) (st : Scan) → IsTrail st → IsTrail (toggle_fence marker st)
unfolding toggle_fence
toggle_fence-IsTrail marker st h =
    let same : (x : Bool) (m : ℕ) → IsTrail (record st { in_fence = x; fence_marker = m }) =
      λ x m. record { nested = h.nested; current = h.current; closed = h.closed } in
    if_rule IsTrail (not st.in_fence) (λ _. same true marker)
      λ _. if_rule IsTrail (marker == st.fence_marker) (λ _. same _ _) (λ _. h)

advance-IsTrail : (line : Text) (st : Scan) → IsTrail st → IsTrail (advance line st)
advance-IsTrail line st h = record { nested = h.nested; current = h.current; closed = h.closed }

heading_of_test :
    (a : Bool) (trimmed : Text) → (a && is_heading trimmed) ≡ true → is_heading trimmed ≡ true
heading_of_test a trimmed h = ground arith

scan_line-IsTrail : (st : Scan) (line : Text) → IsTrail st → IsTrail (scan_line st line)
unfolding scan_line
scan_line-IsTrail st line h =
    if_rule IsTrail (is_fence (trim_start line))
      (λ _. advance-IsTrail line _ (toggle_fence-IsTrail _ st h))
      λ _.
        if_rule IsTrail (not st.in_fence && is_heading (trim_start line))
          (λ e.
            advance-IsTrail line _
              (open_heading-IsTrail _ st (heading_of_test (not st.in_fence) _ e) h))
          (λ _. advance-IsTrail line st h)

scan_all-IsTrail : (st : Scan) (lines : List Text) → IsTrail st → IsTrail (foldl scan_line st lines)
scan_all-IsTrail st [] h = h
scan_all-IsTrail st (line ∷ lines) h =
    scan_all-IsTrail (scan_line st line) lines (scan_line-IsTrail st line h)

-- The heading path of every section has at most six segments, one for each level of heading.
pub sections-HasShortPath : (body : Text) → All HasShortPath (sections body)
unfolding sections
sections-HasShortPath body =
    let st = foldl scan_line initial_scan (split_inclusive body) in
    let h =
      scan_all-IsTrail initial_scan (split_inclusive body)
        (record { nested = tt; current = omega arith; closed = tt }) in
    if_rule (All HasShortPath) (ltb st.current_start (length body))
      (λ _. All-append HasShortPath st.out _ h.closed (h.current, tt)) (λ _. h.closed)
