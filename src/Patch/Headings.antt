-- ===== src/Patch/Headings.antt =====
-- src/vault/patch.rs: the section that a heading target names.
use obsidian_mcp_semantic_me.Base.{
  split-nonempty, All-Any, ℕ, suc, ◌+◌, ◌≤◌, ◌<◌, leb, ◌≡◌, refl, ap, ◌∙◌, inl, inr, Bool, true,
  some, List, [], ◌∷◌, arith, All, Any, Text, bytes, trim, lines, split, Bool-cases, Option-cases,
  List-cases,
}
use obsidian_mcp_semantic_me.Error.{ok}
use obsidian_mcp_semantic_me.Patch.{
  ParsedHeading, Scan, start_scan, scan_patch_line, non_code_from, for_each_non_code_line,
  parse_heading, headings_of, find_headings, find_heading, is_match, find_segment, ends_section,
  section_end, resolve_segments, resolve_heading_range, normalize_heading_target_segment,
}

-- The headings stand in the order of their lines.
abbrev pub IsOrdered : List ParsedHeading → Type 0
IsOrdered [] = Unit {0}
IsOrdered (h ∷ hs) = All (λ n. h.line_idx < n.line_idx) hs × IsOrdered hs

All-from :
    (i j : ℕ) (hs : List ParsedHeading)
    → i ≤ j
    → All (λ h. j ≤ h.line_idx) hs
    → All (λ h. i ≤ h.line_idx) hs
All-from i j [] k a = tt
All-from i j (h ∷ hs) k (b, a) = (omega arith, All-from i j hs k a)

non_code_from-IsOrdered :
    (s : Scan) (idx : ℕ) (ls : List Text)
    → All (λ h. idx ≤ h.line_idx) (headings_of (non_code_from s idx ls))
      × IsOrdered (headings_of (non_code_from s idx ls))
unfolding non_code_from headings_of
non_code_from-IsOrdered s idx [] = (tt, tt)
non_code_from-IsOrdered s idx (line ∷ ls) =
    let next = scan_patch_line s idx line in
    let (later, ordered) = non_code_from-IsOrdered next.0 (suc idx) ls in
    let low = All-from idx (suc idx) _ (omega arith) later in
    elim (Bool-cases next.1) [
      | inr e ↦ rw (non_code_from, e) (low, ordered)
      | inl e ↦ elim (Option-cases (parse_heading line)) [
        | inl p ↦ rw (non_code_from, e, headings_of, p) (low, ordered)
        | inr ((level, text), p) ↦
            rw (non_code_from, e, headings_of, p) ((omega arith, low), (later, ordered))
      ]
    ]

find_headings-IsOrdered : (content : Text) → IsOrdered (find_headings content)
unfolding find_headings for_each_non_code_line
find_headings-IsOrdered content = (non_code_from-IsOrdered start_scan 0 (lines content)).1

find_heading-some :
    (test : ParsedHeading → Bool) (hs : List ParsedHeading) {h : ParsedHeading}
    → find_heading test hs ≡ some h
    → Any (λ x. x ≡ h) hs × (test h ≡ true)
unfolding find_heading
find_heading-some test [] {h} e = absurd (ground arith)
find_heading-some test (x ∷ hs) {h} e = elim (Bool-cases (test x)) [
  | inl t ↦ let same : x ≡ h = ground arith in (inl same, ground arith)
  | inr t ↦ let (k, m) = find_heading-some test hs (ground arith) in (inr k, m)
]

-- The first heading that passes the test is not behind any other that does.
find_heading-first :
    (test : ParsedHeading → Bool) (hs : List ParsedHeading) (n : ParsedHeading)
    → IsOrdered hs
    → Any (λ x. x ≡ n) hs
    → test n ≡ true
    → (first : ParsedHeading) × (find_heading test hs ≡ some first) × (first.line_idx ≤ n.line_idx)
unfolding find_heading
find_heading-first test [] n o a t = absurd a
find_heading-first test (x ∷ hs) n (above, o) (inl same) t =
    let at : x.line_idx ≡ n.line_idx = ap (λ h. h.line_idx) same in
    let passes : test x ≡ true = ap test same ∙ t in (x, ground arith, omega arith)
find_heading-first test (x ∷ hs) n (above, o) (inr a) t = elim (Bool-cases (test x)) [
  | inl e ↦
      let behind = All-Any (λ m. x.line_idx < m.line_idx) hs n above a in
      (x, ground arith, omega arith)
  | inr e ↦
      let (first, found, below) = find_heading-first test hs n o a t in (first, ground arith, below)
]

-- The lines from that of a heading to that of the next one which is not deeper.
pub record IsSection (headings : List ParsedHeading) (total_lines heading_line section_end_line : ℕ)
    : Type 0 where
  pub heading : ParsedHeading
  pub is_there : Any (λ x. x ≡ heading) headings
  pub at : heading.line_idx ≡ heading_line
  pub nonempty : heading_line < section_end_line
  pub inside : section_end_line ≤ total_lines
  pub deeper :
      (n : ParsedHeading)
      → Any (λ x. x ≡ n) headings
      → heading_line < n.line_idx
      → n.line_idx < section_end_line
      → heading.level < n.level

find_segment-some :
    (headings : List ParsedHeading) (search_start search_end : ℕ) (segment : Text)
    {h : ParsedHeading}
    → find_segment headings search_start search_end segment ≡ some h
    → Any (λ x. x ≡ h) headings × (h.line_idx < search_end)
unfolding find_segment
find_segment-some headings search_start search_end segment {h} e =
    let raw_test = is_match search_start search_end (trim segment) in
    let normal_test = is_match search_start search_end (normalize_heading_target_segment segment) in
    elim (Option-cases (find_heading raw_test headings)) [
      | inr (x, f) ↦
          let same : x ≡ h = ground arith in
          let (there, passed) = find_heading-some raw_test headings (f ∙ ap some same) in
          (there, ground arith)
      | inl f ↦
          let found : find_heading normal_test headings ≡ some h = ground arith in
          let (there, passed) = find_heading-some normal_test headings found in
          (there, ground arith)
    ]

module _ (headings : List ParsedHeading) (ordered : IsOrdered headings) (total_lines : ℕ) where
  section_end-IsSection :
      (search_end : ℕ) (h : ParsedHeading)
      → Any (λ x. x ≡ h) headings
      → h.line_idx < search_end
      → search_end ≤ total_lines
      → IsSection headings total_lines h.line_idx (section_end headings total_lines search_end h)
  unfolding section_end
  section_end-IsSection search_end h there before within = record {
    heading = h;
    is_there = there;
    at = refl;
    nonempty = elim (Option-cases (find_heading (ends_section h) headings)) [
      | inl e ↦ ground arith
      | inr (n, e) ↦ let (_, passed) = find_heading-some (ends_section h) headings e in ground arith
    ];
    inside = ground arith;
    deeper = λ n m after short. elim (Bool-cases (leb n.level h.level)) [
      | inr deep ↦ ground arith
      | inl shallow ↦
          let passes : ends_section h n ≡ true = ground arith in
          let (first, found, below) =
            find_heading-first (ends_section h) headings n ordered m passes in
          absurd (ground arith)
    ];
  }

  module _ (target path : Text) where
    resolve_segments-IsSection :
        (segments : List Text) (search_start search_end heading_line : ℕ) (range : ℕ × ℕ)
        → IsSection headings total_lines heading_line search_end
        → resolve_segments headings target total_lines path segments search_start search_end
            heading_line
          ≡ ok range
        → IsSection headings total_lines range.0 range.1
    unfolding resolve_segments
    resolve_segments-IsSection [] search_start search_end heading_line range h e =
        let same : range ≡ (heading_line, search_end) = ground arith in rw same h
    resolve_segments-IsSection (segment ∷ segments) search_start search_end heading_line range h e =
        elim (Option-cases (find_segment headings search_start search_end segment)) [
          | inl f ↦ absurd (ground arith)
          | inr (x, f) ↦
              let (there, before) = find_segment-some headings search_start search_end segment f in
              resolve_segments-IsSection segments (x.line_idx + 1) _ x.line_idx range
                (section_end-IsSection search_end x there before h.inside) (ground arith)
        ]

    resolve_segments-first :
        (segment : Text) (segments : List Text) (range : ℕ × ℕ)
        → resolve_segments headings target total_lines path (segment ∷ segments) 0 total_lines 0
          ≡ ok range
        → IsSection headings total_lines range.0 range.1
    unfolding resolve_segments
    resolve_segments-first segment segments range e =
        elim (Option-cases (find_segment headings 0 total_lines segment)) [
          | inl f ↦ absurd (ground arith)
          | inr (x, f) ↦
              let (there, before) = find_segment-some headings 0 total_lines segment f in
              resolve_segments-IsSection segments (x.line_idx + 1) _ x.line_idx range
                (section_end-IsSection total_lines x there before (omega arith)) (ground arith)
        ]

-- If a heading target is resolved among the headings of a note, then the range is a section: it starts
-- at one of the headings, is not empty, ends within the note, and every heading inside is deeper.
pub resolve_heading_range-IsSection :
    (content target : Text) (total_lines : ℕ) (path : Text) (range : ℕ × ℕ)
    → resolve_heading_range (find_headings content) target total_lines path ≡ ok range
    → IsSection (find_headings content) total_lines range.0 range.1
unfolding resolve_heading_range
resolve_heading_range-IsSection content target total_lines path range e =
    elim (List-cases (split (bytes "::") target)) [
      | inl f ↦ absurd (split-nonempty (bytes "::") target f)
      | inr (segment, segments, f) ↦
          resolve_segments-first (find_headings content) (find_headings-IsOrdered content)
            total_lines target path segment segments range (ground arith)
    ]
