-- ===== src/Chunker/Sections.antt =====
-- src/vault/chunker.rs: `Section`, `crumb`, `sections` and `packed_sections`.
use obsidian_mcp_semantic_me.Base.{
  ℕ, ◌+◌, ◌-◌, Bool, true, false, not, ◌&&◌, ◌||◌, List, [], ◌∷◌, ◌++◌, map, foldl, reverse, Text,
  bytes, length, drop, slice, trim, trim_start, is_empty, starts_with, starts_with_whitespace,
  count_leading, split_inclusive, leb, ltb, ◌==◌, if◌then◌else◌, keep,
}

pub record Section : Type 0 where
  pub path : List Text
  pub start : ℕ
  pub end : ℕ

-- `path.join(" > ")`
unfoldable pub crumb : List Text → Text
crumb [] = []
crumb (t ∷ []) = t
crumb (t ∷ u ∷ path) = t ++ bytes " > " ++ crumb (u ∷ path)

-- The variables of the loop of `sections`. The stack has its top at the head.
pub record Scan : Type 0 where
  pub out : List Section
  pub stack : List (ℕ × Text)
  pub in_fence : Bool
  pub fence_marker : ℕ
  pub current_start : ℕ
  pub current_path : List Text
  pub offset : ℕ

abbrev pub initial_scan : Scan
initial_scan = record {
  out = [];
  stack = [];
  in_fence = false;
  fence_marker = b' ';
  current_start = 0;
  current_path = [];
  offset = 0;
}

-- `while stack.last().is_some_and(|(l, _)| *l >= level) { stack.pop(); }`
unfoldable pub pop_to : ℕ → List (ℕ × Text) → List (ℕ × Text)
pop_to level [] = []
pop_to level ((l, t) ∷ stack) = if leb level l then pop_to level stack else (l, t) ∷ stack

abbrev pub first_byte : Text → ℕ
first_byte [] = 0
first_byte (b ∷ s) = b

unfoldable pub is_fence : Text → Bool
is_fence trimmed = starts_with (bytes "```") trimmed || starts_with (bytes "~~~") trimmed

-- One to six `#`, and then whitespace.
unfoldable pub is_heading : Text → Bool
is_heading trimmed =
    let hashes = count_leading b'#' trimmed in
    leb 1 hashes && leb hashes 6 && starts_with_whitespace (drop hashes trimmed)

abbrev pub close_section : Scan → List Section
close_section st =
    if ltb st.current_start st.offset
    then st.out ++ record { path = st.current_path; start = st.current_start; end = st.offset } ∷ []
    else st.out

unfoldable pub open_heading : Text → Scan → Scan
open_heading trimmed st =
    let level = count_leading b'#' trimmed in
    let stack = (level, trim (drop level trimmed)) ∷ pop_to level st.stack in
    record st {
      out = close_section st;
      stack = stack;
      current_path = map (λ entry. entry.1) (reverse stack);
      current_start = st.offset;
    }

unfoldable pub toggle_fence : ℕ → Scan → Scan
toggle_fence marker st =
    if not st.in_fence
    then record st { in_fence = true; fence_marker = marker }
    else if marker == st.fence_marker
    then record st { in_fence = false }
    else st

abbrev pub advance : Text → Scan → Scan
advance line st = record st { offset = st.offset + length line }

-- One round of `for line in body.split_inclusive('\n')`.
unfoldable pub scan_line : Scan → Text → Scan
scan_line st line =
    let trimmed = trim_start line in
    if is_fence trimmed
    then advance line (toggle_fence (first_byte trimmed) st)
    else if not st.in_fence && is_heading trimmed
    then advance line (open_heading trimmed st)
    else advance line st

unfoldable pub sections : Text → List Section
sections body =
    let st = foldl scan_line initial_scan (split_inclusive body) in
    if ltb st.current_start (length body)
    then st.out
      ++ record { path = st.current_path; start = st.current_start; end = length body } ∷ []
    else st.out

abbrev pub is_blank_section : Text → Section → Bool
is_blank_section body s = is_empty (trim (slice body s.start s.end))

-- The two loops of `packed_sections` as one walk: `open` is the section that is being built, and
-- `growing` is the test `end - start <= target` of its first member.
unfoldable pub pack_from : ℕ → Section → Bool → List Section → List Section
pack_from target open_one growing [] = open_one ∷ []
pack_from target open_one growing (s ∷ rest) =
    let joined = pack_from target (record open_one { end = s.end }) true rest in
    let closed = open_one ∷ pack_from target s (leb (s.end - s.start) target) rest in
    if growing && leb (s.end - open_one.start) target then joined else closed

unfoldable pub pack : ℕ → List Section → List Section
pack target [] = []
pack target (s ∷ rest) = pack_from target s (leb (s.end - s.start) target) rest

unfoldable pub packed_sections : Text → ℕ → List Section
packed_sections body target =
    pack target (keep (λ s. not (is_blank_section body s)) (sections body))
