-- ===== src/Patch.antt =====
-- src/vault/patch.rs: patches of a note at a heading or at a block reference, and src/models.rs:
-- the request of a patch. The patch of a frontmatter field is not modelled, but for the search of
-- its boundaries.
pub mod Lines
pub mod Headings
pub mod Splice
pub mod Blocks
pub mod Refs
mod Examples
use obsidian_mcp_semantic_me.Base.{
  ℕ, zero, suc, ◌+◌, ◌-◌, min, leb, ltb, ◌==◌, Bool, true, false, not, ◌&&◌, ◌||◌, Option, none,
  some, List, [], ◌∷◌, ◌++◌, length, take, drop, get_elem?, any, map, Text, bytes, text_eq,
  is_empty, starts_with, starts_with_whitespace, ends_with, strip_prefix, find, rfind, trim,
  trim_start, trim_end, trim_end_matches, count_leading, lines, split, slice, if◌then◌else◌,
}
use obsidian_mcp_semantic_me.Error.{VaultError, patch_target_not_found, Result, ok, err, ◌>>=◌}

pub data PatchOperation : Type 0 where
  append prepend replace : PatchOperation

pub data PatchTargetType : Type 0 where
  heading block frontmatter : PatchTargetType

pub record PatchRequest : Type 0 where
  pub operation : PatchOperation
  pub target_type : PatchTargetType
  pub target : Text
  pub content : Text

pub record ParsedHeading : Type 0 where
  pub level : ℕ
  pub text : Text
  pub line_idx : ℕ

-- The offsets after each newline, from `i` on.
unfoldable pub offsets_from : ℕ → Text → List ℕ
offsets_from i [] = []
offsets_from i (b ∷ s) =
    let rest = offsets_from (suc i) s in if b == b'\n' then suc i ∷ rest else rest

unfoldable pub line_byte_offsets : Text → List ℕ
line_byte_offsets content = 0 ∷ offsets_from 0 content

abbrev pub or_len : ℕ → Option ℕ → ℕ
or_len n none = n
or_len n (some i) = i

unfoldable pub line_offset : List ℕ → ℕ → ℕ → ℕ
line_offset offsets n content_len = or_len content_len (get_elem? offsets n)

-- The variables of `for_each_non_code_line`.
pub record Scan : Type 0 where
  pub in_code_block : Bool
  pub fence_char : ℕ
  pub fence_len : ℕ
  pub in_frontmatter : Bool
  pub past_frontmatter : Bool

abbrev pub start_scan : Scan
start_scan = record {
  in_code_block = false;
  fence_char = b'`';
  fence_len = 0;
  in_frontmatter = false;
  past_frontmatter = false;
}

abbrev first_byte : Text → ℕ
first_byte [] = 0
first_byte (b ∷ s) = b

abbrev all_bytes : ℕ → Text → Bool
all_bytes n s = not (any (λ b. not (b == n)) s)

-- The part of the loop past the frontmatter: the variables after it, and whether `f` is called.
unfoldable pub scan_body_line : Scan → Text → Scan × Bool
scan_body_line s line =
    let stripped = trim line in
    let left = trim_start line in
    if s.in_code_block
    then (if not (is_empty stripped)
          && leb s.fence_len (length stripped)
          && all_bytes s.fence_char stripped
        then (record s { in_code_block = false }, false)
        else (s, false))
    else if starts_with (bytes "```") left || starts_with (bytes "~~~") left
    then (
      record s {
        fence_char = first_byte left;
        fence_len = count_leading (first_byte left) left;
        in_code_block = true;
      },
      false,
    )
    else (s, true)

unfoldable pub scan_patch_line : Scan → ℕ → Text → Scan × Bool
scan_patch_line s idx line =
    if s.past_frontmatter
    then scan_body_line s line
    else if idx == 0 && text_eq (trim line) (bytes "---")
    then (record s { in_frontmatter = true }, false)
    else if s.in_frontmatter
    then (if text_eq (trim line) (bytes "---")
        then (record s { past_frontmatter = true }, false)
        else (s, false))
    else scan_body_line (record s { past_frontmatter = true }) line

-- The calls of `f`, in order.
unfoldable pub non_code_from : Scan → ℕ → List Text → List (ℕ × Text)
non_code_from s idx [] = []
non_code_from s idx (line ∷ rest) =
    let (next, called) = scan_patch_line s idx line in
    let later = non_code_from next (suc idx) rest in if called then (idx, line) ∷ later else later

unfoldable pub for_each_non_code_line : Text → List (ℕ × Text)
for_each_non_code_line content = non_code_from start_scan 0 (lines content)

unfoldable pub parse_heading : Text → Option (ℕ × Text)
parse_heading line =
    let t = trim_start line in
    let level = count_leading b'#' t in
    let rest = drop level t in
    if not (starts_with (bytes "#") t)
    then none
    else if ltb 6 level
    then none
    else if not (is_empty rest) && not (starts_with (bytes " ") rest)
    then none
    else some (level, trim rest)

unfoldable pub normalize_heading_target_segment : Text → Text
normalize_heading_target_segment segment =
    let trimmed = trim segment in
    let level = count_leading b'#' trimmed in
    if leb 1 level && leb level 6 && starts_with_whitespace (drop level trimmed)
    then trim (drop level trimmed)
    else trimmed

abbrev push_heading : ℕ → Option (ℕ × Text) → List ParsedHeading → List ParsedHeading
push_heading idx none out = out
push_heading idx (some (level, text)) out =
    record { level = level; text = text; line_idx = idx } ∷ out

unfoldable pub headings_of : List (ℕ × Text) → List ParsedHeading
headings_of [] = []
headings_of ((idx, line) ∷ rest) = push_heading idx (parse_heading line) (headings_of rest)

unfoldable pub find_headings : Text → List ParsedHeading
find_headings content = headings_of (for_each_non_code_line content)

-- `ensure_trailing_newline`
unfoldable pub ensure_newline : Text → Text
ensure_newline s = if not (is_empty s) && not (ends_with (bytes "\n") s) then s ++ b'\n' ∷ [] else s

abbrev lower : ℕ → ℕ
lower b = if leb 65 b && leb b 90 then b + 32 else b

unfoldable pub eq_ignore_ascii_case : Text → Text → Bool
eq_ignore_ascii_case s t = text_eq (map lower s) (map lower t)

-- `headings.iter().find(..)`
unfoldable pub find_heading : (ParsedHeading → Bool) → List ParsedHeading → Option ParsedHeading
find_heading test [] = none
find_heading test (h ∷ headings) = if test h then some h else find_heading test headings

abbrev pub is_match : ℕ → ℕ → Text → ParsedHeading → Bool
is_match search_start search_end candidate h =
    leb search_start h.line_idx
    && ltb h.line_idx search_end
    && eq_ignore_ascii_case h.text candidate

abbrev or_else : Option ParsedHeading → Option ParsedHeading → Option ParsedHeading
or_else none o = o
or_else (some h) o = some h

unfoldable pub find_segment : List ParsedHeading → ℕ → ℕ → Text → Option ParsedHeading
find_segment headings search_start search_end segment =
    let raw_seg = trim segment in
    let normalized_seg = normalize_heading_target_segment segment in
    or_else (find_heading (is_match search_start search_end raw_seg) headings) (
      if text_eq normalized_seg raw_seg
      then none
      else find_heading (is_match search_start search_end normalized_seg) headings)

abbrev line_or : ℕ → Option ParsedHeading → ℕ
line_or n none = n
line_or n (some h) = h.line_idx

abbrev pub ends_section : ParsedHeading → ParsedHeading → Bool
ends_section h n = ltb h.line_idx n.line_idx && leb n.level h.level

unfoldable pub section_end : List ParsedHeading → ℕ → ℕ → ParsedHeading → ℕ
section_end headings total_lines search_end h =
    min (line_or total_lines (find_heading (ends_section h) headings)) search_end

module _ (headings : List ParsedHeading) (target : Text) (total_lines : ℕ) (path : Text) where
  -- The loop over the segments.
  unfoldable pub resolve_segments : List Text → ℕ → ℕ → ℕ → Result (ℕ × ℕ)
  resolve_segments [] search_start search_end heading_line = ok (heading_line, search_end)
  resolve_segments (segment ∷ segments) search_start search_end heading_line =
      elim (find_segment headings search_start search_end segment) [
        | none ↦ err (patch_target_not_found path (bytes "heading") target)
        | some h ↦
            resolve_segments segments (h.line_idx + 1)
              (section_end headings total_lines search_end h) h.line_idx
      ]

  unfoldable pub resolve_heading_range : Result (ℕ × ℕ)
  resolve_heading_range = resolve_segments (split (bytes "::") target) 0 total_lines 0

unfoldable pub patch_at_heading : Text → PatchOperation → Text → ℕ → ℕ → Text
patch_at_heading content operation text after_heading section_end_byte = elim operation [
  | prepend ↦
      ensure_newline (ensure_newline (take after_heading content) ++ text)
      ++ drop after_heading content
  | append ↦
      ensure_newline (ensure_newline (take section_end_byte content) ++ text)
      ++ drop section_end_byte content
  | replace ↦
      let written = ensure_newline (take after_heading content) ++ text in
      (if ltb section_end_byte (length content) then ensure_newline written else written)
      ++ drop section_end_byte content
]

unfoldable pub patch_heading : Text → PatchRequest → Text → Result Text
patch_heading content request path =
    let offsets = line_byte_offsets content in
    resolve_heading_range (find_headings content) request.target (length (lines content)) path
    >>= λ range. ok (
        patch_at_heading content request.operation request.content
          (line_offset offsets (range.0 + 1) (length content))
          (line_offset offsets range.1 (length content)))
