-- ===== src/Patch/Blocks.antt =====
-- src/vault/patch.rs: patches at a block reference.
use obsidian_mcp_semantic_me.Base.{
  ℕ, ◌+◌, ◌-◌, ◌==◌, Bool, ◌&&◌, ◌||◌, Option, none, some, List, [], ◌∷◌, ◌++◌, length, take, drop,
  slice, get_elem?, reverse, Text, bytes, is_empty, ends_with, strip_prefix, rfind, trim_end,
  if◌then◌else◌,
}
use obsidian_mcp_semantic_me.Error.{VaultError, patch_target_not_found, Result, ok, err}
use obsidian_mcp_semantic_me.Patch.{
  append, prepend, replace, PatchRequest, line_byte_offsets, line_offset, or_len,
  for_each_non_code_line, ensure_newline,
}

abbrev pub or_same : Text → Option Text → Text
or_same s none = s
or_same s (some t) = t

-- Whether a line ends with the marker, with a space or nothing in front of it.
unfoldable pub ends_with_ref : Text → Text → Bool
ends_with_ref suffix line =
    let trimmed = trim_end line in
    let before = take (length trimmed - length suffix) trimmed in
    ends_with suffix trimmed && (is_empty before || ends_with (bytes " ") before)

unfoldable pub first_ref : Text → List (ℕ × Text) → Option ℕ
first_ref suffix [] = none
first_ref suffix ((idx, line) ∷ rest) =
    if ends_with_ref suffix line then some idx else first_ref suffix rest

unfoldable pub find_block_ref_line : Text → Text → Option ℕ
find_block_ref_line content block_id = first_ref (b'^' ∷ block_id) (for_each_non_code_line content)

abbrev pub drop_eol : Text → Text
drop_eol [] = []
drop_eol (b ∷ s) = if b == b'\r' || b == b'\n' then drop_eol s else b ∷ s

-- `trim_end_matches(['\r', '\n'])`
abbrev pub trim_eol : Text → Text
trim_eol s = reverse (drop_eol (reverse s))

unfoldable pub block_not_found : PatchRequest → Text → VaultError
block_not_found request path = patch_target_not_found path (bytes "block") request.target

abbrev pub with_space : Text → Text
with_space [] = []
with_space (b ∷ s) = (b ∷ s) ++ bytes " "

unfoldable pub replace_block : Text → PatchRequest → Text → Text → ℕ → ℕ → Result Text
replace_block content request path block_id line_start line_end =
    let trimmed = trim_eol (slice content line_start line_end) in
    elim (rfind (b'^' ∷ block_id) trimmed) [
      | none ↦ err (block_not_found request path)
      | some ref_pos ↦ ok (
          take line_start content
          ++ with_space request.content
          ++ drop ref_pos trimmed
          ++ slice content (line_start + length trimmed) line_end
          ++ drop line_end content)
    ]

unfoldable pub patch_block_line : Text → PatchRequest → Text → Text → ℕ → Result Text
patch_block_line content request path block_id block_line =
    let offsets = line_byte_offsets content in
    let line_start = or_len 0 (get_elem? offsets block_line) in
    let line_end = line_offset offsets (block_line + 1) (length content) in
    elim request.operation [
      | prepend ↦
          ok
            (ensure_newline (take line_start content ++ request.content) ++ drop line_start content)
      | append ↦
          ok (ensure_newline (take line_end content ++ request.content) ++ drop line_end content)
      | replace ↦ replace_block content request path block_id line_start line_end
    ]

unfoldable pub patch_block : Text → PatchRequest → Text → Result Text
patch_block content request path =
    let block_id = or_same request.target (strip_prefix (bytes "^") request.target) in
    elim (find_block_ref_line content block_id) [
      | none ↦ err (block_not_found request path)
      | some block_line ↦ patch_block_line content request path block_id block_line
    ]
