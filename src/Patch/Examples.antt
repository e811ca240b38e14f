-- ===== src/Patch/Examples.antt =====
-- Runs of src/vault/patch.rs.
use obsidian_mcp_semantic_me.Base.{some, none, ℕ, ◌≡◌, refl, Text, bytes, base_runs}
use obsidian_mcp_semantic_me.Error.{ok, err, patch_target_not_found}
use obsidian_mcp_semantic_me.Patch.{
  PatchOperation, append, prepend, replace, heading, PatchRequest, offsets_from, line_byte_offsets,
  line_offset, scan_body_line, scan_patch_line, non_code_from, for_each_non_code_line,
  parse_heading, normalize_heading_target_segment, headings_of, find_headings, ensure_newline,
  eq_ignore_ascii_case, find_heading, find_segment, section_end, resolve_segments,
  resolve_heading_range, patch_at_heading, patch_heading,
}
use obsidian_mcp_semantic_me.Patch.{block}
use obsidian_mcp_semantic_me.Base.{◌⊎◌}
use obsidian_mcp_semantic_me.Patch.Blocks.{
  find_block_ref_line, first_ref, ends_with_ref, replace_block, patch_block_line, patch_block,
  block_not_found,
}
use obsidian_mcp_semantic_me.Patch.Refs.{id_of, patched_ref, patch_block-lines}
use obsidian_mcp_semantic_me.Patch.Headings.{IsSection, resolve_heading_range-IsSection}

runs : Unit {0}
unfolding base_runs offsets_from line_byte_offsets line_offset scan_body_line scan_patch_line
    non_code_from for_each_non_code_line parse_heading normalize_heading_target_segment headings_of
    find_headings ensure_newline eq_ignore_ascii_case find_heading find_segment section_end
    resolve_segments resolve_heading_range patch_at_heading patch_heading
runs = tt

abbrev note : Text
note = bytes "# A\nx\n## B\n```\n# no\n```\n# C\nlast"

abbrev request : PatchOperation → Text → PatchRequest
request operation target = record {
  operation = operation;
  target_type = heading;
  target = target;
  content = bytes "new";
}

abbrev patched : Text
patched = bytes "# A\nx\n## B\nnew\n# C\nlast"

patch_runs :
    (patch_heading note (request replace (bytes "a :: ## b")) (bytes "n") ≡ ok patched)
    × (patch_heading note (request append (bytes "C")) (bytes "n")
        ≡ ok (bytes "# A\nx\n## B\n```\n# no\n```\n# C\nlast\nnew\n"))
    × (patch_heading note (request prepend (bytes "no")) (bytes "n")
        ≡ err (patch_target_not_found (bytes "n") (bytes "heading") (bytes "no")))
unfolding runs
patch_runs = (refl, refl, refl)

resolve_heading_range-IsSection_example : IsSection (find_headings note) 8 2 6
unfolding runs
resolve_heading_range-IsSection_example =
    resolve_heading_range-IsSection note (bytes "a::b") 8 (bytes "n") (2, 6) refl

abbrev block_request : PatchRequest
block_request = record {
  operation = replace;
  target_type = block;
  target = bytes "^id";
  content = bytes "new";
}

abbrev block_note : Text
block_note = bytes "a\nold ^id\nb"

-- The second run is on a last line without a newline: the text is put right behind the reference.
block_runs :
    (patch_block block_note block_request (bytes "n") ≡ ok (bytes "a\nnew ^id\nb"))
    × (patch_block (bytes "old ^id") (record block_request { operation = append }) (bytes "n")
        ≡ ok (bytes "old ^idnew\n"))
    × (patch_block block_note (record block_request { operation = append }) (bytes "n")
        ≡ ok (bytes "a\nold ^id\nnew\nb"))
unfolding runs find_block_ref_line first_ref ends_with_ref replace_block patch_block_line
    patch_block
block_runs = (refl, refl, refl)

patch_block-lines_example :
    ((find_block_ref_line block_note (id_of block_request) ≡ none)
      × (patch_block block_note block_request (bytes "n")
          ≡ err (block_not_found block_request (bytes "n"))))
    ⊎ ((i : ℕ) × (find_block_ref_line block_note (id_of block_request) ≡ some i)
        × (patch_block block_note block_request (bytes "n")
            ≡ patched_ref block_note block_request (bytes "n") i))
patch_block-lines_example = patch_block-lines block_note block_request (bytes "n")
