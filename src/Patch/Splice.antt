-- ===== src/Patch/Splice.antt =====
-- src/vault/patch.rs: what a patch at a heading does to the lines of a note.
use obsidian_mcp_semantic_me.Base.{ℕ, ◌+◌, List, ◌++◌, take, drop, Text, is_empty, if◌then◌else◌}
use obsidian_mcp_semantic_me.Patch.{PatchOperation, append, prepend, replace, ensure_newline}
use obsidian_mcp_semantic_me.Patch.Lines.{concat}

-- The note with `text` put in, for a section from line `heading_line` to `section_end`: below the
-- heading, or below the section, or in place of what is below the heading.
unfoldable pub patched_lines : List Text → PatchOperation → Text → ℕ → ℕ → Text
patched_lines ls operation text heading_line section_end =
    let head = concat (take (heading_line + 1) ls) in
    let tail = concat (drop section_end ls) in
    elim operation [
      | prepend ↦
          ensure_newline (ensure_newline head ++ text) ++ concat (drop (heading_line + 1) ls)
      | append ↦ ensure_newline (ensure_newline (concat (take section_end ls)) ++ text) ++ tail
      | replace ↦
          (if is_empty tail
            then ensure_newline head ++ text
            else ensure_newline (ensure_newline head ++ text))
          ++ tail
    ]
