-- ===== src/Chunker/Examples.antt =====
-- Runs of the chunker, and its guarantees at concrete notes.
use obsidian_mcp_semantic_me.Base.{
  ◌≡◌, refl, not, false, true, Bool, ltb, ◌&&◌, IsUtf8, one, List, [], ◌∷◌, arith, Text, bytes, All,
  keep, trim, trim_start, trim_end, starts_with, starts_with_whitespace, count_leading,
  split_inclusive, rfind, is_char_boundary,
}
use obsidian_mcp_semantic_me.Chunker.Sections.{
  crumb, pop_to, is_fence, is_heading, open_heading, toggle_fence, scan_line, sections,
  is_blank_section, pack_from, pack, packed_sections,
}
use obsidian_mcp_semantic_me.Chunker.Windows.{
  ChunkConfig, hard_max, floor_boundary, ceil_boundary, split_at_first, split_point, window,
  next_cursor,
}
use obsidian_mcp_semantic_me.Chunker.Tiling.{join_slices, join_slices-sections}
use obsidian_mcp_semantic_me.Chunker.Packing.{IsPacked, packed_sections-IsPacked}
use obsidian_mcp_semantic_me.Chunker.Coverage.{IsSeen, Fits}
use obsidian_mcp_semantic_me.Chunker.Guarantees.{chunk_note_total, chunk_note_covers}
use obsidian_mcp_semantic_me.Chunker.{
  Chunk, done, panicked, push_piece, chunk_loop, chunk_section, chunk_sections, reindex, chunk_note,
}

-- All that a run computes with.
runs : Unit {0}
unfolding trim trim_start trim_end starts_with starts_with_whitespace count_leading split_inclusive
    rfind is_char_boundary crumb pop_to is_fence is_heading open_heading toggle_fence scan_line
    sections pack_from pack packed_sections hard_max floor_boundary ceil_boundary split_at_first
    split_point window next_cursor push_piece chunk_loop chunk_section chunk_sections reindex
    chunk_note
runs = tt

abbrev small : ChunkConfig
small = record { target = 20; overlap = 4; packing = false }

abbrev note : Text
note = bytes "# A\nText one. Text two. More.\n## B\nLast."

abbrev first_chunk : Chunk
first_chunk = record {
  index = 0;
  breadcrumb = bytes "A";
  heading_path = bytes "A" ∷ [];
  offset = 0;
  text = bytes "# A\nText one.";
}

abbrev expected : List Chunk
expected =
    first_chunk
    ∷ record {
      index = 1;
      breadcrumb = bytes "A";
      heading_path = bytes "A" ∷ [];
      offset = 10;
      text = bytes "ne. Text two. More.";
    }
    ∷ record {
      index = 2;
      breadcrumb = bytes "A > B";
      heading_path = bytes "A" ∷ bytes "B" ∷ [];
      offset = 30;
      text = bytes "## B\nLast.";
    }
    ∷ []

-- A body of ASCII.
abbrev ascii : Text → Bool
ascii [] = true
ascii (b ∷ s) = ltb b 128 && ascii s

ascii-IsUtf8 : (s : Text) → ascii s ≡ true → IsUtf8 s
ascii-IsUtf8 [] h = IsUtf8.done
ascii-IsUtf8 (b ∷ s) h = one b s (ground arith) (ascii-IsUtf8 s (ground arith))

note-IsUtf8 : IsUtf8 note
note-IsUtf8 = ascii-IsUtf8 note refl

-- A target of one byte ends within one.
abbrev euros : Text
euros = 226 ∷ 130 ∷ 172 ∷ 226 ∷ 130 ∷ 172 ∷ []

euros_run : chunk_note euros (record { target = 1; overlap = 0; packing = false }) ≡ panicked
unfolding runs
euros_run = refl

chunk_note_run : chunk_note note small ≡ done expected
unfolding runs
chunk_note_run = refl

chunk_note_total_example :
    (cs : List Chunk) × (chunk_note note small ≡ done cs) × All (Fits small) cs
chunk_note_total_example = chunk_note_total note small note-IsUtf8 (omega arith)

chunk_note_covers_example :
    (cs : List Chunk) × (chunk_note note small ≡ done cs) × IsSeen note 12 cs
chunk_note_covers_example = chunk_note_covers note small 12 note-IsUtf8 (omega arith) (omega arith)

join_slices-sections_example : join_slices note (sections note) ≡ note
join_slices-sections_example = join_slices-sections note

packed_sections-IsPacked_example :
    All
      (IsPacked 100 (keep (λ s. not (is_blank_section note s)) (sections note)))
      (packed_sections note 100)
packed_sections-IsPacked_example = packed_sections-IsPacked note 100

-- A fenced `#` is no heading.
fence_run : sections (bytes "```\n# no\n```\nx") ≡ record { path = []; start = 0; end = 14 } ∷ []
unfolding runs
fence_run = refl

-- Two short sections are packed into one, which keeps the path of the first.
packed_run :
    packed_sections (bytes "# A\nx\n# B\ny") 50
    ≡ record { path = bytes "A" ∷ []; start = 0; end = 11 } ∷ []
unfolding runs
packed_run = refl
