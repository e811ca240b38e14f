-- ===== src/Chunker.antt =====
-- src/vault/chunker.rs: heading-aware chunking of a note body. `Sections` has the scan for
-- headings and the packing, `Windows` the choice of split points, and this file the loop.
-- `usize` offsets never pass the length of the body, so that only `hard_max` can saturate.
pub mod Sections
pub mod Windows
pub mod Tiling
pub mod Trail
pub mod Packing
pub mod Progress
pub mod Coverage
pub mod Guarantees
mod Examples
use obsidian_mcp_semantic_me.Base.{
  ℕ, zero, suc, ◌+◌, Bool, not, ◌&&◌, is_char_boundary, List, [], ◌∷◌, ◌++◌, Text, length, drop,
  take, slice, trim, is_empty, leb, ltb, bytes, if◌then◌else◌,
}
use Sections.{Section, sections, packed_sections, crumb}
use Windows.{ChunkConfig, window, next_cursor}

pub record Chunk : Type 0 where
  pub index : ℕ
  pub breadcrumb : Text
  pub heading_path : List Text
  pub offset : ℕ
  pub text : Text

-- `chunks.push(..)`, if the piece is not blank
unfoldable pub push_piece : Section → ℕ → Text → List Chunk → List Chunk
push_piece section cursor piece chunks =
    if is_empty (trim piece)
    then chunks
    else chunks
      ++ record {
        index = length chunks;
        breadcrumb = crumb section.path;
        heading_path = section.path;
        offset = section.start + cursor;
        text = trim piece;
      }
        ∷ []

-- A run of the chunker: a slice of a string that starts or ends inside a character panics.
pub data Run : Type 0 where
  done : List Chunk → Run
  panicked out_of_fuel : Run

-- The `while cursor < raw.len()` loop, on fuel. `&raw[cursor..]` and `&remaining[..take]` are the slices.
unfoldable pub chunk_loop : ChunkConfig → Section → Text → ℕ → ℕ → List Chunk → Run
chunk_loop config section raw zero cursor chunks = out_of_fuel
chunk_loop config section raw (suc fuel) cursor chunks =
    let remaining = drop cursor raw in
    let take_len = window config remaining in
    let pushed = push_piece section cursor (take take_len remaining) chunks in
    let rest = chunk_loop config section raw fuel (next_cursor config raw cursor take_len) pushed in
    if leb (length raw) cursor
    then done chunks
    else if not (is_char_boundary raw cursor && is_char_boundary remaining take_len)
    then panicked
    else if leb (length raw) (cursor + take_len)
    then done pushed
    else rest

-- One round of `for section in walk`. A section starts and ends where lines do, so `raw` is whole
-- characters.
unfoldable pub chunk_section : ChunkConfig → Text → Section → List Chunk → Run
chunk_section config body section chunks =
    let raw = slice body section.start section.end in
    if is_empty (trim raw)
    then done chunks
    else chunk_loop config section raw (suc (length raw)) 0 chunks

unfoldable pub chunk_sections : ChunkConfig → Text → List Section → List Chunk → Run
chunk_sections config body [] chunks = done chunks
chunk_sections config body (s ∷ walk) chunks = elim (chunk_section config body s chunks) [
  | panicked ↦ panicked
  | out_of_fuel ↦ out_of_fuel
  | done more ↦ chunk_sections config body walk more
]

-- `for (i, c) in chunks.iter_mut().enumerate() { c.index = i; }`
unfoldable pub reindex : ℕ → List Chunk → List Chunk
reindex i [] = []
reindex i (c ∷ chunks) = record c { index = i } ∷ reindex (suc i) chunks

abbrev pub walk_of : ChunkConfig → Text → List Section
walk_of config body = if config.packing then packed_sections body config.target else sections body

unfoldable pub chunk_note : Text → ChunkConfig → Run
chunk_note body config = elim (chunk_sections config body (walk_of config body) []) [
  | panicked ↦ panicked
  | out_of_fuel ↦ out_of_fuel
  | done chunks ↦ done (reindex 0 chunks)
]

unfoldable pub prepare_chunk_embed_text : Text → Text → Text → Text
prepare_chunk_embed_text title breadcrumb chunk =
    if is_empty breadcrumb
    then title ++ bytes "\n" ++ chunk
    else title ++ bytes "\n" ++ breadcrumb ++ bytes "\n" ++ chunk
