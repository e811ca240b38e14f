-- ===== src/Embeddings/Keys.antt =====
-- src/vault/embeddings.rs: the keys of the store.
use obsidian_mcp_semantic_me.Base.{
  ℕ, ◌<◌, ◌^◌, ◌≡◌, refl, true, false, none, some, arith, Text, text_eq_iff, text_eq_refl,
  parse_usize-letter, has_byte, split_once-append, to_decimal, parse_usize-to_decimal,
}
use obsidian_mcp_semantic_me.Embeddings.{
  chunk_sep, chunk_key, note_path_of, summary_key, summary_marker, is_summary_key, chunk_index_of,
}

-- For a note whose path has no NUL, and an index of 64 bits: the key of a chunk gives back the note and
-- the index and is no summary key; the key of the summary gives back the note, is a summary key and
-- has no chunk index.
pub note_path_of-chunk_key :
    (note : Text) (index : ℕ)
    → has_byte chunk_sep note ≡ false
    → index < 2 ^ 64
    → (note_path_of (chunk_key note index) ≡ note)
      × (chunk_index_of (chunk_key note index) ≡ some index)
      × (is_summary_key (chunk_key note index) ≡ false)
      × (note_path_of (summary_key note) ≡ note)
      × (is_summary_key (summary_key note) ≡ true)
      × (chunk_index_of (summary_key note) ≡ none)
unfolding note_path_of chunk_key summary_key is_summary_key chunk_index_of
note_path_of-chunk_key note index h small =
    let cut = split_once-append chunk_sep note (to_decimal index) h in
    let cut_summary = split_once-append chunk_sep note summary_marker h in
    let letter = parse_usize-letter b's' (omega arith) in
    (
      rw (cut, note_path_of, chunk_key) refl,
      rw (cut, chunk_index_of, chunk_key) (parse_usize-to_decimal index small),
      rw (cut, is_summary_key, chunk_key)
          (ground (
            arith,
            text_eq_iff (to_decimal index) summary_marker,
            parse_usize-to_decimal index small,
            letter,
          )),
      rw (cut_summary, note_path_of, summary_key) refl,
      rw (cut_summary, is_summary_key, summary_key) (text_eq_refl summary_marker),
      rw (cut_summary, chunk_index_of, summary_key) letter,
    )
