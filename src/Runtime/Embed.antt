-- ===== src/Runtime/Embed.antt =====
-- src/vault/embedding_runtime.rs and src/vault/embeddings.rs: the texts that are embedded for a note, and
-- the calls of the provider. `embed n` is what the provider answers at its call number `n`.
use obsidian_mcp_semantic_me.Base.{
  ℕ, zero, suc, Option, none, some, List, [], ◌∷◌, ◌++◌, map, length, take, drop, Text, bytes, join,
  trim, trim_start, starts_with_whitespace, is_empty, parse_usize, to_decimal, ◌==◌, ltb, not,
  if◌then◌else◌,
}
use obsidian_mcp_semantic_me.Error.{VaultError, embedding, Result, ok, err, ◌>>=◌, NoteMetadata}
use obsidian_mcp_semantic_me.Embeddings.{Float, validate_vector, chunk_key, summary_key}
use obsidian_mcp_semantic_me.Chunker.Windows.{ChunkConfig}
use obsidian_mcp_semantic_me.Chunker.{
  Chunk, Run, done, panicked, out_of_fuel, chunk_note, prepare_chunk_embed_text,
}
use obsidian_mcp_semantic_me.Frontmatter.{get_body}
use obsidian_mcp_semantic_me.Runtime.State.{PendingKind, PendingWork, upsert}

-- `split_whitespace`: words are the longest runs without white space.
unfoldable pub first_word : Text → Text
first_word [] = []
first_word (b ∷ s) = if starts_with_whitespace (b ∷ s) then [] else b ∷ first_word s

unfoldable pub after_word : Text → Text
after_word [] = []
after_word (b ∷ s) = if starts_with_whitespace (b ∷ s) then b ∷ s else after_word s

unfoldable pub words_from : ℕ → Text → List Text
words_from zero s = []
words_from (suc fuel) s =
    let rest = trim_start s in
    if is_empty rest then [] else first_word rest ∷ words_from fuel (after_word rest)

unfoldable pub split_whitespace : Text → List Text
split_whitespace s = words_from (suc (length s)) s

abbrev pub max_body_words : ℕ
max_body_words = 400

unfoldable pub prepare_embed_text : Text → List Text → Text → Text
prepare_embed_text title headings body =
    let headings_line = join (bytes " | ") headings in
    let truncated_body = join (bytes " ") (take max_body_words (split_whitespace body)) in
    if is_empty headings_line
    then title ++ 10 ∷ truncated_body
    else title ++ 10 ∷ (headings_line ++ 10 ∷ truncated_body)

module _ (hash : Text → Text) where
  unfoldable pub note_content_hash : Text → ChunkConfig → Text → Text
  note_content_hash title config body = hash (
      title
      ++ b'|' ∷ (to_decimal config.target ++ b'|' ∷ (to_decimal config.overlap ++ b'|' ∷ body)))

pub data PreparedWork : Type 0 where
  to_remove : PendingWork → PreparedWork
  to_fail : PendingWork → VaultError → PreparedWork
  to_upsert :
      (work : PendingWork) (chunks : List (Text × Text)) (content_hash : Text) → PreparedWork

-- The runtime has its configuration from `from_env`, whose target is 100 bytes at least, so that
-- `chunk_note` returns.
abbrev pub pieces_of : Run → List Chunk
pieces_of panicked = []
pieces_of out_of_fuel = []
pieces_of (done pieces) = pieces

abbrev pub chunk_entry : Text → Text → Chunk → Text × Text
chunk_entry path title piece =
    (chunk_key path piece.index, prepare_chunk_embed_text title piece.breadcrumb piece.text)

-- The closure of `prepare_batch`, for a work that is no removal: `read` is what `read_file` gives,
-- `metadata` what the index has for the path.
module _ (hash : Text → Text) (config : ChunkConfig) where
  unfoldable pub prepare_note : PendingWork → NoteMetadata → Text → PreparedWork
  prepare_note work metadata content =
      let body = get_body content in
      elim (pieces_of (chunk_note body config)) [
        | [] ↦ to_remove work
        | piece ∷ pieces ↦
            to_upsert work
              (map (chunk_entry work.path metadata.title) (piece ∷ pieces)
                ++ (
                  summary_key work.path,
                  prepare_embed_text metadata.title (map (λ h. h.text) metadata.headings) body,
                )
                  ∷ [])
              (note_content_hash hash metadata.title config body)
      ]

  abbrev pub prepare_content : PendingWork → NoteMetadata → Result Text → PreparedWork
  prepare_content work m (err e) = to_fail work e
  prepare_content work m (ok content) = prepare_note work m content

  abbrev pub prepare_kind :
      (Text → Result Text) → PendingWork → PendingKind → Option NoteMetadata → PreparedWork
  prepare_kind read work PendingKind.remove metadata = to_remove work
  prepare_kind read work upsert none = to_remove work
  prepare_kind read work upsert (some m) = prepare_content work m (read work.path)

  unfoldable pub prepare_work :
      (Text → Result Text) → PendingWork → Option NoteMetadata → PreparedWork
  prepare_work read work metadata = prepare_kind read work work.kind metadata

module _ {F : Type 0} (f : Float F) where
  unfoldable pub validate_all : List (List F) → ℕ → Result (Unit {0})
  validate_all [] expected_dim = ok tt
  validate_all (v ∷ vectors) expected_dim =
      validate_vector f v expected_dim >>= λ u. validate_all vectors expected_dim

  unfoldable pub validate_embedding_batch : List (List F) → ℕ → ℕ → Result (List (List F))
  validate_embedding_batch vectors expected_count expected_dim =
      if not (length vectors == expected_count)
      then err (
          embedding (
            bytes "embedding backend returned "
            ++ to_decimal (length vectors)
            ++ bytes " vectors for "
            ++ to_decimal expected_count
            ++ bytes " inputs"))
      else validate_all vectors expected_dim >>= λ u. ok vectors

abbrev pub embed_sub_batch_default : ℕ
embed_sub_batch_default = 16

abbrev pub max_attempts : ℕ
max_attempts = 4

abbrev pub positive_or_default : Option ℕ → ℕ
positive_or_default none = embed_sub_batch_default
positive_or_default (some n) = if ltb 0 n then n else embed_sub_batch_default

-- `OBSIDIAN_EMBED_BATCH`
unfoldable pub sub_batch_size : Option Text → ℕ
sub_batch_size none = embed_sub_batch_default
sub_batch_size (some value) = positive_or_default (parse_usize (trim value))

-- `slice::chunks(size)`, in at most `fuel` groups
unfoldable pub groups_of {ℓ} : {A : Type ℓ} → ℕ → ℕ → List A → List (List A)
groups_of zero size xs = []
groups_of (suc fuel) size [] = []
groups_of (suc fuel) size (x ∷ xs) = take size (x ∷ xs) ∷ groups_of fuel size (drop size (x ∷ xs))

module _ {F : Type 0} (f : Float F) (dimension : ℕ)
    (embed : ℕ → List Text → Result (List (List F))) where
  abbrev pub no_error : Option VaultError → VaultError
  no_error none = embedding (bytes "embedding sub-batch failed with no error")
  no_error (some e) = e

  abbrev pub attempt_group : ℕ → List Text → Result (List (List F))
  attempt_group call group =
      embed call group >>= λ vectors. validate_embedding_batch f vectors (length group) dimension

  -- The attempts that are left for a group, with the number of the next call.
  unfoldable pub embed_group : ℕ → ℕ → List Text → Option VaultError → Result (List (List F)) × ℕ
  embed_group zero call group last_error = (err (no_error last_error), call)
  embed_group (suc attempts) call group last_error = elim (attempt_group call group) [
    | ok vectors ↦ (ok vectors, suc call)
    | err e ↦ embed_group attempts (suc call) group (some e)
  ]

  unfoldable pub embed_groups : ℕ → List (List Text) → List (List F) → Result (List (List F)) × ℕ
  embed_groups call [] out = (ok out, call)
  embed_groups call (group ∷ groups) out =
      let (result, next) = embed_group max_attempts call group none in
      elim result [ err e ↦ (err e, next) | ok vectors ↦ embed_groups next groups (out ++ vectors) ]

  unfoldable pub embed_in_sub_batches : ℕ → Option Text → List Text → Result (List (List F)) × ℕ
  embed_in_sub_batches call embed_batch texts =
      embed_groups call (groups_of (length texts) (sub_batch_size embed_batch) texts) []
