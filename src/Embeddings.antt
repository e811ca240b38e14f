-- ===== src/Embeddings.antt =====
-- src/vault/embeddings.rs: the store of vectors in memory, its keys and its ranking. The numbers
-- `f32` are a parameter. A path is valid UTF-8. The hash map is an association list, gone through
-- in its order; where notes have the same score, the order of a ranking is that of the list.
pub mod Ranking
pub mod Keys
pub mod Slices
pub mod Examples
use obsidian_mcp_semantic_me.Base.{
  ℕ, zero, suc, ◌+◌, ◌==◌, leb, Bool, true, false, not, ◌&&◌, ◌||◌, Option, none, some, List, [],
  ◌∷◌, ◌++◌, length, take, any, keep, map, foldl, Text, bytes, text_eq, split_once, member, Dict,
  lookup, insert, remove, contains_key, to_decimal, parse_usize, if◌then◌else◌,
}
use obsidian_mcp_semantic_me.Error.{VaultError, embedding, Result, ok, err, ◌>>=◌}

-- The operations of `f32`, and `summary_weight()`.
pub record Float (F : Type 0) : Type 0 where
  pub zero_value : F
  pub add : F → F → F
  pub mul : F → F → F
  pub div : F → F → F
  pub sqrt : F → F
  pub greater : F → F → Bool
  pub equal : F → F → Bool
  pub is_finite : F → Bool
  pub summary_weight : F

abbrev pub chunk_sep : ℕ
chunk_sep = 0

unfoldable pub chunk_key : Text → ℕ → Text
chunk_key note index = note ++ chunk_sep ∷ to_decimal index

abbrev pub note_of : Text → Option (Text × Text) → Text
note_of key none = key
note_of key (some (note, suffix)) = note

unfoldable pub note_path_of : Text → Text
note_path_of key = note_of key (split_once chunk_sep key)

abbrev pub summary_marker : Text
summary_marker = bytes "s"

unfoldable pub summary_key : Text → Text
summary_key note = note ++ chunk_sep ∷ summary_marker

unfoldable pub is_summary_key : Text → Bool
is_summary_key key = elim (split_once chunk_sep key) [
  | none ↦ false
  | some (note, suffix) ↦ text_eq suffix summary_marker
]

unfoldable pub chunk_index_of : Text → Option ℕ
chunk_index_of key = elim (split_once chunk_sep key) [
  | none ↦ none
  | some (note, suffix) ↦ parse_usize suffix
]

pub data MatchedOn : Type 0 where
  chunk : ℕ → MatchedOn
  summary whole_note : MatchedOn

module _ (F : Type 0) where
  pub record NoteMatch : Type 0 where
    pub winner : MatchedOn
    pub score : F
    pub best_chunk : Option (ℕ × F)
    pub summary_score : Option F

  pub record EmbeddingEntry : Type 0 where
    pub vector : List F
    pub content_hash : Option Text

  -- The identity of the vector space is not modelled.
  pub record EmbeddingStore : Type 0 where
    pub embeddings : Dict EmbeddingEntry
    pub dim : ℕ
    pub first_pass_complete : Bool

  -- `Arms` of `collapse_to_notes`
  pub record Arms : Type 0 where
    pub best_chunk : Option (ℕ × F)
    pub summary_arm : Option F
    pub whole : Option F

module _ {F : Type 0} (f : Float F) where
  unfoldable pub cosine_fold : List F → List F → F → F → F → F × (F × F)
  cosine_fold [] b d na nb = (d, (na, nb))
  cosine_fold (x ∷ a) [] d na nb = (d, (na, nb))
  cosine_fold (x ∷ a) (y ∷ b) d na nb =
      cosine_fold a b (f.add d (f.mul x y)) (f.add na (f.mul x x)) (f.add nb (f.mul y y))

  unfoldable pub cosine_similarity : List F → List F → F
  cosine_similarity a b =
      let (dot, (norm_a, norm_b)) = cosine_fold a b f.zero_value f.zero_value f.zero_value in
      if f.equal norm_a f.zero_value || f.equal norm_b f.zero_value
      then f.zero_value
      else f.div dot (f.mul (f.sqrt norm_a) (f.sqrt norm_b))

  unfoldable pub validate_vector : List F → ℕ → Result (Unit {0})
  validate_vector vector expected =
      if not (length vector == expected)
      then err (
          embedding (
            bytes "embedding dimension mismatch: expected "
            ++ to_decimal expected
            ++ bytes ", got "
            ++ to_decimal (length vector)))
      else if any (λ x. not (f.is_finite x)) vector
      then err (embedding (bytes "embedding vector contains a non-finite value"))
      else ok tt

  unfoldable pub insert_vector : EmbeddingStore F → Text → List F → EmbeddingStore F
  insert_vector store path vector = elim (validate_vector vector store.dim) [
    | err e ↦ store
    | ok u ↦ record store {
      embeddings = insert path (record { vector = vector; content_hash = none }) store.embeddings;
      first_pass_complete = false;
    }
  ]

  unfoldable pub insert_hashed : EmbeddingStore F → Text → Text → List F → Result (EmbeddingStore F)
  insert_hashed store path hash vector = validate_vector vector store.dim >>= λ u.
      ok (record store {
        embeddings =
            insert path (record { vector = vector; content_hash = some hash }) store.embeddings;
      })

module _ {F : Type 0} where
  unfoldable pub has_note : EmbeddingStore F → Text → Bool
  has_note store note =
      contains_key (chunk_key note 0) store.embeddings
      || contains_key (summary_key note) store.embeddings

  -- `retain`, with the test of the key
  unfoldable pub retain : (Text → Bool) → Dict (EmbeddingEntry F) → Dict (EmbeddingEntry F)
  retain test [] = []
  retain test ((key, entry) ∷ entries) =
      if test key then (key, entry) ∷ retain test entries else retain test entries

  -- The store that is left, and whether anything went.
  unfoldable pub remove_note : EmbeddingStore F → Text → EmbeddingStore F × Bool
  remove_note store note =
      let left = retain (λ key. not (text_eq (note_path_of key) note)) store.embeddings in
      (record store { embeddings = left }, not (length left == length store.embeddings))

  unfoldable pub retain_paths : EmbeddingStore F → List Text → EmbeddingStore F × Bool
  retain_paths store paths =
      let left = retain (λ key. member (note_path_of key) paths) store.embeddings in
      (record store { embeddings = left }, not (length left == length store.embeddings))
