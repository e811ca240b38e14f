-- ===== src/Embeddings/Examples.antt =====
-- Runs of src/vault/embeddings.rs, with natural numbers for `f32`.
use obsidian_mcp_semantic_me.Base.{
  parse_usize, to_decimal, ℕ, ◌+◌, ◌*◌, ltb, ◌==◌, ◌≡◌, refl, true, none, some, List, [], ◌∷◌, Text,
  bytes, ◌++◌, base_runs,
}
use obsidian_mcp_semantic_me.Embeddings.{
  Float, NoteMatch, EmbeddingEntry, EmbeddingStore, chunk, summary, chunk_key, note_path_of,
  summary_key, is_summary_key, chunk_index_of, cosine_fold, cosine_similarity, validate_vector,
  insert_vector, insert_hashed, has_note, retain, remove_note, retain_paths,
}
use obsidian_mcp_semantic_me.Embeddings.Ranking.{
  decide, best_of_chunks, match_for_note, add_score, collect_arms, matches_of, collapse_to_notes,
  insert_ranked, sort_ranked, rank_detailed, query_detailed, query_paths_detailed, related_to,
}
use obsidian_mcp_semantic_me.Embeddings.Slices.{query_paths_detailed-retain_paths}

unfoldable pub runs : Unit {0}
unfolding base_runs to_decimal parse_usize chunk_key note_path_of summary_key is_summary_key
    chunk_index_of cosine_fold cosine_similarity validate_vector insert_vector insert_hashed decide
    best_of_chunks match_for_note add_score collect_arms matches_of collapse_to_notes insert_ranked
    sort_ranked rank_detailed query_detailed query_paths_detailed related_to has_note retain
    remove_note retain_paths
runs = tt

abbrev pub floats : Float ℕ
floats = record {
  zero_value = 0;
  add = λ a b. a + b;
  mul = λ a b. a * b;
  div = λ a b. a;
  sqrt = λ a. a;
  greater = λ a b. ltb b a;
  equal = λ a b. a == b;
  is_finite = λ a. true;
  summary_weight = 2;
}

abbrev entry : List ℕ → EmbeddingEntry ℕ
entry vector = record { vector = vector; content_hash = none }

abbrev a_chunk : Text
a_chunk = bytes "a.md" ++ 0 ∷ bytes "0"

abbrev b_summary : Text
b_summary = bytes "b.md" ++ 0 ∷ bytes "s"

abbrev pub store : EmbeddingStore ℕ
store = record {
  embeddings = (a_chunk, entry (3 ∷ 0 ∷ [])) ∷ (b_summary, entry (1 ∷ 0 ∷ [])) ∷ [];
  dim = 2;
  first_pass_complete = true;
}

abbrev pub a_match : NoteMatch ℕ
a_match = record { winner = chunk 0; score = 3; best_chunk = some (0, 3); summary_score = none }

abbrev b_match : NoteMatch ℕ
b_match = record { winner = summary; score = 2; best_chunk = none; summary_score = some 2 }

abbrev pub b_related : NoteMatch ℕ
b_related = record { winner = summary; score = 6; best_chunk = none; summary_score = some 6 }

embedding_runs :
    (query_detailed floats store (1 ∷ 0 ∷ []) 5
      ≡ (bytes "a.md", a_match) ∷ (bytes "b.md", b_match) ∷ [])
    × (query_paths_detailed floats store (1 ∷ 0 ∷ []) (bytes "a.md" ∷ []) 5
        ≡ (bytes "a.md", a_match) ∷ [])
    × (match_for_note floats store (bytes "b.md") (1 ∷ 0 ∷ []) ≡ some b_match)
    × (related_to floats store (bytes "a.md") 1 none ≡ some ((bytes "b.md", b_related) ∷ []))
    × ((remove_note store (bytes "a.md")).1 ≡ true)
    × (insert_vector floats store (bytes "c.md") (1 ∷ []) ≡ store)
unfolding runs
embedding_runs = (refl, refl, refl, refl, refl, refl)

query_paths_detailed-retain_paths_example :
    query_paths_detailed floats store (1 ∷ 0 ∷ []) (bytes "b.md" ∷ []) 1
    ≡ query_detailed floats (retain_paths store (bytes "b.md" ∷ [])).0 (1 ∷ 0 ∷ []) 1
query_paths_detailed-retain_paths_example =
    query_paths_detailed-retain_paths floats store (1 ∷ 0 ∷ []) (bytes "b.md" ∷ []) 1
