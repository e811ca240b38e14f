-- ===== src/Embeddings/Slices.antt =====
-- src/vault/embeddings.rs, and what src/vault/scope.rs says of it: a query within a set of notes is a
-- query of a store that holds these notes alone.
use obsidian_mcp_semantic_me.Base.{
  ℕ, ◌≡◌, refl, inl, inr, Bool, true, false, not, ◌&&◌, Option, none, some, List, [], ◌∷◌, arith,
  Text, text_eq, text_eq_iff, member, Dict, lookup, insert, contains_key, has_byte, Bool-cases,
}
use obsidian_mcp_semantic_me.Embeddings.{
  Float, NoteMatch, EmbeddingEntry, EmbeddingStore, Arms, chunk_key, chunk_sep, note_path_of,
  summary_key, cosine_similarity, has_note, retain, remove_note, retain_paths,
}
use obsidian_mcp_semantic_me.Embeddings.Ranking.{
  add_score, arms_of, collect_arms, collapse_to_notes, query_detailed, query_paths_detailed, decide,
}
use obsidian_mcp_semantic_me.Embeddings.Keys.{note_path_of-chunk_key}

collect_arms-retain :
    {F : Type 0} (f : Float F) (query : List F) (paths : List Text)
    (entries : Dict (EmbeddingEntry F)) (arms : Dict (Arms F))
    → collect_arms f query (some paths) entries arms
      ≡ collect_arms f query none (retain (λ key. member (note_path_of key) paths) entries) arms
unfolding collect_arms retain
collect_arms-retain f query paths [] arms = refl
collect_arms-retain f query paths ((key, entry) ∷ entries) arms =
    let note = note_path_of key in
    let slot =
      add_score f key (cosine_similarity f query entry.vector) (arms_of f (lookup note arms)) in
    elim (Bool-cases (member note paths)) [
      | inl e ↦
          rw (e, collect_arms, retain)
            (collect_arms-retain f query paths entries (insert note slot arms))
      | inr e ↦ rw (e, collect_arms, retain) (collect_arms-retain f query paths entries arms)
    ]

-- The best notes for a query among the notes of `paths` are those of the query on the store from
-- which `retain_paths` took all other notes: no other note has a part in a score or in the ranking.
pub query_paths_detailed-retain_paths :
    {F : Type 0} (f : Float F) (store : EmbeddingStore F) (query : List F) (paths : List Text)
    (top_k : ℕ)
    → query_paths_detailed f store query paths top_k
      ≡ query_detailed f (retain_paths store paths).0 query top_k
unfolding query_paths_detailed query_detailed collapse_to_notes retain_paths
query_paths_detailed-retain_paths f store query paths top_k =
    rw (collect_arms-retain f query paths store.embeddings []) refl

contains_key-retain :
    {F : Type 0} (test : Text → Bool) (key : Text) (entries : Dict (EmbeddingEntry F))
    → contains_key key (retain test entries) ≡ (test key && contains_key key entries)
unfolding lookup retain
contains_key-retain test key [] = ground arith
contains_key-retain test key ((k, entry) ∷ entries) = ground (
  arith,
  contains_key-retain test key entries,
  text_eq_iff k key,
  Bool-cases (test k),
  Bool-cases (test key),
)

-- After `remove_note` the store has every note that it had before, but not the one that was removed,
-- for notes whose paths have no NUL.
pub has_note-remove_note :
    {F : Type 0} (store : EmbeddingStore F) (note other : Text)
    → has_byte chunk_sep other ≡ false
    → has_note (remove_note store note).0 other ≡ (not (text_eq other note) && has_note store other)
unfolding has_note remove_note
has_note-remove_note store note other h =
    let (of_chunk, _, _, of_summary, _, _) = note_path_of-chunk_key other 0 h (omega arith) in
    rw
      (
        contains_key-retain (λ key. not (text_eq (note_path_of key) note)) (chunk_key other 0)
            store.embeddings,
        contains_key-retain (λ key. not (text_eq (note_path_of key) note)) (summary_key other)
            store.embeddings,
        of_chunk,
        of_summary,
      )
      (ground arith)

-- After `retain_paths` the store has those of its notes that are in the set, for a note whose path
-- has no NUL.
pub has_note-retain_paths :
    {F : Type 0} (store : EmbeddingStore F) (paths : List Text) (note : Text)
    → has_byte chunk_sep note ≡ false
    → has_note (retain_paths store paths).0 note ≡ (member note paths && has_note store note)
unfolding has_note retain_paths
has_note-retain_paths store paths note h =
    let (of_chunk, _, _, of_summary, _, _) = note_path_of-chunk_key note 0 h (omega arith) in
    rw
      (
        contains_key-retain (λ key. member (note_path_of key) paths) (chunk_key note 0)
            store.embeddings,
        contains_key-retain (λ key. member (note_path_of key) paths) (summary_key note)
            store.embeddings,
        of_chunk,
        of_summary,
      )
      (ground arith)

abbrev pub score_of : {F : Type 0} → Option (ℕ × F) → Option F
score_of none = none
score_of (some (i, score)) = some score

-- There is a score, and it is greater than `limit`.
abbrev pub is_over : {F : Type 0} → Float F → Option F → F → Bool
is_over f none limit = false
is_over f (some score) limit = f.greater score limit

-- Where `decide` gives a match, neither the best chunk nor the summary has a greater score than the
-- match; it needs that of two numbers not both are greater than the other.
pub decide-score :
    {F : Type 0} (f : Float F) (best : Option (ℕ × F)) (summary_score : Option F) (m : NoteMatch F)
    → ((a b : F) → f.greater a b ≡ true → f.greater b a ≡ false)
    → decide f best summary_score ≡ some m
    → (is_over f (score_of best) m.score ≡ false) × (is_over f summary_score m.score ≡ false)
unfolding decide
decide-score f none none m asymmetric h = absurd (ground arith)
decide-score f none (some s) m asymmetric h = (refl, ground (arith, asymmetric s s))
decide-score f (some (j, t)) none m asymmetric h = (ground (arith, asymmetric t t), refl)
decide-score f (some (j, t)) (some s) m asymmetric h =
    (ground (arith, asymmetric t t, asymmetric s t), ground (arith, asymmetric s s, asymmetric s t))
