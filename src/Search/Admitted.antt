-- ===== src/Search/Admitted.antt =====
-- src/vault/mod.rs: the notes that a search answers with are notes of the index, and of the scope.
use obsidian_mcp_semantic_me.Base.{
  Option-cases, text_eq, lookup, keep, not, take, List-cases, max, none, ℕ, ◌≤◌, ◌≡◌, sym, inl, inr,
  true, ◌&&◌, Option, some, List, arith, length, All, Text, member, contains_key, Bool-cases,
}
use obsidian_mcp_semantic_me.Error.{Result-cases, ok}
use obsidian_mcp_semantic_me.Search.Queries.{
  related_notes, search_semantic_detailed, lexical_hits, candidate_depth, blend_scores,
  blend_lexical, with_match, without_match,
}
use obsidian_mcp_semantic_me.Embeddings.{EmbeddingStore, Float, summary_key, chunk_key, NoteMatch}
use obsidian_mcp_semantic_me.Search.Lists.{
  All-keep, keep-All, length-map, All-map, All-take, length-take_le, member-keep, member-keys_of,
}
use obsidian_mcp_semantic_me.Search.Scored.{
  rank_detailed-All, length-rank_detailed, collapse_to_notes-AreOf, blend_scores-AreHitsOf,
  AreHitsOf, query_paths_detailed-AreOf, AreOf,
}
use obsidian_mcp_semantic_me.Embeddings.Ranking.{
  or_else, related_to, rank_detailed, collapse_to_notes, query_paths_detailed,
}
use obsidian_mcp_semantic_me.Exclude.{Globset}
use obsidian_mcp_semantic_me.Scope.{contains}
use obsidian_mcp_semantic_me.Scope.Blocks.{narrow-contains}
use obsidian_mcp_semantic_me.Runtime.State.{current_paths}
use obsidian_mcp_semantic_me.Search.{
  embed_query, snapshot_of, EmbeddingQuerySnapshot, query_paths, semantic_scores_for_paths,
  semantic_hits_for_paths, DetailedHit, Hit, Arithmetic, VaultInner, effective_scope, scoped_paths,
}

-- The path is that of a note of the index, and the scope that the search applies contains it.
pub record IsAdmitted {F : Type 0} (g : Globset) (inner : VaultInner F) (scope : Option Text)
    (path : Text) : Type 0 where
  pub indexed : contains_key path inner.index.notes ≡ true
  pub in_scope : contains g inner.scopes (effective_scope inner scope) path ≡ true

scoped_paths-IsAdmitted :
    {F : Type 0} (g : Globset) (inner : VaultInner F) (scope : Option Text) (paths : List Text)
    → scoped_paths g inner scope ≡ ok paths
    → (p : Text) → member p paths ≡ true
    → IsAdmitted g inner scope p
unfolding scoped_paths
scoped_paths-IsAdmitted g inner scope paths h p k =
    let name = effective_scope inner scope in
    let kept : paths ≡ keep (contains g inner.scopes name) (current_paths inner.index) =
      ground (arith, narrow-contains g inner.scopes name (current_paths inner.index)) in
    let both : (contains g inner.scopes name p && contains_key p inner.index.notes) ≡ true =
      rw
        (
          sym (member-keys_of p inner.index.notes),
          sym (member-keep (contains g inner.scopes name) p (current_paths inner.index)),
          sym kept,
        )
        k in
    record { indexed = ground arith; in_scope = ground arith }

-- What the searches promise of their answer.
pub record AreAdmitted {F : Type 0} (g : Globset) (inner : VaultInner F) (scope : Option Text)
    (top_k : ℕ) (hits : List (DetailedHit F)) : Type 0 where
  pub admitted : All (λ h. IsAdmitted g inner scope h.path) hits
  pub few : length hits ≤ top_k

module _ {F : Type 0} (a : Arithmetic F) (g : Globset) (inner : VaultInner F) (scope : Option Text)
    (top_k : ℕ) (paths : List Text) where
  with_match-AreAdmitted :
      (hits : List (Text × NoteMatch F))
      → scoped_paths g inner scope ≡ ok paths
      → AreOf a.floats paths hits
      → length hits ≤ top_k
      → AreAdmitted g inner scope top_k (with_match a hits)
  with_match-AreAdmitted hits known h few = record {
    admitted =
        All-map _ _ _ (λ m k. scoped_paths-IsAdmitted g inner scope paths known m.0 k) hits h;
    few =
        rw
          (length-map {B = DetailedHit F}
            (λ m. record { path = m.0; score = m.1.score; matched = some m.1 }) hits)
          few;
  }

  without_match-AreAdmitted :
      (hits : List (Hit F))
      → scoped_paths g inner scope ≡ ok paths
      → AreHitsOf a paths hits
      → length hits ≤ top_k
      → AreAdmitted g inner scope top_k (without_match a hits)
  without_match-AreAdmitted hits known h few = record {
    admitted =
        All-map _ _ _ (λ m k. scoped_paths-IsAdmitted g inner scope paths known m.path k) hits h;
    few =
        rw
          (length-map {B = DetailedHit F}
            (λ h. record { path = h.path; score = h.score; matched = none }) hits)
          few;
  }

  blend_lexical-AreHitsOf :
      (query : Text) (snapshot : EmbeddingQuerySnapshot F) (weight : F) (hits : List (Hit F))
      → blend_lexical a inner query snapshot paths top_k weight ≡ ok hits
      → AreHitsOf a paths hits × (length hits ≤ top_k)
  unfolding blend_lexical semantic_scores_for_paths query_paths
  blend_lexical-AreHitsOf query snapshot weight hits e =
      let depth = max top_k candidate_depth in
      elim (Result-cases (embed_query a snapshot query)) [
        | inr (m, q) ↦ absurd (ground arith)
        | inl (vector, q) ↦
            let semantic = query_paths a snapshot.store vector paths depth in
            let (found, _) =
              query_paths_detailed-AreOf a.floats snapshot.store vector paths depth in
            let are : AreHitsOf a paths semantic = All-map _ _ _ (λ m k. k) _ found in
            let lexical = lexical_hits a inner.tantivy query depth in
            elim (List-cases lexical) [
              | inl n ↦
                  let same : hits ≡ take top_k semantic = ground arith in
                  rw same (All-take _ top_k semantic are, length-take_le top_k semantic)
              | inr (l, ls, n) ↦
                  let same : hits ≡ blend_scores a paths top_k weight semantic lexical =
                    ground arith in
                  rw same (blend_scores-AreHitsOf a paths top_k weight semantic lexical are)
            ]
      ]

-- If `search_semantic_detailed` answers, with the full-text index blended in or not, then every hit is a
-- note of the index that the effective scope contains, and there are at most `top_k` hits.
pub search_semantic_detailed-AreAdmitted :
    {F : Type 0} (a : Arithmetic F) (g : Globset) (inner : VaultInner F) (query : Text) (top_k : ℕ)
    (scope : Option Text) (hits : List (DetailedHit F))
    → search_semantic_detailed a g inner query top_k scope ≡ ok hits
    → AreAdmitted g inner scope top_k hits
unfolding search_semantic_detailed semantic_hits_for_paths
search_semantic_detailed-AreAdmitted a g inner query top_k scope hits e =
    elim (Result-cases (snapshot_of inner)) [
      | inr (m, s) ↦ absurd (ground arith)
      | inl (snapshot, s) ↦ elim (Result-cases (scoped_paths g inner scope)) [
        | inr (m, known) ↦ absurd (ground arith)
        | inl (paths, known) ↦ elim (Bool-cases (a.at_most a.lexical_weight a.floats.zero_value)) [
          | inl w ↦ elim (Result-cases (embed_query a snapshot query)) [
            | inr (m, q) ↦ absurd (ground arith)
            | inl (vector, q) ↦
                let found = query_paths_detailed a.floats snapshot.store vector paths top_k in
                let (are, few) =
                  query_paths_detailed-AreOf a.floats snapshot.store vector paths top_k in
                let same : hits ≡ with_match a found = ground arith in
                rw same (with_match-AreAdmitted a g inner scope top_k paths found known are few)
          ]
          | inr w ↦
              elim (Result-cases
                (blend_lexical a inner query snapshot paths top_k a.lexical_weight)) [
                  | inr (m, q) ↦ absurd (ground arith)
                  | inl (found, q) ↦
                      let (are, few) =
                        blend_lexical-AreHitsOf a g inner scope top_k paths query snapshot
                          a.lexical_weight found q in
                      let same : hits ≡ without_match a found = ground arith in
                      rw same
                        (without_match-AreAdmitted a g inner scope top_k paths found known are few)
                ]
        ]
      ]
    ]

module _ {F : Type 0} (f : Float F) where
  related_to-AreOf :
      (store : EmbeddingStore F) (note : Text) (top_k : ℕ) (paths : List Text)
      (hits : List (Text × NoteMatch F))
      → related_to f store note top_k (some paths) ≡ some hits
      → AreOf f paths hits × All (λ m. not (text_eq m.0 note) ≡ true) hits × (length hits ≤ top_k)
  unfolding related_to
  related_to-AreOf store note top_k paths hits e =
      elim (Option-cases (
        or_else f (lookup (summary_key note) store.embeddings) (
          or_else f (lookup (chunk_key note 0) store.embeddings) (lookup note store.embeddings)))) [
            | inl n ↦ absurd (ground arith)
            | inr (seed, n) ↦
                let found = collapse_to_notes f store seed.vector (some paths) in
                let others = keep (λ m. not (text_eq m.0 note)) found in
                let same : hits ≡ rank_detailed f others top_k = ground arith in
                rw same (
                  rank_detailed-All f _ others top_k
                      (All-keep _ _ found (collapse_to_notes-AreOf f paths store seed.vector)),
                  rank_detailed-All f _ others top_k (keep-All _ found),
                  length-rank_detailed f others top_k,
                )
          ]

-- If `related_notes` answers, then every hit is a note of the index that the effective scope contains,
-- there are at most `top_k` hits, and none is the note that was asked about.
pub related_notes-AreAdmitted :
    {F : Type 0} (a : Arithmetic F) (g : Globset) (inner : VaultInner F) (path : Text) (top_k : ℕ)
    (scope : Option Text) (hits : List (DetailedHit F))
    → related_notes a g inner path top_k scope ≡ ok hits
    → AreAdmitted g inner scope top_k hits × All (λ h. not (text_eq h.path path) ≡ true) hits
unfolding related_notes
related_notes-AreAdmitted a g inner path top_k scope hits e =
    elim (Result-cases (snapshot_of inner)) [
      | inr (m, s) ↦ absurd (ground arith)
      | inl (snapshot, s) ↦ elim (Result-cases (scoped_paths g inner scope)) [
        | inr (m, known) ↦ absurd (ground arith)
        | inl (paths, known) ↦
            elim (Option-cases (related_to a.floats snapshot.store path top_k (some paths))) [
              | inl r ↦ absurd (ground arith)
              | inr (found, r) ↦
                  let (are, others, few) =
                    related_to-AreOf a.floats snapshot.store path top_k paths found r in
                  let same : hits ≡ with_match a found = ground arith in
                  rw same (
                    with_match-AreAdmitted a g inner scope top_k paths found known are few,
                    All-map _ _ _ (λ m k. k) found others,
                  )
            ]
      ]
    ]
