-- ===== src/Search.antt =====
-- src/vault/mod.rs: the searches of the vault by meaning, alone and together with the full-text
-- index; with src/vault/search_utils.rs, and what src/vault/embedding_runtime.rs gives to a query. The
-- full-text index and the model are what they answer. A sort that is not stable is a stable one.
pub mod Queries
pub mod Lists
pub mod Scored
pub mod Admitted
pub mod Hybrid
pub mod Ranked
mod Examples
use obsidian_mcp_semantic_me.Base.{
  ℕ, ◌*◌, ◌-◌, ◌^◌, min, max, Bool, true, false, not, ◌&&◌, ◌||◌, ◌==◌, ltb, Option, none, some,
  List, [], ◌∷◌, ◌++◌, foldl, map, length, take, keep, any, Text, bytes, text_eq, member, Dict,
  lookup, insert, contains_key, is_empty, if◌then◌else◌,
}
use obsidian_mcp_semantic_me.Error.{embedding, other, Result, ok, err, ◌>>=◌}
use obsidian_mcp_semantic_me.Embeddings.{Float, NoteMatch, EmbeddingStore}
use obsidian_mcp_semantic_me.Embeddings.Ranking.{
  match_for_note, query_paths_detailed, related_to, or_else,
}
use obsidian_mcp_semantic_me.Exclude.{Globset}
use obsidian_mcp_semantic_me.Scope.{ScopeSet, all_scope, contains, require, narrow}
use obsidian_mcp_semantic_me.Index.{VaultIndex}
use obsidian_mcp_semantic_me.Runtime.State.{
  current_paths, status_for_current_paths, keys_of, is_some,
}
use obsidian_mcp_semantic_me.Runtime.Commit.{RuntimeShared}
use obsidian_mcp_semantic_me.Runtime.Coordinator.{query_snapshot}

-- More operations of `f32`, and what `query_prefix()` and `lexical_weight()` give.
pub record Arithmetic (F : Type 0) : Type 0 where
  pub floats : Float F
  pub one : F
  pub infinity : F
  pub neg_infinity : F
  pub tiny : F
  pub sub : F → F → F
  pub min_value : F → F → F
  pub max_value : F → F → F
  pub at_most : F → F → Bool
  pub query_prefix : Text
  pub lexical_weight : F

module _ (F : Type 0) where
  pub record Hit : Type 0 where
    pub path : Text
    pub score : F

  -- `search` of the full-text index: the query, and how many hits at most.
  pub record TantivyIndex : Type 0 where
    pub search : Text → ℕ → Result (List Hit)

  pub record EmbeddingRuntime : Type 0 where
    pub shared : RuntimeShared F
    pub embed_batch : List Text → Result (List (List F))

  pub record EmbeddingQuerySnapshot : Type 0 where
    pub embed_batch : List Text → Result (List (List F))
    pub store : EmbeddingStore F

  -- The fields of the vault that a search reads. `index` is the one that the runtime shares.
  pub record VaultInner : Type 0 where
    pub index : VaultIndex
    pub scopes : ScopeSet
    pub default_scope : Option Text
    pub tantivy : Option TantivyIndex
    pub embedding_runtime : Option EmbeddingRuntime

  pub record DetailedHit : Type 0 where
    pub path : Text
    pub score : F
    pub matched : Option (NoteMatch F)

module _ {A : Type 0} (before : A → A → Bool) where
  unfoldable pub insert_by : A → List A → List A
  insert_by m [] = m ∷ []
  insert_by m (n ∷ ns) = if before n m then n ∷ insert_by m ns else m ∷ n ∷ ns

  unfoldable pub sort_by : List A → List A
  sort_by [] = []
  sort_by (m ∷ ms) = insert_by m (sort_by ms)

abbrev pub last_of {ℓ} : {A : Type ℓ} → List A → Option A
last_of [] = none
last_of (x ∷ []) = some x
last_of (x ∷ y ∷ ys) = last_of (y ∷ ys)

module _ {F : Type 0} (a : Arithmetic F) where
  unfoldable pub unit_calibrate : List F → List F
  unit_calibrate scores =
      let top = foldl a.max_value a.floats.zero_value scores in
      if a.floats.greater top a.tiny
      then map (λ s. a.floats.div s top) scores
      else map (λ s. a.floats.zero_value) scores

  unfoldable pub normalize_bm25_scores : List (Hit F) → List (Hit F)
  normalize_bm25_scores hits =
      let finite_hits = keep (λ h. a.floats.is_finite h.score) hits in
      let lowest = foldl a.min_value a.infinity (map (λ h. h.score) finite_hits) in
      let highest = foldl a.max_value a.neg_infinity (map (λ h. h.score) finite_hits) in
      let range = a.sub highest lowest in
      map
        (λ h. record {
          path = h.path;
          score =
              if a.floats.equal range a.floats.zero_value
              then a.one
              else a.floats.div (a.sub h.score lowest) range;
        })
        finite_hits

  unfoldable pub embed_query : EmbeddingQuerySnapshot F → Text → Result (List F)
  embed_query snapshot query = snapshot.embed_batch ((a.query_prefix ++ query) ∷ []) >>= λ vectors.
      elim (last_of vectors) [
        | none ↦ err (embedding (bytes "embedding query returned no vector"))
        | some vector ↦ ok vector
      ]

  unfoldable pub semantic_hits_for_paths :
      EmbeddingQuerySnapshot F → Text → List Text → ℕ → Result (List (Text × NoteMatch F))
  semantic_hits_for_paths snapshot query allowed_paths top_k =
      embed_query snapshot query >>= λ query_vector.
      ok (query_paths_detailed a.floats snapshot.store query_vector allowed_paths top_k)

  -- `query_paths`, which drops how a note matched.
  unfoldable pub query_paths : EmbeddingStore F → List F → List Text → ℕ → List (Hit F)
  query_paths store query_vector allowed_paths top_k =
      map (λ m. record { path = m.0; score = m.1.score })
        (query_paths_detailed a.floats store query_vector allowed_paths top_k)

  unfoldable pub semantic_scores_for_paths :
      EmbeddingQuerySnapshot F → Text → List Text → ℕ → Result (List (Hit F))
  semantic_scores_for_paths snapshot query allowed_paths top_k =
      embed_query snapshot query >>= λ query_vector.
      ok (query_paths snapshot.store query_vector allowed_paths top_k)

  unfoldable pub best_score_for_note : EmbeddingStore F → Text → List F → Option F
  best_score_for_note store note query_vector =
      elim (match_for_note a.floats store note query_vector) [ none ↦ none | some m ↦ some m.score ]

  unfoldable pub score_for : EmbeddingQuerySnapshot F → Text → List F → F
  score_for snapshot path query_vector =
      elim (best_score_for_note snapshot.store path query_vector) [
        | none ↦ a.floats.zero_value
        | some score ↦ score
      ]

  unfoldable pub blend_score_for : EmbeddingQuerySnapshot F → Text → List F → F
  blend_score_for snapshot path query_vector =
      let weight = a.max_value a.floats.summary_weight a.one in
      a.floats.div (score_for snapshot path query_vector) weight

module _ {F : Type 0} where
  unfoldable pub effective_scope : VaultInner F → Option Text → Text
  effective_scope inner requested = elim requested [
    | some name ↦ name
    | none ↦ elim inner.default_scope [ none ↦ all_scope | some name ↦ name ]
  ]

  unfoldable pub scope_note_count : Globset → VaultInner F → Text → ℕ
  scope_note_count g inner name =
      if text_eq name all_scope
      then length inner.index.notes
      else length (keep (λ path. contains g inner.scopes name path) (current_paths inner.index))

  unfoldable pub scoped_paths : Globset → VaultInner F → Option Text → Result (List Text)
  scoped_paths g inner requested =
      narrow g inner.scopes (effective_scope inner requested) (current_paths inner.index)

  -- `query_snapshot` of the runtime, with the index that it shares with the vault.
  unfoldable pub snapshot_of : VaultInner F → Result (EmbeddingQuerySnapshot F)
  snapshot_of inner = elim inner.embedding_runtime [
    | none ↦ err (embedding (bytes "embeddings not enabled (OBSIDIAN_EMBEDDINGS=false)"))
    | some runtime ↦ query_snapshot (record runtime.shared { index = inner.index }) >>= λ store.
        ok (record { embed_batch = runtime.embed_batch; store = store })
  ]

  unfoldable pub has_embeddings : VaultInner F → Bool
  has_embeddings inner = elim inner.embedding_runtime [
    | none ↦ false
    | some runtime ↦
        (status_for_current_paths runtime.shared.state runtime.shared.store
          (current_paths inner.index)).queryable
  ]
