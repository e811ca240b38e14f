-- ===== src/Search/Queries.antt =====
-- src/vault/mod.rs: the searches by meaning, with or without the full-text index.
use obsidian_mcp_semantic_me.Base.{
  path_lt, false, true, ℕ, ◌*◌, ◌-◌, ◌^◌, min, max, Bool, not, ◌&&◌, ◌||◌, Option, none, some, List,
  [], ◌∷◌, ◌++◌, map, take, keep, Text, bytes, text_eq, member, Dict, lookup, insert, contains_key,
  is_empty, if◌then◌else◌,
}
use obsidian_mcp_semantic_me.Error.{embedding, other, Result, ok, err, ◌>>=◌}
use obsidian_mcp_semantic_me.Embeddings.{NoteMatch}
use obsidian_mcp_semantic_me.Embeddings.Ranking.{related_to}
use obsidian_mcp_semantic_me.Exclude.{Globset}
use obsidian_mcp_semantic_me.Scope.{all_scope, contains, require}
use obsidian_mcp_semantic_me.Search.{
  Arithmetic, Hit, TantivyIndex, EmbeddingQuerySnapshot, VaultInner, DetailedHit, sort_by,
  unit_calibrate, normalize_bm25_scores, embed_query, semantic_hits_for_paths,
  semantic_scores_for_paths, blend_score_for, effective_scope, scoped_paths, snapshot_of,
}

abbrev pub candidate_depth : ℕ
candidate_depth = 200

abbrev pub scoped_prefetch_factor : ℕ
scoped_prefetch_factor = 8

abbrev pub max_scoped_prefetch : ℕ
max_scoped_prefetch = 2000

abbrev pub usize_max : ℕ
usize_max = 2 ^ 64 - 1

abbrev pub saturating_mul : ℕ → ℕ → ℕ
saturating_mul n m = min (n * m) usize_max

abbrev pub unwrap_or_default : {A : Type 0} → Result (List A) → List A
unwrap_or_default (ok hits) = hits
unwrap_or_default (err e) = []

module _ {F : Type 0} (a : Arithmetic F) where
  abbrev pub or_zero : Option F → F
  or_zero none = a.floats.zero_value
  or_zero (some score) = score

  -- `*blended.entry(path.clone()).or_insert(0.0) += share * score`
  unfoldable pub add_share : F → Text → F → Dict F → Dict F
  add_share share path score blended =
      insert path (a.floats.add (or_zero (lookup path blended)) (a.floats.mul share score)) blended

  -- The two loops over the arms; `keeps` is the test of the second one.
  unfoldable pub blend_arm : (Text → Bool) → F → List (Hit F) → List F → Dict F → Dict F
  blend_arm keeps share [] scores blended = blended
  blend_arm keeps share (hit ∷ hits) [] blended = blended
  blend_arm keeps share (hit ∷ hits) (score ∷ scores) blended =
      blend_arm keeps share hits scores
        (if keeps hit.path then add_share share hit.path score blended else blended)

  -- The order of the ranking: the greater score, then the path.
  abbrev pub ranks_before : Hit F → Hit F → Bool
  ranks_before h k =
      a.floats.greater h.score k.score
      || not (a.floats.greater k.score h.score) && path_lt h.path k.path

  abbrev pub hits_of : Dict F → List (Hit F)
  hits_of [] = []
  hits_of ((path, score) ∷ rest) = record { path = path; score = score } ∷ hits_of rest

  unfoldable pub blend_scores : List Text → ℕ → F → List (Hit F) → List (Hit F) → List (Hit F)
  blend_scores current_paths top_k weight semantic lexical =
      let sem_scores = unit_calibrate a (map (λ h. h.score) semantic) in
      let lex_scores = unit_calibrate a (map (λ h. h.score) lexical) in
      let first = blend_arm (λ path. true) (a.sub a.one weight) semantic sem_scores [] in
      let blended = blend_arm (λ path. member path current_paths) weight lexical lex_scores first in
      take top_k (sort_by ranks_before (hits_of blended))

  abbrev pub lexical_hits : Option (TantivyIndex F) → Text → ℕ → List (Hit F)
  lexical_hits none query depth = []
  lexical_hits (some tv) query depth = unwrap_or_default (tv.search query depth)

  abbrev is_empty_hits : List (Hit F) → Bool
  is_empty_hits [] = true
  is_empty_hits (h ∷ hs) = false

  unfoldable pub blend_lexical :
      VaultInner F → Text → EmbeddingQuerySnapshot F → List Text → ℕ → F → Result (List (Hit F))
  blend_lexical inner query snapshot current_paths top_k weight =
      let depth = max top_k candidate_depth in
      semantic_scores_for_paths a snapshot query current_paths depth >>= λ semantic.
      let lexical = lexical_hits inner.tantivy query depth in
      if is_empty_hits lexical
      then ok (take top_k semantic)
      else ok (blend_scores current_paths top_k weight semantic lexical)

  abbrev pub with_match : List (Text × NoteMatch F) → List (DetailedHit F)
  with_match = map (λ m. record { path = m.0; score = m.1.score; matched = some m.1 })

  abbrev pub without_match : List (Hit F) → List (DetailedHit F)
  without_match = map (λ h. record { path = h.path; score = h.score; matched = none })

  module _ (g : Globset) where
    unfoldable pub search_semantic_detailed :
        VaultInner F → Text → ℕ → Option Text → Result (List (DetailedHit F))
    search_semantic_detailed inner query top_k scope = snapshot_of inner >>= λ snapshot.
        scoped_paths g inner scope >>= λ current_paths.
        let weight = a.lexical_weight in
        let detailed = semantic_hits_for_paths a snapshot query current_paths top_k >>= λ hits.
        ok (with_match hits) in
        let blended = blend_lexical inner query snapshot current_paths top_k weight >>= λ hits.
        ok (without_match hits) in
        if a.at_most weight a.floats.zero_value then detailed else blended

    unfoldable pub search_semantic_scoped :
        VaultInner F → Text → ℕ → Option Text → Result (List (Hit F))
    search_semantic_scoped inner query top_k scope =
        search_semantic_detailed inner query top_k scope >>= λ hits.
        ok (map (λ h. record { path = h.path; score = h.score }) hits)

    unfoldable pub related_notes :
        VaultInner F → Text → ℕ → Option Text → Result (List (DetailedHit F))
    related_notes inner path top_k scope = snapshot_of inner >>= λ snapshot.
        scoped_paths g inner scope >>= λ current_paths.
        elim (related_to a.floats snapshot.store path top_k (some current_paths)) [
          | none ↦ err (
              embedding
                (path ++ bytes " has no embeddings yet (not indexed, or not in this vault)"))
          | some hits ↦ ok (with_match hits)
        ]

    unfoldable pub prefetch_of : Text → ℕ → ℕ → ℕ
    prefetch_of scope_name prefetch_count top_k =
        if not (text_eq scope_name all_scope)
        then min (saturating_mul (max prefetch_count top_k) scoped_prefetch_factor)
            max_scoped_prefetch
        else max prefetch_count top_k

    unfoldable pub scoped_hits : VaultInner F → Text → List (Hit F) → List (Hit F)
    scoped_hits inner scope_name hits =
        if not (text_eq scope_name all_scope)
        then keep (λ h. contains g inner.scopes scope_name h.path) hits
        else hits

    -- The hits of the full-text index that are notes, with `alpha * norm + (1 - alpha) * semantic`.
    unfoldable pub combine_scores :
        VaultInner F → EmbeddingQuerySnapshot F → List F → F → List (Hit F) → List (Hit F)
    combine_scores inner snapshot query_vector alpha bm25_hits =
        map
          (λ h. record {
            path = h.path;
            score =
                a.floats.add (a.floats.mul alpha h.score) (
                  a.floats.mul (a.sub a.one alpha)
                    (blend_score_for a snapshot h.path query_vector));
          })
          (keep (λ h. contains_key h.path inner.index.notes) (normalize_bm25_scores a bm25_hits))

    unfoldable pub rerank :
        VaultInner F
        → EmbeddingQuerySnapshot F
        → Text
        → ℕ
        → F
        → List (Hit F)
        → Result (List (Hit F))
    rerank inner snapshot query top_k alpha [] = ok []
    rerank inner snapshot query top_k alpha (h ∷ hs) =
        embed_query a snapshot query >>= λ query_vector. ok (
          take top_k (
            sort_by (λ h k. a.floats.greater h.score k.score)
              (combine_scores inner snapshot query_vector alpha (h ∷ hs))))

    unfoldable pub search_hybrid_scoped :
        VaultInner F → Text → ℕ → ℕ → F → Option Text → Result (List (Hit F))
    search_hybrid_scoped inner query top_k prefetch_count alpha scope =
        if is_empty query
        then ok []
        else (let scope_name = effective_scope inner scope in
            require inner.scopes scope_name >>= λ known. elim inner.tantivy [
              | none ↦
                  err (other (bytes "hybrid search requires Tantivy (set OBSIDIAN_TANTIVY=true)"))
              | some tv ↦ snapshot_of inner >>= λ snapshot.
                  tv.search query (prefetch_of scope_name prefetch_count top_k) >>= λ hits.
                  rerank inner snapshot query top_k alpha (scoped_hits inner scope_name hits)
            ])
