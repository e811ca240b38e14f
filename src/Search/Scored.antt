-- ===== src/Search/Scored.antt =====
-- src/vault/embeddings.rs and src/vault/mod.rs: the notes that are scored for a set of paths are in it.
use obsidian_mcp_semantic_me.Base.{
  Bool, ℕ, ◌≤◌, ◌≡◌, inl, inr, true, some, List, [], ◌∷◌, length, All, Text, member, Dict, insert,
  lookup, Bool-cases, Option-cases,
}
use obsidian_mcp_semantic_me.Embeddings.{
  Float, NoteMatch, EmbeddingEntry, EmbeddingStore, Arms, note_path_of, cosine_similarity,
}
use obsidian_mcp_semantic_me.Embeddings.Ranking.{
  add_score, arms_of, collect_arms, decide, matches_of, collapse_to_notes, insert_ranked,
  sort_ranked, rank_detailed, query_paths_detailed,
}
use obsidian_mcp_semantic_me.Search.{Hit, Arithmetic}
use obsidian_mcp_semantic_me.Search.Queries.{
  blend_arm, add_share, ranks_before, hits_of, blend_scores,
}
use obsidian_mcp_semantic_me.Search.Lists.{sort_by-All, All-take, length-take_le, insert-All}

module _ {F : Type 0} (f : Float F) (paths : List Text) where
  abbrev pub AreOf : {V : Type 0} → List (Text × V) → Type 0
  AreOf = All (λ e. member e.0 paths ≡ true)

  collect_arms-AreOf :
      (query : List F) (entries : Dict (EmbeddingEntry F)) (arms : Dict (Arms F))
      → AreOf arms
      → AreOf (collect_arms f query (some paths) entries arms)
  unfolding collect_arms
  collect_arms-AreOf query [] arms h = h
  collect_arms-AreOf query ((key, entry) ∷ entries) arms h =
      let note = note_path_of key in
      let slot =
        add_score f key (cosine_similarity f query entry.vector) (arms_of f (lookup note arms)) in
      elim (Bool-cases (member note paths)) [
        | inl e ↦ rw e (
            collect_arms-AreOf query entries (insert note slot arms)
              (insert-All (λ p. member p paths ≡ true) note slot arms e h))
        | inr e ↦ rw e (collect_arms-AreOf query entries arms h)
      ]

  matches_of-AreOf : (arms : Dict (Arms F)) → AreOf arms → AreOf (matches_of f arms)
  unfolding matches_of
  matches_of-AreOf [] h = tt
  matches_of-AreOf ((note, arms) ∷ rest) (p, h) = elim (Option-cases arms.whole) [
    | inr (score, e) ↦ rw e (p, matches_of-AreOf rest h)
    | inl e ↦ elim (Option-cases (decide f arms.best_chunk arms.summary_arm)) [
      | inl d ↦ rw (e, matches_of, d) (matches_of-AreOf rest h)
      | inr (m, d) ↦ rw (e, matches_of, d) (p, matches_of-AreOf rest h)
    ]
  ]

  pub collapse_to_notes-AreOf :
      (store : EmbeddingStore F) (query : List F)
      → AreOf (collapse_to_notes f store query (some paths))
  unfolding collapse_to_notes
  collapse_to_notes-AreOf store query =
      matches_of-AreOf (collect_arms f query (some paths) store.embeddings [])
        (collect_arms-AreOf query store.embeddings [] tt)

module _ {F : Type 0} (f : Float F) (P : Text × NoteMatch F → Type 0) where
  insert_ranked-All :
      (m : Text × NoteMatch F) (ns : List (Text × NoteMatch F))
      → P m
      → All P ns
      → All P (insert_ranked f m ns)
  unfolding insert_ranked
  insert_ranked-All m [] p h = (p, tt)
  insert_ranked-All m (n ∷ ns) p (q, h) = elim (Bool-cases (f.greater n.1.score m.1.score)) [
    | inl e ↦ rw e (q, insert_ranked-All m ns p h)
    | inr e ↦ rw e (p, (q, h))
  ]

  sort_ranked-All : (ms : List (Text × NoteMatch F)) → All P ms → All P (sort_ranked f ms)
  unfolding sort_ranked
  sort_ranked-All [] h = tt
  sort_ranked-All (m ∷ ms) (p, h) = insert_ranked-All m (sort_ranked f ms) p (sort_ranked-All ms h)

  pub rank_detailed-All :
      (ms : List (Text × NoteMatch F)) (top_k : ℕ) → All P ms → All P (rank_detailed f ms top_k)
  unfolding rank_detailed
  rank_detailed-All ms top_k h = All-take P top_k (sort_ranked f ms) (sort_ranked-All ms h)

module _ {F : Type 0} (f : Float F) where
  pub length-rank_detailed :
      (ms : List (Text × NoteMatch F)) (top_k : ℕ) → length (rank_detailed f ms top_k) ≤ top_k
  unfolding rank_detailed
  length-rank_detailed ms top_k = length-take_le top_k (sort_ranked f ms)

  pub query_paths_detailed-AreOf :
      (store : EmbeddingStore F) (query : List F) (paths : List Text) (top_k : ℕ)
      → AreOf f paths (query_paths_detailed f store query paths top_k)
        × (length (query_paths_detailed f store query paths top_k) ≤ top_k)
  unfolding query_paths_detailed
  query_paths_detailed-AreOf store query paths top_k =
      let found = collapse_to_notes f store query (some paths) in
      (
        rank_detailed-All f (λ m. member m.0 paths ≡ true) found top_k
            (collapse_to_notes-AreOf f paths store query),
        length-rank_detailed found top_k,
      )

module _ {F : Type 0} (a : Arithmetic F) (paths : List Text) where
  abbrev pub AreHitsOf : List (Hit F) → Type 0
  AreHitsOf = All (λ h. member h.path paths ≡ true)

  blend_arm-AreOf :
      (keeps : Text → Bool) (share : F) (hits : List (Hit F)) (scores : List F) (blended : Dict F)
      → All (λ h. keeps h.path ≡ true → member h.path paths ≡ true) hits
      → AreOf a.floats paths blended
      → AreOf a.floats paths (blend_arm a keeps share hits scores blended)
  unfolding blend_arm add_share
  blend_arm-AreOf keeps share [] scores blended k h = h
  blend_arm-AreOf keeps share (hit ∷ hits) [] blended k h = h
  blend_arm-AreOf keeps share (hit ∷ hits) (score ∷ scores) blended (k, ks) h =
      elim (Bool-cases (keeps hit.path)) [
        | inl e ↦ rw e (
            blend_arm-AreOf keeps share hits scores (add_share a share hit.path score blended) ks
              (insert-All (λ p. member p paths ≡ true) hit.path _ blended (k e) h))
        | inr e ↦ rw e (blend_arm-AreOf keeps share hits scores blended ks h)
      ]

  hits_of-AreOf : (blended : Dict F) → AreOf a.floats paths blended → AreHitsOf (hits_of a blended)
  hits_of-AreOf [] h = tt
  hits_of-AreOf ((path, score) ∷ rest) (p, h) = (p, hits_of-AreOf rest h)

  everywhere :
      (hits : List (Hit F))
      → All (λ h. member h.path paths ≡ true → member h.path paths ≡ true) hits
  everywhere [] = tt
  everywhere (hit ∷ hits) = (λ e. e, everywhere hits)

  unconditionally :
      (hits : List (Hit F))
      → AreHitsOf hits
      → All (λ h. true ≡ true → member h.path paths ≡ true) hits
  unconditionally [] h = tt
  unconditionally (hit ∷ hits) (k, h) = (λ _. k, unconditionally hits h)

  pub blend_scores-AreHitsOf :
      (top_k : ℕ) (weight : F) (semantic lexical : List (Hit F))
      → AreHitsOf semantic
      → AreHitsOf (blend_scores a paths top_k weight semantic lexical)
        × (length (blend_scores a paths top_k weight semantic lexical) ≤ top_k)
  unfolding blend_scores
  blend_scores-AreHitsOf top_k weight semantic lexical h = (
    All-take (λ h. member h.path paths ≡ true) top_k _
        (sort_by-All (λ h. member h.path paths ≡ true) (ranks_before a) _
          (hits_of-AreOf _ (
            blend_arm-AreOf (λ path. member path paths) weight lexical _ _ (everywhere lexical)
              (blend_arm-AreOf (λ path. true) (a.sub a.one weight) semantic _ []
                (unconditionally semantic h) tt)))),
    length-take_le top_k _,
  )
