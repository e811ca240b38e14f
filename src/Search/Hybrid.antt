-- ===== src/Search/Hybrid.antt =====
-- src/vault/mod.rs, `search_hybrid_scoped`: which hits of the full-text index it answers with.
use obsidian_mcp_semantic_me.Base.{
  take, keep, arith, Bool-cases, contains_key, ◌≤◌, is_empty, true, false, some, text_eq,
  Option-cases, refl, [], ◌∷◌, inr, inl, ◌≡◌, Text, Option, List, ℕ, All, Any, length,
}
use obsidian_mcp_semantic_me.Error.{Result-cases, ok}
use obsidian_mcp_semantic_me.Search.{
  sort_by, embed_query, effective_scope, snapshot_of, normalize_bm25_scores, Globset, Arithmetic,
  Hit, VaultInner, EmbeddingQuerySnapshot, TantivyIndex,
}
use obsidian_mcp_semantic_me.Scope.{contains, all_scope, require}
use obsidian_mcp_semantic_me.Search.Queries.{
  rerank, combine_scores, search_hybrid_scoped, scoped_hits, prefetch_of,
}
use obsidian_mcp_semantic_me.Search.Lists.{
  length-take_le, sort_by-All, keep-All, All-keep, All-map, All-take,
}
use obsidian_mcp_semantic_me.Search.Admitted.{IsAdmitted}

module _ {A B : Type 0} (f : A → B) where
  All-later :
      (x : A) (xs ys : List A)
      → All (λ y. Any (λ z. f z ≡ f y) xs) ys
      → All (λ y. Any (λ z. f z ≡ f y) (x ∷ xs)) ys
  All-later x xs [] h = tt
  All-later x xs (y ∷ ys) (p, h) = (inr p, All-later x xs ys h)

  -- Every element of a list has the same value as one of it.
  All-self : (xs : List A) → All (λ y. Any (λ z. f z ≡ f y) xs) xs
  All-self [] = tt
  All-self (x ∷ xs) = (inl refl, All-later x xs xs (All-self xs))

module _ {A : Type 0} (P Q : A → Type 0) where
  All-both : (xs : List A) → All P xs → All Q xs → All (λ x. P x × Q x) xs
  All-both [] p q = tt
  All-both (x ∷ xs) (p, ps) (q, qs) = ((p, q), All-both xs ps qs)

  All-apply : ((x : A) → P x → Q x) → (xs : List A) → All P xs → All Q xs
  All-apply f [] h = tt
  All-apply f (x ∷ xs) (p, h) = (f x p, All-apply f xs h)

-- A hit of a hybrid search: its note is admitted, and has a hit of the full-text index.
pub record IsFound {F : Type 0} (g : Globset) (inner : VaultInner F) (scope : Option Text)
    (bm25_hits : List (Hit F)) (hit : Hit F) : Type 0 where
  pub admitted : IsAdmitted g inner scope hit.path
  pub matched : Any (λ b. b.path ≡ hit.path) bm25_hits

module _ {F : Type 0} (a : Arithmetic F) (g : Globset) (inner : VaultInner F) where
  module _ (P : Text → Type 0) where
    normalize_bm25_scores-All :
        (hits : List (Hit F))
        → All (λ h. P h.path) hits
        → All (λ h. P h.path) (normalize_bm25_scores a hits)
    unfolding normalize_bm25_scores
    normalize_bm25_scores-All hits h =
        All-map _ _ _ (λ b k. k) _ (All-keep (λ h. P h.path) _ hits h)

    rerank-All :
        (snapshot : EmbeddingQuerySnapshot F) (query : Text) (top_k : ℕ) (alpha : F)
        (bm25_hits hits : List (Hit F))
        → All (λ h. P h.path) bm25_hits
        → rerank a g inner snapshot query top_k alpha bm25_hits ≡ ok hits
        → All (λ h. P h.path × (contains_key h.path inner.index.notes ≡ true)) hits
          × (length hits ≤ top_k)
    unfolding rerank combine_scores
    rerank-All snapshot query top_k alpha [] hits h e =
        let same : hits ≡ [] = ground arith in rw same (tt, omega arith)
    rerank-All snapshot query top_k alpha (b ∷ bs) hits h e =
        elim (Result-cases (embed_query a snapshot query)) [
          | inr (m, q) ↦ absurd (ground arith)
          | inl (vector, q) ↦
              let normal = normalize_bm25_scores a (b ∷ bs) in
              let kept = keep (λ h. contains_key h.path inner.index.notes) normal in
              let sorted =
                sort_by (λ h k. a.floats.greater h.score k.score)
                  (combine_scores a g inner snapshot vector alpha (b ∷ bs)) in
              let same : hits ≡ take top_k sorted = ground arith in
              let both =
                All-both (λ h. P h.path) (λ h. contains_key h.path inner.index.notes ≡ true) kept
                  (All-keep (λ h. P h.path) _ normal (normalize_bm25_scores-All (b ∷ bs) h))
                  (keep-All _ normal) in
              rw same (
                All-take _ top_k sorted (sort_by-All _ _ _ (All-map _ _ _ (λ h k. k) kept both)),
                length-take_le top_k sorted,
              )
        ]

  contains-all :
      (name path : Text) → text_eq name all_scope ≡ true → contains g inner.scopes name path ≡ true
  unfolding contains
  contains-all name path e = rw e refl

  scoped_hits-All :
      (name : Text) (hits : List (Hit F))
      → All
          (λ h. (contains g inner.scopes name h.path ≡ true) × Any (λ b. b.path ≡ h.path) hits)
          (scoped_hits a g inner name hits)
  unfolding scoped_hits
  scoped_hits-All name hits = elim (Bool-cases (text_eq name all_scope)) [
    | inl e ↦
        rw e (
          All-apply _ _ (λ h k. (contains-all name h.path e, k)) hits (All-self (λ h. h.path) hits))
    | inr e ↦
        rw e (All-both _ _ _ (keep-All _ hits) (All-keep _ _ hits (All-self (λ h. h.path) hits)))
  ]

-- The answers that make up an answer of `search_hybrid_scoped` to a query that is not empty.
pub record IsRun {F : Type 0} (a : Arithmetic F) (g : Globset) (inner : VaultInner F) (query : Text)
    (top_k prefetch_count : ℕ) (alpha : F) (scope : Option Text) (hits : List (Hit F))
    : Type 0 where
  pub tv : TantivyIndex F
  pub snapshot : EmbeddingQuerySnapshot F
  pub bm25_hits : List (Hit F)
  pub enabled : inner.tantivy ≡ some tv
  pub queryable : snapshot_of inner ≡ ok snapshot
  pub searched :
      tv.search query (prefetch_of a g (effective_scope inner scope) prefetch_count top_k)
      ≡ ok bm25_hits
  pub reranked :
      rerank a g inner snapshot query top_k alpha
        (scoped_hits a g inner (effective_scope inner scope) bm25_hits)
      ≡ ok hits

pub search_hybrid_scoped-IsRun :
    {F : Type 0} (a : Arithmetic F) (g : Globset) (inner : VaultInner F) (query : Text)
    (top_k prefetch_count : ℕ) (alpha : F) (scope : Option Text) (hits : List (Hit F))
    → is_empty query ≡ false
    → search_hybrid_scoped a g inner query top_k prefetch_count alpha scope ≡ ok hits
    → IsRun a g inner query top_k prefetch_count alpha scope hits
unfolding search_hybrid_scoped
search_hybrid_scoped-IsRun a g inner query top_k prefetch_count alpha scope hits n h =
    let name = effective_scope inner scope in
    elim (Result-cases (require inner.scopes name)) [
      | inr (m, r) ↦ absurd (ground arith)
      | inl (u, r) ↦ elim (Option-cases inner.tantivy) [
        | inl t ↦ absurd (ground arith)
        | inr (tv, t) ↦ elim (Result-cases (snapshot_of inner)) [
          | inr (m, s) ↦ absurd (ground arith)
          | inl (snapshot, s) ↦
              elim (Result-cases (tv.search query (prefetch_of a g name prefetch_count top_k))) [
                | inr (m, b) ↦ absurd (ground arith)
                | inl (bm25_hits, b) ↦ record {
                  tv = tv;
                  snapshot = snapshot;
                  bm25_hits = bm25_hits;
                  enabled = t;
                  queryable = s;
                  searched = b;
                  reranked = ground arith;
                }
              ]
        ]
      ]
    ]

-- What `search_hybrid_scoped` promises of its answer.
pub record AreFound {F : Type 0} (a : Arithmetic F) (g : Globset) (inner : VaultInner F)
    (query : Text) (top_k prefetch_count : ℕ) (scope : Option Text) (hits : List (Hit F))
    : Type 0 where
  pub tv : TantivyIndex F
  pub bm25_hits : List (Hit F)
  pub enabled : inner.tantivy ≡ some tv
  pub searched :
      tv.search query (prefetch_of a g (effective_scope inner scope) prefetch_count top_k)
      ≡ ok bm25_hits
  pub found : All (IsFound g inner scope bm25_hits) hits
  pub few : length hits ≤ top_k

-- If `search_hybrid_scoped` answers to a query that is not empty, then there is a full-text index, it
-- answered to a search with the number of candidates for the scope, and every hit is one of those
-- candidates, a note of the index, and in the effective scope. There are at most `top_k` hits.
pub search_hybrid_scoped-AreFound :
    {F : Type 0} (a : Arithmetic F) (g : Globset) (inner : VaultInner F) (query : Text)
    (top_k prefetch_count : ℕ) (alpha : F) (scope : Option Text) (hits : List (Hit F))
    → is_empty query ≡ false
    → search_hybrid_scoped a g inner query top_k prefetch_count alpha scope ≡ ok hits
    → AreFound a g inner query top_k prefetch_count scope hits
search_hybrid_scoped-AreFound a g inner query top_k prefetch_count alpha scope hits n h =
    let name = effective_scope inner scope in
    let run =
      search_hybrid_scoped-IsRun a g inner query top_k prefetch_count alpha scope hits n h in
    let (found, few) =
      rerank-All a g inner
        (λ path.
          (contains g inner.scopes name path ≡ true) × Any (λ b. b.path ≡ path) run.bm25_hits)
        run.snapshot query top_k alpha _ hits (scoped_hits-All a g inner name run.bm25_hits)
        run.reranked in
    record {
      tv = run.tv;
      bm25_hits = run.bm25_hits;
      enabled = run.enabled;
      searched = run.searched;
      found =
          All-apply _ _
            (λ h ((c, f), i). record {
              admitted = record { indexed = i; in_scope = c };
              matched = f;
            })
            hits found;
      few = few;
    }
