-- ===== src/Search/Ranked.antt =====
-- src/vault/mod.rs, `search_hybrid_scoped`: the answer has the best candidates, best first.
use mathlib.Core.List.{Permᴰ}
use obsidian_mcp_semantic_me.Base.{
  ◌⊎◌, ℕ, ◌≡◌, refl, inl, inr, Bool, true, false, Option, List, [], ◌∷◌, ◌++◌, All, take, drop,
  take-append-drop, Text, is_empty, arith, Bool-cases,
}
use obsidian_mcp_semantic_me.Error.{ok, Result-cases}
use obsidian_mcp_semantic_me.Search.Hybrid.{IsRun, search_hybrid_scoped-IsRun}
use obsidian_mcp_semantic_me.Exclude.{Globset}
use obsidian_mcp_semantic_me.Search.{
  Arithmetic, Hit, VaultInner, EmbeddingQuerySnapshot, effective_scope, embed_query, insert_by,
  sort_by,
}
use obsidian_mcp_semantic_me.Search.Queries.{
  combine_scores, scoped_hits, rerank, search_hybrid_scoped,
}
use obsidian_mcp_semantic_me.Search.Lists.{insert_by-All}

Perm-refl : {A : Type 0} (xs : List A) → Permᴰ xs xs
Perm-refl [] = Permᴰ.nil
Perm-refl (x ∷ xs) = Permᴰ.cons refl (Perm-refl xs)

module _ {A : Type 0} (before : A → A → Bool) where
  -- No element of the list comes before an earlier one.
  abbrev pub IsRanked : List A → Type 0
  IsRanked [] = Unit {0}
  IsRanked (x ∷ xs) = All (λ y. before y x ≡ false) xs × IsRanked xs

  insert_by-Perm : (x : A) (xs : List A) → Permᴰ (x ∷ xs) (insert_by before x xs)
  unfolding insert_by
  insert_by-Perm x [] = Perm-refl (x ∷ [])
  insert_by-Perm x (y ∷ ys) = elim (Bool-cases (before y x)) [
    | inl e ↦ rw e (Permᴰ.trans (Permᴰ.swap refl refl) (Permᴰ.cons refl (insert_by-Perm x ys)))
    | inr e ↦ rw e (Perm-refl (x ∷ y ∷ ys))
  ]

  sort_by-Perm : (xs : List A) → Permᴰ xs (sort_by before xs)
  unfolding sort_by
  sort_by-Perm [] = Permᴰ.nil
  sort_by-Perm (x ∷ xs) =
      Permᴰ.trans (Permᴰ.cons refl (sort_by-Perm xs)) (insert_by-Perm x (sort_by before xs))

  module _ (asymmetric : (x y : A) → before x y ≡ true → before y x ≡ false)
      (transitive : (x y z : A)
        → before x y ≡ false
        → before y z ≡ false
        → before x z ≡ false) where
    bound_moves :
        (x y : A) (ys : List A)
        → before y x ≡ false
        → All (λ z. before z y ≡ false) ys
        → All (λ z. before z x ≡ false) ys
    bound_moves x y [] e h = tt
    bound_moves x y (z ∷ zs) e (p, h) = (transitive z y x p e, bound_moves x y zs e h)

    insert_by-IsRanked : (x : A) (xs : List A) → IsRanked xs → IsRanked (insert_by before x xs)
    unfolding insert_by
    insert_by-IsRanked x [] h = (tt, tt)
    insert_by-IsRanked x (y ∷ ys) (p, h) = elim (Bool-cases (before y x)) [
      | inl e ↦ rw e (
        insert_by-All (λ z. before z y ≡ false) before x ys (asymmetric y x e) p,
        insert_by-IsRanked x ys h,
      )
      | inr e ↦ rw e ((e, bound_moves x y ys e p), (p, h))
    ]

    sort_by-IsRanked : (xs : List A) → IsRanked (sort_by before xs)
    unfolding sort_by
    sort_by-IsRanked [] = tt
    sort_by-IsRanked (x ∷ xs) = insert_by-IsRanked x (sort_by before xs) (sort_by-IsRanked xs)

-- `hits` are the first `top_k` of the candidates `all` in an order where none comes before an earlier one.
pub record IsBest {A : Type 0} (before : A → A → Bool) (top_k : ℕ) (all hits : List A)
    : Type 0 where
  pub rest : List A
  pub same : Permᴰ all (hits ++ rest)
  pub ranked : IsRanked before (hits ++ rest)
  pub cut : hits ≡ take top_k (hits ++ rest)

abbrev pub scores_before : {F : Type 0} → Arithmetic F → Hit F → Hit F → Bool
scores_before a h k = a.floats.greater h.score k.score

module _ {F : Type 0} (a : Arithmetic F) (g : Globset) (inner : VaultInner F) where
  -- How the candidates are ranked: by the numbers of `combine_scores`, for the vector of the query.
  pub record AreBest (snapshot : EmbeddingQuerySnapshot F) (query : Text) (top_k : ℕ) (alpha : F)
      (candidates hits : List (Hit F)) : Type 0 where
    pub query_vector : List F
    pub embedded : embed_query a snapshot query ≡ ok query_vector
    pub best :
        IsBest
          (λ h k. a.floats.greater h.score k.score)
          top_k
          (combine_scores a g inner snapshot query_vector alpha candidates)
          hits

  module _ (asymmetric : (x y : F) → a.floats.greater x y ≡ true → a.floats.greater y x ≡ false)
      (transitive : (x y z : F)
        → a.floats.greater x y ≡ false
        → a.floats.greater y z ≡ false
        → a.floats.greater x z ≡ false) where
    rerank-AreBest :
        (snapshot : EmbeddingQuerySnapshot F) (query : Text) (top_k : ℕ) (alpha : F)
        (candidates hits : List (Hit F))
        → rerank a g inner snapshot query top_k alpha candidates ≡ ok hits
        → ((candidates ≡ []) × (hits ≡ [])) ⊎ AreBest snapshot query top_k alpha candidates hits
    unfolding rerank
    rerank-AreBest snapshot query top_k alpha [] hits e = inl (refl, ground arith)
    rerank-AreBest snapshot query top_k alpha (b ∷ bs) hits e =
        elim (Result-cases (embed_query a snapshot query)) [
          | inr (m, q) ↦ absurd (ground arith)
          | inl (vector, q) ↦
              let before : Hit F → Hit F → Bool = λ h k. a.floats.greater h.score k.score in
              let all = combine_scores a g inner snapshot vector alpha (b ∷ bs) in
              let sorted = sort_by before all in
              let same : hits ≡ take top_k sorted = ground arith in
              inr (record {
                query_vector = vector;
                embedded = q;
                best = rw same (record {
                  rest = drop top_k sorted;
                  same = rw (take-append-drop top_k sorted) (sort_by-Perm before all);
                  ranked = rw (take-append-drop top_k sorted) (
                      sort_by-IsRanked before (λ h k. asymmetric h.score k.score)
                        (λ h k l. transitive h.score k.score l.score) all);
                  cut = rw (take-append-drop top_k sorted) refl;
                });
              })
        ]

-- If `search_hybrid_scoped` answers to a query that is not empty, then its candidates are the hits of
-- the full-text index in the effective scope. Where there are any, the candidates that are notes of the
-- index, with their combined scores, have an order in which none has a greater score than an
-- earlier one, and the answer is the first `top_k` of it; where there are none, it is empty. It needs that
-- no number is NaN: of two not both are greater than the other, and not being greater is transitive.
pub search_hybrid_scoped-AreBest :
    {F : Type 0} (a : Arithmetic F) (g : Globset) (inner : VaultInner F) (query : Text)
    (top_k prefetch_count : ℕ) (alpha : F) (scope : Option Text) (hits : List (Hit F))
    → ((x y : F) → a.floats.greater x y ≡ true → a.floats.greater y x ≡ false)
    → ((x y z : F)
        → a.floats.greater x y ≡ false
        → a.floats.greater y z ≡ false
        → a.floats.greater x z ≡ false)
    → is_empty query ≡ false
    → search_hybrid_scoped a g inner query top_k prefetch_count alpha scope ≡ ok hits
    → (run : IsRun a g inner query top_k prefetch_count alpha scope hits) × let candidates =
          scoped_hits a g inner (effective_scope inner scope) run.bm25_hits in
        ((candidates ≡ []) × (hits ≡ []))
        ⊎ AreBest a g inner run.snapshot query top_k alpha candidates hits
search_hybrid_scoped-AreBest a g inner query top_k prefetch_count alpha scope hits asymmetric
      transitive n h =
    let run =
      search_hybrid_scoped-IsRun a g inner query top_k prefetch_count alpha scope hits n h in
    (
      run,
      rerank-AreBest a g inner asymmetric transitive run.snapshot query top_k alpha _ hits
          run.reranked,
    )
