-- ===== src/Embeddings/Ranking.antt =====
-- src/vault/embeddings.rs: the scores of notes for a query, and their ranking.
use obsidian_mcp_semantic_me.Base.{
  ℕ, zero, suc, Bool, true, not, Option, none, some, List, [], ◌∷◌, length, take, keep, Text,
  text_eq, member, Dict, lookup, insert, if◌then◌else◌,
}
use obsidian_mcp_semantic_me.Embeddings.{
  Float, NoteMatch, EmbeddingEntry, EmbeddingStore, Arms, chunk, summary, whole_note, chunk_key,
  note_path_of, summary_key, is_summary_key, chunk_index_of, cosine_similarity,
}

module _ {F : Type 0} (f : Float F) where
  -- `is_none_or(|(_, current)| score > current)`
  abbrev pub better : ℕ → F → Option (ℕ × F) → Option (ℕ × F)
  better index score none = some (index, score)
  better index score (some (i, current)) =
      if f.greater score current then some (index, score) else some (i, current)

  unfoldable pub decide : Option (ℕ × F) → Option F → Option (NoteMatch F)
  decide none none = none
  decide none (some summary_score) = some (record {
    winner = summary;
    score = summary_score;
    best_chunk = none;
    summary_score = some summary_score;
  })
  decide (some (i, score)) none = some (record {
    winner = chunk i;
    score = score;
    best_chunk = some (i, score);
    summary_score = none;
  })
  decide (some (i, score)) (some summary_score) =
      if f.greater summary_score score
      then some (record {
        winner = summary;
        score = summary_score;
        best_chunk = some (i, score);
        summary_score = some summary_score;
      })
      else some (record {
        winner = chunk i;
        score = score;
        best_chunk = some (i, score);
        summary_score = some summary_score;
      })

  abbrev pub whole_match : F → NoteMatch F
  whole_match score = record {
    winner = whole_note;
    score = score;
    best_chunk = none;
    summary_score = none;
  }

  -- The `while let` loop over the chunks of a note. There are at most as many as entries.
  unfoldable pub best_of_chunks :
      ℕ → Dict (EmbeddingEntry F) → Text → List F → ℕ → Option (ℕ × F) → Option (ℕ × F)
  best_of_chunks zero embeddings note query index best = best
  best_of_chunks (suc fuel) embeddings note query index best =
      elim (lookup (chunk_key note index) embeddings) [
        | none ↦ best
        | some entry ↦
            best_of_chunks fuel embeddings note query (suc index)
              (better index (cosine_similarity f query entry.vector) best)
      ]

  unfoldable pub match_for_note : EmbeddingStore F → Text → List F → Option (NoteMatch F)
  match_for_note store note query = elim (lookup note store.embeddings) [
    | some entry ↦ some (whole_match (cosine_similarity f query entry.vector))
    | none ↦
        decide (best_of_chunks (suc (length store.embeddings)) store.embeddings note query 0 none)
          (elim (lookup (summary_key note) store.embeddings) [
            | none ↦ none
            | some entry ↦ some (f.mul f.summary_weight (cosine_similarity f query entry.vector))
          ])
  ]

  abbrev pub empty_arms : Arms F
  empty_arms = record { best_chunk = none; summary_arm = none; whole = none }

  abbrev pub arms_of : Option (Arms F) → Arms F
  arms_of none = empty_arms
  arms_of (some arms) = arms

  -- The slot of a note after an entry of it.
  unfoldable pub add_score : Text → F → Arms F → Arms F
  add_score key cosine slot =
      if is_summary_key key
      then record slot { summary_arm = some (f.mul f.summary_weight cosine) }
      else elim (chunk_index_of key) [
        | some index ↦ record slot { best_chunk = better index cosine slot.best_chunk }
        | none ↦ record slot { whole = some cosine }
      ]

  abbrev pub is_allowed : Option (List Text) → Text → Bool
  is_allowed none note = true
  is_allowed (some notes) note = member note notes

  unfoldable pub collect_arms :
      List F → Option (List Text) → Dict (EmbeddingEntry F) → Dict (Arms F) → Dict (Arms F)
  collect_arms query allowed [] arms = arms
  collect_arms query allowed ((key, entry) ∷ entries) arms =
      let note = note_path_of key in
      let slot =
        add_score key (cosine_similarity f query entry.vector) (arms_of (lookup note arms)) in
      collect_arms query allowed entries
        (if is_allowed allowed note then insert note slot arms else arms)

  abbrev pub match_of_arms : Arms F → Option (NoteMatch F)
  match_of_arms arms = elim arms.whole [
    | some score ↦ some (whole_match score)
    | none ↦ decide arms.best_chunk arms.summary_arm
  ]

  unfoldable pub matches_of : Dict (Arms F) → List (Text × NoteMatch F)
  matches_of [] = []
  matches_of ((note, arms) ∷ rest) = elim (match_of_arms arms) [
    | none ↦ matches_of rest
    | some m ↦ (note, m) ∷ matches_of rest
  ]

  unfoldable pub collapse_to_notes :
      EmbeddingStore F → List F → Option (List Text) → List (Text × NoteMatch F)
  collapse_to_notes store query allowed =
      matches_of (collect_arms query allowed store.embeddings [])

  unfoldable pub insert_ranked :
      Text × NoteMatch F → List (Text × NoteMatch F) → List (Text × NoteMatch F)
  insert_ranked m [] = m ∷ []
  insert_ranked m (n ∷ ns) =
      if f.greater n.1.score m.1.score then n ∷ insert_ranked m ns else m ∷ n ∷ ns

  unfoldable pub sort_ranked : List (Text × NoteMatch F) → List (Text × NoteMatch F)
  sort_ranked [] = []
  sort_ranked (m ∷ ms) = insert_ranked m (sort_ranked ms)

  unfoldable pub rank_detailed : List (Text × NoteMatch F) → ℕ → List (Text × NoteMatch F)
  rank_detailed scored top_k = take top_k (sort_ranked scored)

  unfoldable pub query_detailed : EmbeddingStore F → List F → ℕ → List (Text × NoteMatch F)
  query_detailed store query top_k = rank_detailed (collapse_to_notes store query none) top_k

  unfoldable pub query_paths_detailed :
      EmbeddingStore F → List F → List Text → ℕ → List (Text × NoteMatch F)
  query_paths_detailed store query allowed_paths top_k =
      rank_detailed (collapse_to_notes store query (some allowed_paths)) top_k

  abbrev pub or_else : {A : Type 0} → Option A → Option A → Option A
  or_else none o = o
  or_else (some a) o = some a

  unfoldable pub related_to :
      EmbeddingStore F → Text → ℕ → Option (List Text) → Option (List (Text × NoteMatch F))
  related_to store note top_k allowed =
      elim (or_else (lookup (summary_key note) store.embeddings)
        (or_else (lookup (chunk_key note 0) store.embeddings) (lookup note store.embeddings))) [
          | none ↦ none
          | some seed ↦ some (
              rank_detailed
                (keep (λ m. not (text_eq m.0 note)) (collapse_to_notes store seed.vector allowed))
                top_k)
        ]
