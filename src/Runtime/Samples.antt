-- ===== src/Runtime/Samples.antt =====
-- Runs of src/vault/embedding_runtime.rs in which nothing fails.
use obsidian_mcp_semantic_me.Base.{
  ℕ, ◌≤◌, ◌≡◌, refl, true, some, List, [], ◌∷◌, Text, bytes, map, arith, lookup, length,
  text_eq_iff, ◌==◌,
}
use obsidian_mcp_semantic_me.Error.{ok}
use obsidian_mcp_semantic_me.Embeddings.{chunk_key}
use obsidian_mcp_semantic_me.Embeddings.Examples.{floats}
use obsidian_mcp_semantic_me.Runtime.State.{upsert}
use obsidian_mcp_semantic_me.Runtime.Commit.{RuntimeShared, commit_upsert_chunks}
use obsidian_mcp_semantic_me.Runtime.Embed.{validate_all, validate_embedding_batch}
use obsidian_mcp_semantic_me.Runtime.Process.{Changed, Sorted, embed_changed}
use obsidian_mcp_semantic_me.Runtime.Coordinator.{again}
use obsidian_mcp_semantic_me.Runtime.Intents.{submit-IsTracked}
use obsidian_mcp_semantic_me.Runtime.Shares.{
  hand_out, settle_each, embed_changed-hand_out, commit_upsert_chunks-lookup,
}
use obsidian_mcp_semantic_me.Runtime.Calm.{IsCalm}
use obsidian_mcp_semantic_me.Runtime.Rounds.{rounds, IsDone, rounds-IsDone}
use obsidian_mcp_semantic_me.Runtime.Examples.{
  runs, a_note, shared, answers, asked, times, vars, the_work, in_hand, quiet-IsTracked,
}

abbrev sevens : List Text → List (List ℕ)
sevens texts = map (λ s. 7 ∷ []) texts

length-sevens : (texts : List Text) → length (sevens texts) ≡ length texts
length-sevens [] = refl
length-sevens (t ∷ texts) = omega (arith, length-sevens texts)

validate_all-sevens : (texts : List Text) → validate_all floats (sevens texts) 1 ≡ ok tt
unfolding runs
validate_all-sevens [] = refl
validate_all-sevens (t ∷ texts) = validate_all-sevens texts

accepted :
    (texts : List Text)
    → validate_embedding_batch floats (sevens texts) (length texts) 1 ≡ ok (sevens texts)
unfolding validate_embedding_batch
accepted texts =
    let same : (length (sevens texts) == length texts) ≡ true =
      ground (arith, length-sevens texts) in
    rw (same, validate_all-sevens texts) refl

calm : IsCalm floats answers
calm = record {
  prepared = refl;
  inferred = refl;
  reads = λ path. (bytes "x y", refl);
  answers = λ call group. (sevens group, accepted group);
}

abbrev busy : RuntimeShared ℕ
busy = record shared { state = asked }

rounds-IsDone_example :
    (m : ℕ) × (m ≤ length busy.state.pending)
    × ((rounds floats (λ i. answers) (λ i. times) m 0 busy vars).next ≡ again)
    × IsDone floats
        (λ i. answers)
        (λ i. times)
        (rounds floats (λ i. answers) (λ i. times) m 0 busy vars).shared.state
unfolding runs
rounds-IsDone_example =
    rounds-IsDone floats (λ i. answers) (λ i. times) busy vars (λ i. calm) (λ i. refl)
      (λ i p w h. ground (arith, text_eq_iff a_note p)) refl
      (submit-IsTracked (ok a_note) upsert 40 quiet-IsTracked)

abbrev a_changed : Changed
a_changed = record {
  work = the_work;
  chunks = (chunk_key a_note 0, bytes "x") ∷ (chunk_key a_note 1, bytes "y") ∷ [];
  content_hash = bytes "h";
}

abbrev to_embed : Sorted ℕ
to_embed = record { shared = in_hand.shared; dirty = true; changed = a_changed ∷ [] }

embed_changed-hand_out_example :
    embed_changed floats answers to_embed (a_changed ∷ [])
    ≡ settle_each floats answers
        (hand_out (a_changed ∷ []) ((7 ∷ []) ∷ (7 ∷ []) ∷ []))
        in_hand.shared
        true
unfolding runs
embed_changed-hand_out_example =
    embed_changed-hand_out floats answers to_embed a_changed [] ((7 ∷ []) ∷ (7 ∷ []) ∷ []) refl refl
      refl

commit_upsert_chunks-lookup_example :
    let (after, dirty) =
      commit_upsert_chunks floats answers.shown in_hand.shared the_work
        (bytes "h")
        (chunk_key a_note 0 ∷ [])
        ((7 ∷ []) ∷ [])
        50 in
    (dirty ≡ true)
    × (lookup (chunk_key a_note 0) after.store.embeddings
        ≡ some (record { vector = 7 ∷ []; content_hash = some (bytes "h") }))
unfolding runs
commit_upsert_chunks-lookup_example =
    commit_upsert_chunks-lookup floats answers in_hand.shared the_work (bytes "h")
      (chunk_key a_note 0) (chunk_key a_note 0 ∷ []) ((7 ∷ []) ∷ []) refl refl (refl, tt)
