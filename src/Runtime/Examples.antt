-- ===== src/Runtime/Examples.antt =====
-- Runs of src/vault/embedding_runtime.rs, with natural numbers for `f32`.
use obsidian_mcp_semantic_me.Base.{
  to_decimal, parse_usize, ℕ, ◌≤◌, ◌≡◌, refl, true, false, none, some, [], ◌∷◌, Text, bytes, map,
  base_runs, arith, lookup, member, length, path_lt,
}
use obsidian_mcp_semantic_me.Error.{ok}
use obsidian_mcp_semantic_me.Index.{empty}
use obsidian_mcp_semantic_me.Embeddings.{
  EmbeddingStore, validate_vector, insert_hashed, remove_note, retain, note_path_of, chunk_key,
  summary_key, has_note,
}
use obsidian_mcp_semantic_me.Embeddings.Examples.{floats}
use obsidian_mcp_semantic_me.Runtime.State.{
  warming, ready, RuntimeState, PendingWork, PendingKind, upsert, next_generation, state_generation,
  distinct_pending_count, update_pending_status, queue_work, add_intent, submit, finish_success,
  forget_stale, mark_success, retry_delay, requeue_failure, status_for_loaded_state,
}
use obsidian_mcp_semantic_me.Runtime.Commit.{
  RuntimeShared, due_of, insert_due, sort_due, take_works, next_due, take_due_batch, commit_remove,
  finalize_reconciliation_if_complete, refresh_status, persist_store, insert_chunks,
  commit_upsert_chunks,
}
use obsidian_mcp_semantic_me.Runtime.Embed.{
  first_word, after_word, words_from, split_whitespace, prepare_embed_text, prepare_note,
  prepare_work, validate_all, validate_embedding_batch, sub_batch_size, groups_of, embed_group,
  embed_groups, embed_in_sub_batches,
}
use obsidian_mcp_semantic_me.Runtime.Process.{
  Answers, settle, removed, is_unchanged, sort_item, sort_items, fail_all, outcome_at, commit_all,
  texts_of, embed_changed, prepare_batch, process_batch,
}
use obsidian_mcp_semantic_me.Runtime.Coordinator.{
  queue_missing, start, Loop, Times, persist_dirty, persist_if_due, work_round, idle_round, round,
}
use obsidian_mcp_semantic_me.Runtime.Picks.{first}
use obsidian_mcp_semantic_me.Runtime.Tracking.{IsTracked}
use obsidian_mcp_semantic_me.Runtime.Batches.{take_due_batch-IsTracked, take_due_batch-generation}
use obsidian_mcp_semantic_me.Runtime.Intents.{submit-IsTracked}
use obsidian_mcp_semantic_me.Runtime.Steps.{
  Running, submitted, taken, settled, persisted, started, then_step,
}
use obsidian_mcp_semantic_me.Runtime.Guarantees.{
  Reachable-drained, settle-submit, Reachable-IsSilent, IsSilent,
}
use obsidian_mcp_semantic_me.Runtime.Waiting.{round-IsAlert, IsAlert}
use obsidian_mcp_semantic_me.Runtime.Start.{process_batch-IsTracked}

unfoldable pub runs : Unit {0}
unfolding base_runs to_decimal parse_usize path_lt next_generation state_generation
    distinct_pending_count update_pending_status queue_work add_intent submit finish_success
    forget_stale mark_success retry_delay requeue_failure status_for_loaded_state due_of insert_due
    sort_due take_works next_due take_due_batch commit_remove finalize_reconciliation_if_complete
    refresh_status persist_store insert_chunks commit_upsert_chunks first_word after_word words_from
    split_whitespace prepare_embed_text prepare_note prepare_work validate_all
    validate_embedding_batch sub_batch_size groups_of embed_group embed_groups embed_in_sub_batches
    settle is_unchanged sort_item sort_items fail_all outcome_at commit_all texts_of embed_changed
    prepare_batch process_batch queue_missing start persist_dirty persist_if_due work_round
    idle_round round validate_vector insert_hashed remove_note retain note_path_of chunk_key
    summary_key has_note
runs = tt

abbrev pub a_note : Text
a_note = bytes "a.md"

abbrev pub quiet : RuntimeState
quiet = record {
  next_generation = 0;
  pending = [];
  inflight = [];
  initial_remaining = [];
  initial_started = true;
  reconciliation_complete = true;
  failures = [];
  persistence_error = none;
  has_model = true;
  has_store = true;
  store_queryable = true;
  status = record {
    phase = ready;
    queryable = true;
    indexed_notes = 0;
    total_notes = 0;
    pending_notes = 0;
    last_error = none;
  };
}

abbrev pub no_vectors : EmbeddingStore ℕ
no_vectors = record { embeddings = []; dim = 1; first_pass_complete = true }

abbrev pub shared : RuntimeShared ℕ
shared = record { index = empty; state = quiet; store = no_vectors; live = true; cache = none }

-- Every file reads as `x y`, and every text is embedded as 7.
abbrev pub answers : Answers ℕ
answers = record {
  read = λ path. ok (bytes "x y");
  hash = λ s. s;
  shown = λ e. bytes "failed";
  config = record { target = 100; overlap = 10; packing = false };
  doc_prefix = bytes "d: ";
  embed_batch = some (bytes " 2 ");
  dimension = 1;
  embed = λ call texts. ok (map (λ s. 7 ∷ []) texts);
  preparation_panic = none;
  inference_panic = none;
  now = 50;
}

abbrev pub asked : RuntimeState
asked = submit quiet (ok a_note) upsert 40

-- A newer intent for a note takes the place of an older one, and a batch takes it when it is due.
intent_runs :
    (state_generation asked a_note ≡ some 1)
    × (state_generation (submit asked (ok a_note) PendingKind.remove 41) a_note ≡ some 2)
    × (length (submit asked (ok a_note) PendingKind.remove 41).pending ≡ 1)
    × ((submit asked (ok []) upsert 41).pending ≡ asked.pending)
    × (asked.status.phase ≡ warming)
    × (length (take_due_batch asked 39).batch ≡ 0)
    × ((take_due_batch asked 39).next_pending ≡ some 40)
    × (length (take_due_batch asked 40).batch ≡ 1)
    × ((take_due_batch asked 40).state.inflight ≡ (a_note, 1) ∷ [])
    × (retry_delay 1 ≡ 1000)
    × (retry_delay 6 ≡ 30000)
unfolding runs
intent_runs = (refl, refl, refl, refl, refl, refl, refl, refl, refl, refl, refl)

embed_runs :
    (split_whitespace (bytes " x  yz\n") ≡ bytes "x" ∷ bytes "yz" ∷ [])
    × (prepare_embed_text (bytes "T") (bytes "H" ∷ bytes "I" ∷ []) (bytes "x  y")
        ≡ bytes "T\nH | I\nx y")
    × (groups_of {A = ℕ} 3 2 (1 ∷ 2 ∷ 3 ∷ []) ≡ (1 ∷ 2 ∷ []) ∷ (3 ∷ []) ∷ [])
    × (sub_batch_size (some (bytes "0")) ≡ 16)
unfolding runs
embed_runs = (refl, refl, refl, refl)

pub quiet-IsTracked : IsTracked quiet []
unfolding runs
quiet-IsTracked = record {
  keyed = λ p w h. absurd (ground arith);
  held = λ w h. elim h [ ];
  distinct = tt;
  owned = λ p g h. absurd (ground arith);
  remaining = λ p h. absurd (ground arith);
  failing = λ p h. absurd (ground arith);
}

abbrev begun : Running ℕ
begun = record { shared = shared; working = [] }

abbrev with_intent : Running ℕ
with_intent = record { shared = record shared { state = asked }; working = [] }

abbrev pub the_work : PendingWork
the_work = record { path = a_note; generation = 1; kind = upsert; attempt = 0; not_before = 40 }

abbrev pub in_hand : Running ℕ
in_hand = record {
  shared = record shared { state = (take_due_batch asked 40).state };
  working = the_work ∷ [];
}

abbrev after_work : Running ℕ
after_work = record {
  shared = (settle floats answers in_hand.shared the_work removed).0;
  working = [];
}

Reachable-drained_example :
    (member a_note after_work.shared.state.initial_remaining ≡ false)
    × (lookup a_note after_work.shared.state.failures ≡ none)
    × (lookup a_note after_work.shared.state.inflight ≡ none)
unfolding runs
Reachable-drained_example =
    Reachable-drained floats {start = begun} {r = after_work} a_note (λ live. quiet-IsTracked)
      (then_step
        (then_step (then_step started (submitted begun (ok a_note) upsert 40))
          (taken with_intent 40 refl))
        (settled in_hand answers the_work removed (first [])))
      refl refl refl

settle-submit_example :
    let after =
      (settle floats answers
        (record shared { state = submit asked (ok a_note) PendingKind.remove 41 })
        the_work
        removed).0 in
    (after.store ≡ no_vectors)
    × (lookup a_note after.state.pending
        ≡ some (record {
          path = a_note;
          generation = 2;
          kind = PendingKind.remove;
          attempt = 0;
          not_before = 41;
        }))
unfolding runs
settle-submit_example =
    settle-submit floats answers (record shared { state = asked }) the_work PendingKind.remove 41
      removed refl (omega arith) (omega arith)

abbrev dead : Running ℕ
dead = record { shared = record shared { live = false }; working = the_work ∷ [] }

abbrev dead_after : Running ℕ
dead_after = record {
  shared =
      (persist_store (ok (bytes "cache")) (ok tt)
        (settle floats answers dead.shared the_work removed).0).0;
  working = [];
}

Reachable-IsSilent_example : IsSilent floats dead dead_after
unfolding runs
Reachable-IsSilent_example = Reachable-IsSilent floats {start = dead} {r = dead_after} refl (
    then_step (then_step started (settled dead answers the_work removed (first []))) (
      persisted
        (record { shared = (settle floats answers dead.shared the_work removed).0; working = [] })
        (ok (bytes "cache")) (ok tt)))

take_due_batch-generation_example :
    (state_generation (take_due_batch asked 40).state a_note ≡ state_generation asked a_note)
    × (length (take_due_batch asked 40).batch ≤ 32)
take_due_batch-generation_example = take_due_batch-generation asked 40 a_note

abbrev pub times : Times ℕ
times = record {
  taken_at = 45;
  checked_at = 46;
  persisted_at = 47;
  encoded = λ store. ok (bytes "cache");
  written = ok tt;
}

abbrev pub vars : Loop
vars = record { dirty = false; last_persist = 0; persist_retry_at = 0; persist_attempt = 0 }

round-IsAlert_example : IsAlert floats answers times (round floats answers times shared vars)
round-IsAlert_example = round-IsAlert floats answers times shared vars

in_hand-IsTracked : IsTracked in_hand.shared.state (the_work ∷ [])
unfolding runs
in_hand-IsTracked =
    take_due_batch-IsTracked asked 40 (submit-IsTracked (ok a_note) upsert 40 quiet-IsTracked)

process_batch-IsTracked_example :
    IsTracked (process_batch floats answers in_hand.shared (the_work ∷ [])).0.state []
unfolding runs
process_batch-IsTracked_example =
    process_batch-IsTracked floats answers in_hand.shared (the_work ∷ []) in_hand-IsTracked refl
