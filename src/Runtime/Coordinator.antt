-- ===== src/Runtime/Coordinator.antt =====
-- src/vault/embedding_runtime.rs: `run_coordinator`: the start with a loaded cache, a round of its loop,
-- and what a reader of the runtime sees.
use obsidian_mcp_semantic_me.Base.{
  ℕ, ◌+◌, ◌-◌, min, max, Bool, true, false, not, ◌&&◌, ◌||◌, Option, none, some, List, [], ◌∷◌,
  length, Text, contains_key, leb, if◌then◌else◌,
}
use obsidian_mcp_semantic_me.Error.{embedding, Result, ok, err}
use obsidian_mcp_semantic_me.Embeddings.{Float, EmbeddingStore, retain_paths}
use obsidian_mcp_semantic_me.Index.{is_empty_set}
use obsidian_mcp_semantic_me.Runtime.State.{
  PendingWork, RuntimeState, upsert, degraded, add_intent, update_pending_status,
  distinct_pending_count, status_for_current_paths, not_ready_message, retry_delay, u8_max,
  current_paths,
}
use obsidian_mcp_semantic_me.Runtime.Commit.{
  RuntimeShared, Taken, is_empty_dict, take_due_batch, finalize_reconciliation_if_complete,
  refresh_status, persist_store,
}
use obsidian_mcp_semantic_me.Runtime.Process.{Answers, process_batch}

abbrev pub max_dirty_interval : ℕ
max_dirty_interval = 2000

-- The loader of the model failed.
unfoldable pub fail_load : {F : Type 0} → RuntimeShared F → Text → RuntimeShared F
fail_load shared message =
    let state = shared.state in
    record shared {
      state = record state {
        status = record {
          phase = degraded;
          queryable = false;
          indexed_notes = 0;
          total_notes = length (current_paths shared.index);
          pending_notes = distinct_pending_count state;
          last_error = some message;
        };
      };
    }

-- `for path in current_paths`: an intent for each note that has none.
unfoldable pub queue_missing : ℕ → List Text → RuntimeState → RuntimeState
queue_missing now [] state = state
queue_missing now (path ∷ paths) state =
    queue_missing now paths
      (if contains_key path state.pending then state else add_intent state path upsert now)

module _ {F : Type 0} where
  -- `loaded` is the store of the cache file, if it was accepted, or a new one.
  unfoldable pub start : RuntimeShared F → EmbeddingStore F → ℕ → RuntimeShared F × Bool
  start shared loaded now =
      let paths = current_paths shared.index in
      let (store, pruned) = retain_paths loaded paths in
      let old = shared.state in
      let state = queue_missing now paths (record old {
        has_model = true;
        has_store = true;
        store_queryable =
            loaded.first_pass_complete
            && (is_empty_set paths || not (is_empty_dict store.embeddings));
        initial_started = true;
        initial_remaining = paths;
      }) in
      let (final, changed) =
        finalize_reconciliation_if_complete
          (record shared { store = store; state = update_pending_status state }) in
      (refresh_status final, pruned || changed)

  -- `query_snapshot`: the store for a query, or why there is none.
  unfoldable pub query_snapshot : RuntimeShared F → Result (EmbeddingStore F)
  query_snapshot shared =
      let state = shared.state in
      if state.has_model && state.has_store && state.store_queryable
      then ok shared.store
      else err (
          embedding (
            not_ready_message
              (status_for_current_paths state shared.store (current_paths shared.index))))

-- The variables of the loop.
pub record Loop : Type 0 where
  pub dirty : Bool
  pub last_persist : ℕ
  pub persist_retry_at : ℕ
  pub persist_attempt : ℕ

-- What the loop does after a round: the next one, the end, or a wait for a notification, with or
-- without a deadline.
pub data Next : Type 0 where
  again stopped wait : Next
  wait_until : ℕ → Next

-- The instants that a round reads, and what writing the cache gives.
pub record Times (F : Type 0) : Type 0 where
  pub taken_at : ℕ
  pub checked_at : ℕ
  pub persisted_at : ℕ
  pub encoded : EmbeddingStore F → Result Text
  pub written : Result (Unit {0})

pub record Round (F : Type 0) : Type 0 where
  pub shared : RuntimeShared F
  pub vars : Loop
  pub next : Next

abbrev pub earlier : Option ℕ → Option ℕ → Option ℕ
earlier none o = o
earlier (some a) none = some a
earlier (some a) (some b) = some (min a b)

abbrev pub wait_for : Option ℕ → Next
wait_for none = wait
wait_for (some t) = wait_until t

module _ {F : Type 0} (f : Float F) (a : Answers F) (t : Times F) where
  abbrev pub after_persist : Loop → RuntimeShared F → Result Bool → Round F
  after_persist vars saved (ok true) =
      let state = saved.state in
      record {
        shared =
            refresh_status (record saved { state = record state { persistence_error = none } });
        vars = record {
          dirty = false;
          last_persist = t.persisted_at;
          persist_retry_at = t.persisted_at;
          persist_attempt = 0;
        };
        next = again;
      }
  after_persist vars saved (ok false) = record { shared = saved; vars = vars; next = stopped }
  after_persist vars saved (err e) =
      let state = saved.state in
      let attempt = min (vars.persist_attempt + 1) u8_max in
      record {
        shared =
            refresh_status
              (record saved { state = record state { persistence_error = some (a.shown e) } });
        vars = record vars {
          persist_attempt = attempt;
          persist_retry_at = t.persisted_at + retry_delay attempt;
        };
        next = again;
      }

  -- `stopped` is the answer `false`.
  unfoldable pub persist_dirty : RuntimeShared F → Loop → Round F
  persist_dirty shared vars =
      let (saved, result) = persist_store (t.encoded shared.store) t.written shared in
      after_persist vars saved result

  abbrev pub is_persist_due : Loop → Bool → Bool
  is_persist_due vars now_too =
      vars.dirty
      && leb vars.persist_retry_at t.checked_at
      && (now_too || leb max_dirty_interval (t.checked_at - vars.last_persist))

  abbrev pub after_batch : Loop → Bool → Loop
  after_batch vars changed = record vars { dirty = vars.dirty || changed }

  unfoldable pub persist_if_due : RuntimeShared F → Loop → Round F
  persist_if_due shared vars =
      if is_persist_due vars false
      then persist_dirty shared vars
      else record { shared = shared; vars = vars; next = again }

  -- A round with a batch.
  unfoldable pub work_round : RuntimeShared F → Loop → Taken → Round F
  work_round shared vars taken =
      let (processed, wrote) =
        process_batch f a (record shared { state = taken.state }) taken.batch in
      let (final, changed) = finalize_reconciliation_if_complete processed in
      persist_if_due (refresh_status final) (after_batch vars (wrote || changed))

  abbrev pub persistence_wake : Loop → Bool → Option ℕ
  persistence_wake vars pending_empty =
      if vars.dirty
      then some (
          if pending_empty
          then vars.persist_retry_at
          else max vars.persist_retry_at (vars.last_persist + max_dirty_interval))
      else none

  unfoldable pub idle_round : RuntimeShared F → Loop → Taken → Round F
  idle_round shared vars taken =
      if is_persist_due vars taken.pending_empty
      then persist_dirty (record shared { state = taken.state }) vars
      else record {
        shared = record shared { state = taken.state };
        vars = vars;
        next = wait_for (earlier taken.next_pending (persistence_wake vars taken.pending_empty));
      }

  abbrev pub after_take : RuntimeShared F → Loop → Taken → List PendingWork → Round F
  after_take shared vars taken [] = idle_round shared vars taken
  after_take shared vars taken (work ∷ works) = work_round shared vars taken

  unfoldable pub round : RuntimeShared F → Loop → Round F
  round shared vars =
      let taken = take_due_batch shared.state t.taken_at in
      if not shared.live
      then record { shared = shared; vars = vars; next = stopped }
      else after_take shared vars taken taken.batch
