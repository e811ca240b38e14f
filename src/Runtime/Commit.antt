-- ===== src/Runtime/Commit.antt =====
-- src/vault/embedding_runtime.rs: the operations that also write to the store or to its cache file. They
-- hold `lifecycle_gate`, so that nothing is written after the runtime was dropped.
use obsidian_mcp_semantic_me.Base.{
  ℕ, min, Bool, true, false, not, ◌&&◌, ◌||◌, Option, none, some, List, [], ◌∷◌, ◌++◌, length, take,
  Text, Dict, lookup, insert, leb, ◌==◌, path_lt, if◌then◌else◌,
}
use obsidian_mcp_semantic_me.Base.{remove as remove_key}
use obsidian_mcp_semantic_me.Error.{VaultError, Result, ok, err}
use obsidian_mcp_semantic_me.Embeddings.{Float, EmbeddingStore, insert_hashed, remove_note}
use obsidian_mcp_semantic_me.Index.{VaultIndex, is_empty_set}
use obsidian_mcp_semantic_me.Runtime.State.{
  PendingKind, PendingWork, RuntimeState, upsert, is_current, finish_success, forget_stale,
  requeue_failure, update_pending_status, status_for_loaded_state, current_paths, indexed_count,
}

-- `RuntimeShared`, with the store of the coordinator and the content of the cache file.
pub record RuntimeShared (F : Type 0) : Type 0 where
  pub index : VaultIndex
  pub state : RuntimeState
  pub store : EmbeddingStore F
  pub live : Bool
  pub cache : Option Text

abbrev pub is_empty_dict {ℓ} : {V : Type ℓ} → Dict V → Bool
is_empty_dict [] = true
is_empty_dict (e ∷ m) = false

abbrev pub reconcile_batch_size : ℕ
reconcile_batch_size = 32

module _ (now : ℕ) where
  unfoldable pub due_of : Dict PendingWork → List (Text × PendingKind)
  due_of [] = []
  due_of ((path, work) ∷ pending) =
      if leb work.not_before now then (path, work.kind) ∷ due_of pending else due_of pending

abbrev pub priority : PendingKind → ℕ
priority upsert = 1
priority _ = 0

-- `left_priority.cmp(&right_priority).then_with(|| left_path.cmp(right_path))`
abbrev pub due_before : Text × PendingKind → Text × PendingKind → Bool
due_before (left_path, left) (right_path, right) =
    if priority left == priority right
    then path_lt left_path right_path
    else leb (priority left) (priority right)

unfoldable pub insert_due :
    Text × PendingKind → List (Text × PendingKind) → List (Text × PendingKind)
insert_due d [] = d ∷ []
insert_due d (e ∷ due) = if due_before e d then e ∷ insert_due d due else d ∷ e ∷ due

unfoldable pub sort_due : List (Text × PendingKind) → List (Text × PendingKind)
sort_due [] = []
sort_due (d ∷ due) = insert_due d (sort_due due)

-- `for (path, _) in due`: the works move from `pending` to `inflight`.
abbrev pub start_work : RuntimeState → Text → PendingWork → RuntimeState
start_work state path work = record state {
  pending = remove_key path state.pending;
  inflight = insert path work.generation state.inflight;
}

unfoldable pub take_works :
    List (Text × PendingKind) → RuntimeState → List PendingWork → RuntimeState × List PendingWork
take_works [] state batch = (state, batch)
take_works ((path, kind) ∷ due) state batch = elim (lookup path state.pending) [
  | none ↦ take_works due state batch
  | some work ↦ take_works due (start_work state path work) (batch ++ work ∷ [])
]

-- `min()` of the instants before which the pending works wait
unfoldable pub next_due : Dict PendingWork → Option ℕ
next_due [] = none
next_due ((path, work) ∷ pending) = elim (next_due pending) [
  | none ↦ some work.not_before
  | some t ↦ some (min work.not_before t)
]

pub record Taken : Type 0 where
  pub state : RuntimeState
  pub batch : List PendingWork
  pub next_pending : Option ℕ
  pub pending_empty : Bool

unfoldable pub take_due_batch : RuntimeState → ℕ → Taken
take_due_batch state now =
    let (taken, batch) =
      take_works (take reconcile_batch_size (sort_due (due_of now state.pending))) state [] in
    record {
      state = update_pending_status taken;
      batch = batch;
      next_pending = next_due taken.pending;
      pending_empty = is_empty_dict taken.pending && is_empty_dict taken.inflight;
    }

module _ {F : Type 0} where
  -- The shared state after the work, and whether the store was changed.
  unfoldable pub commit_remove : RuntimeShared F → PendingWork → RuntimeShared F × Bool
  commit_remove shared work =
      if not shared.live
      then (shared, false)
      else if not (is_current shared.state work)
      then (record shared { state = forget_stale shared.state work }, false)
      else let (left, removed) = remove_note shared.store work.path in
        (record shared { store = left; state = finish_success shared.state work }, removed)

  unfoldable pub finalize_reconciliation_if_complete : RuntimeShared F → RuntimeShared F × Bool
  finalize_reconciliation_if_complete shared =
      let state = shared.state in
      let store = shared.store in
      if not shared.live
      then (shared, false)
      else if not state.initial_started
          || state.reconciliation_complete
          || not (is_empty_set state.initial_remaining)
      then (shared, false)
      else (
        record shared {
          store = record store { first_pass_complete = true };
          state = record state {
            reconciliation_complete = true;
            store_queryable =
                if not state.store_queryable
                  && (is_empty_dict shared.index.notes || not (is_empty_dict store.embeddings))
                then true
                else state.store_queryable;
          };
        },
        not store.first_pass_complete,
      )

  unfoldable pub refresh_status : RuntimeShared F → RuntimeShared F
  refresh_status shared =
      let paths = current_paths shared.index in
      let state = shared.state in
      record shared {
        state = record state {
          status = status_for_loaded_state state (length paths) (indexed_count shared.store paths);
        };
      }

  -- `encoded` is what `encode_cache` gives, and `written` what writing the file gives.
  unfoldable pub persist_store :
      Result Text → Result (Unit {0}) → RuntimeShared F → RuntimeShared F × Result Bool
  persist_store (err e) written shared = (shared, err e)
  persist_store (ok cache_bytes) written shared =
      if not shared.live then (shared, ok false) else elim written [
        | err e ↦ (shared, err e)
        | ok done ↦ (record shared { cache = some cache_bytes }, ok true)
      ]

-- `if state.reconciliation_complete && !state.store_queryable { state.store_queryable = true; }`
abbrev pub publish : RuntimeState → RuntimeState
publish state =
    if state.reconciliation_complete && not state.store_queryable
    then record state { store_queryable = true }
    else state

module _ {F : Type 0} (f : Float F) where
  -- The loop over keys and vectors: the store, and the error that ended it.
  unfoldable pub insert_chunks :
      EmbeddingStore F → Text → List Text → List (List F) → EmbeddingStore F × Option VaultError
  insert_chunks store hash [] vectors = (store, none)
  insert_chunks store hash (key ∷ keys) [] = (store, none)
  insert_chunks store hash (key ∷ keys) (vector ∷ vectors) =
      elim (insert_hashed f store key hash vector) [
        | err e ↦ (store, some e)
        | ok next ↦ insert_chunks next hash keys vectors
      ]

  -- `shown` is the text of an error.
  unfoldable pub commit_upsert_chunks :
      (VaultError → Text)
      → RuntimeShared F
      → PendingWork
      → Text
      → List Text
      → List (List F)
      → ℕ
      → RuntimeShared F × Bool
  commit_upsert_chunks shown shared work content_hash keys vectors now =
      if not shared.live
      then (shared, false)
      else if not (is_current shared.state work)
      then (record shared { state = forget_stale shared.state work }, false)
      else let (left, removed) = remove_note shared.store work.path in
        let (store, failure) = insert_chunks left content_hash keys vectors in
        elim failure [
          | none ↦ (
            record shared { store = store; state = publish (finish_success shared.state work) },
            true,
          )
          | some e ↦ (
            record shared {
              store = store;
              state = requeue_failure shared.state work (shown e) now;
            },
            false,
          )
        ]
