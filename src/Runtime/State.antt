-- ===== src/Runtime/State.antt =====
-- src/vault/embedding_runtime.rs: the state of the embedding runtime, and the operations on it that
-- hold its lock. An instant is a number of milliseconds.
use obsidian_mcp_semantic_me.Base.{
  ℕ, ◌+◌, ◌-◌, ◌*◌, ◌%◌, ◌^◌, min, Bool, true, false, not, ◌&&◌, ◌||◌, Option, none, some, List, [],
  ◌∷◌, ◌++◌, foldl, length, keep, Text, bytes, is_empty, Dict, lookup, insert, remove as remove_key,
  set_insert, set_remove, to_decimal, ltb, ◌==◌, if◌then◌else◌,
}
use obsidian_mcp_semantic_me.Error.{Result, ok, err}
use obsidian_mcp_semantic_me.Embeddings.{EmbeddingStore, has_note}
use obsidian_mcp_semantic_me.Index.{VaultIndex}

pub data EmbeddingPhase : Type 0 where
  warming ready degraded : EmbeddingPhase

pub record EmbeddingRuntimeStatus : Type 0 where
  pub phase : EmbeddingPhase
  pub queryable : Bool
  pub indexed_notes : ℕ
  pub total_notes : ℕ
  pub pending_notes : ℕ
  pub last_error : Option Text

pub data PendingKind : Type 0 where
  upsert remove : PendingKind

pub record PendingWork : Type 0 where
  pub path : Text
  pub generation : ℕ
  pub kind : PendingKind
  pub attempt : ℕ
  pub not_before : ℕ

-- Of `model` and `store` the state has whether they are set; the objects are those that the
-- coordinator holds.
pub record RuntimeState : Type 0 where
  pub next_generation : ℕ
  pub pending : Dict PendingWork
  pub inflight : Dict ℕ
  pub initial_remaining : List Text
  pub initial_started : Bool
  pub reconciliation_complete : Bool
  pub failures : Dict Text
  pub persistence_error : Option Text
  pub has_model : Bool
  pub has_store : Bool
  pub store_queryable : Bool
  pub status : EmbeddingRuntimeStatus

abbrev pub keys_of {ℓ} : {V : Type ℓ} → Dict V → List Text
keys_of [] = []
keys_of ((k, v) ∷ m) = k ∷ keys_of m

abbrev pub u64_mod : ℕ
u64_mod = 2 ^ 64

-- The new state has the generation in `next_generation`.
unfoldable pub next_generation : RuntimeState → RuntimeState
next_generation state =
    let next = (state.next_generation + 1) % u64_mod in
    record state { next_generation = if next == 0 then 1 else next }

unfoldable pub state_generation : RuntimeState → Text → Option ℕ
state_generation state path = elim (lookup path state.pending) [
  | some work ↦ some work.generation
  | none ↦ lookup path state.inflight
]

unfoldable pub distinct_pending_count : RuntimeState → ℕ
distinct_pending_count state = length (
    foldl (λ s p. set_insert p s) (foldl (λ s p. set_insert p s) [] (keys_of state.pending))
      (keys_of state.inflight))

abbrev pub is_some {ℓ} : {A : Type ℓ} → Option A → Bool
is_some none = false
is_some (some a) = true

abbrev pub is_ready : EmbeddingPhase → Bool
is_ready ready = true
is_ready _ = false

unfoldable pub update_pending_status : RuntimeState → RuntimeState
update_pending_status state =
    let count = distinct_pending_count state in
    let status = state.status in
    record state {
      status = record status {
        pending_notes = count;
        phase =
            if ltb 0 count && not (is_some status.last_error) && is_ready status.phase
            then warming
            else status.phase;
      };
    }

unfoldable pub queue_work : RuntimeState → PendingWork → RuntimeState
queue_work state work = record state { pending = insert work.path work state.pending }

-- A new intent for a path, with a generation of its own.
unfoldable pub add_intent : RuntimeState → Text → PendingKind → ℕ → RuntimeState
add_intent state path kind now =
    let next = next_generation state in
    queue_work next (record {
      path = path;
      generation = next.next_generation;
      kind = kind;
      attempt = 0;
      not_before = now;
    })

-- `normalized` is what `normalize_relative` gives for the path.
unfoldable pub submit : RuntimeState → Result Text → PendingKind → ℕ → RuntimeState
submit state normalized kind now = elim normalized [
  | err e ↦ state
  | ok path ↦
      if is_empty path then state else update_pending_status (add_intent state path kind now)
]

unfoldable pub finish_success : RuntimeState → PendingWork → RuntimeState
finish_success state work = update_pending_status (record state {
  inflight = remove_key work.path state.inflight;
  initial_remaining = set_remove work.path state.initial_remaining;
  failures = remove_key work.path state.failures;
})

abbrev pub is_current : RuntimeState → PendingWork → Bool
is_current state work = elim (state_generation state work.path) [
  | none ↦ false
  | some generation ↦ generation == work.generation
]

-- What a settled work leaves where a newer intent has its place.
unfoldable pub forget_stale : RuntimeState → PendingWork → RuntimeState
forget_stale state work =
    update_pending_status (record state { inflight = remove_key work.path state.inflight })

unfoldable pub mark_success : RuntimeState → PendingWork → RuntimeState
mark_success state work =
    if is_current state work then finish_success state work else forget_stale state work

-- `1u64 << attempt.saturating_sub(1).min(5)` seconds, at most 30.
unfoldable pub retry_delay : ℕ → ℕ
retry_delay attempt = min (2 ^ min (attempt - 1) 5) 30 * 1000

abbrev pub u8_max : ℕ
u8_max = 255

abbrev pub retried : PendingWork → ℕ → PendingWork
retried work now =
    let attempt = min (work.attempt + 1) u8_max in
    record work { attempt = attempt; not_before = now + retry_delay attempt }

unfoldable pub requeue_failure : RuntimeState → PendingWork → Text → ℕ → RuntimeState
requeue_failure state work error now =
    if is_current state work
    then update_pending_status (
        queue_work
          (record state {
            inflight = remove_key work.path state.inflight;
            initial_remaining = set_remove work.path state.initial_remaining;
            failures = insert work.path error state.failures;
          })
          (retried work now))
    else forget_stale state work

-- The first value of the map of failures, whatever the order of the map is.
abbrev pub first_value : Dict Text → Option Text
first_value [] = none
first_value ((k, v) ∷ m) = some v

abbrev pub first_error : RuntimeState → Option Text
first_error state = elim state.persistence_error [
  | some e ↦ some e
  | none ↦ first_value state.failures
]

unfoldable pub status_for_loaded_state : RuntimeState → ℕ → ℕ → EmbeddingRuntimeStatus
status_for_loaded_state state total_notes indexed_notes =
    let pending_notes = distinct_pending_count state in
    record {
      phase =
          if is_some (first_error state)
          then degraded
          else if not state.reconciliation_complete || ltb 0 pending_notes
          then warming
          else ready;
      queryable = state.store_queryable && state.has_model && state.has_store;
      indexed_notes = indexed_notes;
      total_notes = total_notes;
      pending_notes = pending_notes;
      last_error = first_error state;
    }

abbrev pub current_paths : VaultIndex → List Text
current_paths index = keys_of index.notes

module _ {F : Type 0} where
  abbrev pub indexed_count : EmbeddingStore F → List Text → ℕ
  indexed_count store paths = length (keep (λ p. has_note store p) paths)

  unfoldable pub status_for_current_paths :
      RuntimeState → EmbeddingStore F → List Text → EmbeddingRuntimeStatus
  status_for_current_paths state store paths =
      let status = state.status in
      if not state.has_model
      then record status {
        indexed_notes = 0;
        total_notes = length paths;
        pending_notes = distinct_pending_count state;
      }
      else status_for_loaded_state state (length paths)
          (if state.has_store then indexed_count store paths else 0)

abbrev pub detail_of : Option Text → Text
detail_of none = bytes "embedding runtime is warming up"
detail_of (some e) = e

unfoldable pub not_ready_message : EmbeddingRuntimeStatus → Text
not_ready_message status =
    bytes "semantic embeddings are not ready ("
    ++ to_decimal status.indexed_notes
    ++ bytes "/"
    ++ to_decimal status.total_notes
    ++ bytes ", "
    ++ to_decimal status.pending_notes
    ++ bytes " pending): "
    ++ detail_of status.last_error
