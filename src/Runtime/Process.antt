-- ===== src/Runtime/Process.antt =====
-- src/vault/embedding_runtime.rs: `process_batch`. `now` is the instant at which failures are put back;
-- a task that panics, with the text of its error, is a parameter. `embed` counts the calls of the
-- provider for the batch from 0.
use obsidian_mcp_semantic_me.Base.{
  ℕ, ◌+◌, Bool, false, ◌||◌, Option, none, some, List, [], ◌∷◌, ◌++◌, map, length, take, drop, Text,
  bytes, text_eq, lookup, ltb, if◌then◌else◌,
}
use obsidian_mcp_semantic_me.Error.{VaultError, Result, ok, err}
use obsidian_mcp_semantic_me.Embeddings.{Float, EmbeddingEntry, EmbeddingStore, chunk_key}
use obsidian_mcp_semantic_me.Chunker.Windows.{ChunkConfig}
use obsidian_mcp_semantic_me.Index.{VaultIndex}
use obsidian_mcp_semantic_me.Runtime.State.{PendingWork, mark_success, requeue_failure}
use obsidian_mcp_semantic_me.Runtime.Commit.{RuntimeShared, commit_remove, commit_upsert_chunks}
use obsidian_mcp_semantic_me.Runtime.Embed.{
  PreparedWork, to_remove, to_fail, to_upsert, prepare_work, embed_in_sub_batches,
}

-- What the file system, the environment and the provider answer while a batch is processed.
pub record Answers (F : Type 0) : Type 0 where
  pub read : Text → Result Text
  pub hash : Text → Text
  pub shown : VaultError → Text
  pub config : ChunkConfig
  pub doc_prefix : Text
  pub embed_batch : Option Text
  pub dimension : ℕ
  pub embed : ℕ → List Text → Result (List (List F))
  pub preparation_panic : Option Text
  pub inference_panic : Option Text
  pub now : ℕ

-- How a work of the batch ends.
pub data Outcome (F : Type 0) : Type 0 where
  removed unchanged : Outcome F
  failed : Text → Outcome F
  embedded : Text → List Text → List (List F) → Outcome F

-- A note whose chunks have to be embedded.
pub record Changed : Type 0 where
  pub work : PendingWork
  pub chunks : List (Text × Text)
  pub content_hash : Text

pub record Sorted (F : Type 0) : Type 0 where
  pub shared : RuntimeShared F
  pub dirty : Bool
  pub changed : List Changed

abbrev pub has_hash : {F : Type 0} → Option (EmbeddingEntry F) → Text → Bool
has_hash none hash = false
has_hash (some entry) hash = elim entry.content_hash [ none ↦ false | some h ↦ text_eq h hash ]

unfoldable pub is_unchanged : {F : Type 0} → EmbeddingStore F → PendingWork → Text → Bool
is_unchanged store work hash = has_hash (lookup (chunk_key work.path 0) store.embeddings) hash

module _ {F : Type 0} (f : Float F) (a : Answers F) where
  -- One work is settled; the Boolean is whether the store was changed.
  unfoldable pub settle : RuntimeShared F → PendingWork → Outcome F → RuntimeShared F × Bool
  settle shared work removed = commit_remove shared work
  settle shared work unchanged = (record shared { state = mark_success shared.state work }, false)
  settle shared work (failed e) =
      (record shared { state = requeue_failure shared.state work e a.now }, false)
  settle shared work (embedded hash keys vectors) =
      commit_upsert_chunks f a.shown shared work hash keys vectors a.now

  abbrev pub sort_settled : Sorted F → PendingWork → Outcome F → Sorted F
  sort_settled s work outcome =
      let (shared, dirty) = settle s.shared work outcome in
      record s { shared = shared; dirty = s.dirty || dirty }

  unfoldable pub sort_item : Sorted F → PreparedWork → Sorted F
  sort_item s (to_remove work) = sort_settled s work removed
  sort_item s (to_fail work e) = sort_settled s work (failed (a.shown e))
  sort_item s (to_upsert work chunks hash) =
      if is_unchanged s.shared.store work hash then sort_settled s work unchanged else record s {
        changed = s.changed ++ record { work = work; chunks = chunks; content_hash = hash } ∷ [];
      }

  -- `for item in prepared`
  unfoldable pub sort_items : Sorted F → List PreparedWork → Sorted F
  sort_items s [] = s
  sort_items s (item ∷ items) = sort_items (sort_item s item) items

  unfoldable pub fail_all : RuntimeShared F → List PendingWork → Text → RuntimeShared F
  fail_all shared [] e = shared
  fail_all shared (work ∷ works) e = fail_all (settle shared work (failed e)).0 works e

  -- What the vectors from the cursor on make of a note, and the cursor after it.
  unfoldable pub outcome_at : List (List F) → ℕ → Changed → Outcome F × ℕ
  outcome_at vectors cursor c =
      let count = length c.chunks in
      if ltb (length vectors) (cursor + count)
      then (failed (bytes "embedding provider returned fewer vectors than chunks"), cursor)
      else (
        embedded c.content_hash (map (λ (e : Text × Text). e.0) c.chunks)
            (take count (drop cursor vectors)),
        cursor + count,
      )

  unfoldable pub commit_all :
      List (List F) → ℕ → List Changed → RuntimeShared F → Bool → RuntimeShared F × Bool
  commit_all vectors cursor [] shared dirty = (shared, dirty)
  commit_all vectors cursor (c ∷ changed) shared dirty =
      let (outcome, next) = outcome_at vectors cursor c in
      let (after, wrote) = settle shared c.work outcome in
      commit_all vectors next changed after (dirty || wrote)

  unfoldable pub texts_of : List Changed → List Text
  texts_of [] = []
  texts_of (c ∷ changed) =
      map (λ (e : Text × Text). a.doc_prefix ++ e.1) c.chunks ++ texts_of changed

  abbrev pub works_of : List Changed → List PendingWork
  works_of changed = map (λ c. c.work) changed

  abbrev pub after_inference : Sorted F → Result (List (List F)) → RuntimeShared F × Bool
  after_inference s (err e) = (fail_all s.shared (works_of s.changed) (a.shown e), s.dirty)
  after_inference s (ok vectors) = commit_all vectors 0 s.changed s.shared s.dirty

  abbrev pub infer : Sorted F → Option Text → RuntimeShared F × Bool
  infer s (some panic) = (
    fail_all s.shared (works_of s.changed) (bytes "embedding inference task failed: " ++ panic),
    s.dirty,
  )
  infer s none =
      after_inference s
        (embed_in_sub_batches f a.dimension a.embed 0 a.embed_batch (texts_of s.changed)).0

  -- `if changed.is_empty() { return dirty; }`, and the inference
  unfoldable pub embed_changed : Sorted F → List Changed → RuntimeShared F × Bool
  embed_changed s [] = (s.shared, s.dirty)
  embed_changed s (c ∷ changed) = infer s a.inference_panic

  unfoldable pub prepare_batch : VaultIndex → List PendingWork → List PreparedWork
  prepare_batch index batch =
      map (λ work. prepare_work a.hash a.config a.read work (lookup work.path index.notes)) batch

  abbrev pub process_prepared :
      Option Text → RuntimeShared F → List PendingWork → RuntimeShared F × Bool
  process_prepared (some panic) shared batch =
      (fail_all shared batch (bytes "embedding preparation task failed: " ++ panic), false)
  process_prepared none shared batch =
      let sorted =
        sort_items (record { shared = shared; dirty = false; changed = [] })
          (prepare_batch shared.index batch) in
      embed_changed sorted sorted.changed

  unfoldable pub process_batch : RuntimeShared F → List PendingWork → RuntimeShared F × Bool
  process_batch shared batch = process_prepared a.preparation_panic shared batch
