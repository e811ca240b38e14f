-- ===== src/Runtime/Guarantees.antt =====
-- src/vault/embedding_runtime.rs: what holds of the runtime whatever steps are made.
use obsidian_mcp_semantic_me.Base.{
  ℕ, ◌≡◌, refl, true, false, some, none, [], ◌+◌, ◌<◌, ◌≤◌, ◌^◌, arith, Text, text_eq_refl, ◌%◌,
  ◌==◌, if◌then◌else◌, is_empty, lookup, lookup-insert, member, ap, ◌∙◌,
}
use obsidian_mcp_semantic_me.Error.{Result, ok, err}
use obsidian_mcp_semantic_me.Embeddings.{Float}
use obsidian_mcp_semantic_me.Runtime.State.{
  RuntimeState, PendingWork, PendingKind, submit, add_intent, next_generation, queue_work,
  update_pending_status, u64_mod, state_generation, is_current, forget_stale, mark_success,
  requeue_failure,
}
use obsidian_mcp_semantic_me.Runtime.Commit.{
  RuntimeShared, commit_remove, commit_upsert_chunks, finalize_reconciliation_if_complete,
  refresh_status, persist_store,
}
use obsidian_mcp_semantic_me.Runtime.Process.{
  Answers, Outcome, removed, unchanged, failed, embedded, settle,
}
use obsidian_mcp_semantic_me.Runtime.Tracking.{IsTracked, IsTracked-drained}
use obsidian_mcp_semantic_me.Runtime.Intents.{submit-IsTracked}
use obsidian_mcp_semantic_me.Runtime.Batches.{take_due_batch-IsTracked}
use obsidian_mcp_semantic_me.Runtime.Steps.{
  Running, Step, submitted, taken, settled, finalized, refreshed, persisted, indexed, dropped,
  Reachable, started, then_step, settle-IsTracked, settle-live, finalize-IsTracked, finalize-live,
  refresh-IsTracked,
}

module _ {F : Type 0} where
  -- While the runtime is alive, its works are tracked.
  abbrev pub IsAliveTracked : Running F → Type 0
  IsAliveTracked r = r.shared.live ≡ true → IsTracked r.shared.state r.working

  persist-IsTracked :
      (encoded : Result Text) (written : Result (Unit {0})) (shared : RuntimeShared F)
      → ((persist_store encoded written shared).0.state ≡ shared.state)
        × ((persist_store encoded written shared).0.live ≡ shared.live)
        × ((persist_store encoded written shared).0.store ≡ shared.store)
        × (shared.live ≡ false → (persist_store encoded written shared).0.cache ≡ shared.cache)
  unfolding persist_store
  persist-IsTracked (err e) written shared = (refl, refl, refl, λ h. refl)
  persist-IsTracked (ok b) written shared =
      (ground arith, ground arith, ground arith, λ h. ground arith)

next_number :
    (n : ℕ) → n + 1 < 2 ^ 64 → (if (n + 1) % u64_mod == 0 then 1 else (n + 1) % u64_mod) ≡ n + 1
next_number n h = let same : (n + 1) % u64_mod ≡ n + 1 = omega arith in rw same (ground arith)

-- A new intent is queued under the next number.
submit-pending :
    (state : RuntimeState) (path : Text) (kind : PendingKind) (now : ℕ)
    → is_empty path ≡ false
    → state.next_generation + 1 < 2 ^ 64
    → lookup path (submit state (ok path) kind now).pending
      ≡ some (record {
        path = path;
        generation = state.next_generation + 1;
        kind = kind;
        attempt = 0;
        not_before = now;
      })
unfolding submit add_intent next_generation queue_work update_pending_status
submit-pending state path kind now named small =
    rw (named, next_number state.next_generation small, lookup-insert, text_eq_refl path) refl

queued-is_current :
    (state : RuntimeState) (w v : PendingWork)
    → lookup w.path state.pending ≡ some v
    → w.generation < v.generation
    → is_current state w ≡ false
unfolding state_generation
queued-is_current state w v h lt = ground arith

submit-is_current :
    (state : RuntimeState) (w : PendingWork) (kind : PendingKind) (now : ℕ)
    → is_empty w.path ≡ false
    → w.generation ≤ state.next_generation
    → state.next_generation + 1 < 2 ^ 64
    → is_current (submit state (ok w.path) kind now) w ≡ false
submit-is_current state w kind now named old small =
    queued-is_current (submit state (ok w.path) kind now) w _
      (submit-pending state w.path kind now named small) (omega arith)

module _ {F : Type 0} (f : Float F) where
  Step-IsTracked : {r next : Running F} → Step f r next → IsAliveTracked r → IsAliveTracked next
  unfolding refresh_status
  Step-IsTracked (submitted r path kind now) t live = submit-IsTracked path kind now (t live)
  Step-IsTracked (taken r now idle) t live =
      take_due_batch-IsTracked r.shared.state now (rw idle at (t live))
  Step-IsTracked (settled r a w outcome pick) t live =
      let alive : r.shared.live ≡ true = rw (settle-live f a r.shared w outcome) at live in
      settle-IsTracked f a r.shared alive (t alive) pick outcome
  Step-IsTracked (finalized r) t live =
      finalize-IsTracked f r.shared r.working (t (rw (finalize-live f r.shared) at live))
  Step-IsTracked (refreshed r) t live = refresh-IsTracked f r.shared r.working (t live)
  Step-IsTracked (persisted r encoded written) t live =
      let (state, alive, _, _) = persist-IsTracked encoded written r.shared in
      rw state (t (rw alive at live))
  Step-IsTracked (indexed r index) t live = t live
  Step-IsTracked (dropped r) t live = absurd (ground arith)

  pub Reachable-IsTracked :
      {start r : Running F} → IsAliveTracked start → Reachable f start r → IsAliveTracked r
  Reachable-IsTracked t started = t
  Reachable-IsTracked t (then_step reach step) = Step-IsTracked step (Reachable-IsTracked t reach)

  -- Whatever came between: when the runtime is alive, holds no works and nothing is queued, then no note of
  -- the initial pass is left, no failed note is left, and nothing is in flight.
  pub Reachable-drained :
      {start r : Running F} (p : Text)
      → IsAliveTracked start
      → Reachable f start r
      → r.shared.live ≡ true
      → r.working ≡ []
      → r.shared.state.pending ≡ []
      → (member p r.shared.state.initial_remaining ≡ false)
        × (lookup p r.shared.state.failures ≡ none)
        × (lookup p r.shared.state.inflight ≡ none)
  Reachable-drained {start} {r} p t reach live idle empty =
      IsTracked-drained (rw idle at (Reachable-IsTracked t reach live)) empty p

  settle-stale :
      (a : Answers F) (shared : RuntimeShared F) (w : PendingWork) (outcome : Outcome F)
      → is_current shared.state w ≡ false
      → ((settle f a shared w outcome).0.store ≡ shared.store)
        × ((settle f a shared w outcome).0.state.pending ≡ shared.state.pending)
  unfolding settle commit_remove commit_upsert_chunks mark_success requeue_failure forget_stale
      update_pending_status
  settle-stale a shared w removed h = (ground arith, ground arith)
  settle-stale a shared w unchanged h = (refl, ground arith)
  settle-stale a shared w (failed e) h = (refl, ground arith)
  settle-stale a shared w (embedded hash keys vectors) h = (ground arith, ground arith)

  -- A work that was numbered before an intent for the same note was submitted changes neither the store
  -- nor the intent when it ends, whichever way it ends.
  pub settle-submit :
      (a : Answers F) (shared : RuntimeShared F) (w : PendingWork) (kind : PendingKind) (now : ℕ)
      (outcome : Outcome F)
      → is_empty w.path ≡ false
      → w.generation ≤ shared.state.next_generation
      → shared.state.next_generation + 1 < 2 ^ 64
      → let after =
          (settle f a
            (record shared { state = submit shared.state (ok w.path) kind now })
            w
            outcome).0 in
        (after.store ≡ shared.store)
        × (lookup w.path after.state.pending
            ≡ some (record {
              path = w.path;
              generation = shared.state.next_generation + 1;
              kind = kind;
              attempt = 0;
              not_before = now;
            }))
  settle-submit a shared w kind now outcome named old small =
      let next = record shared { state = submit shared.state (ok w.path) kind now } in
      let (same_store, same_pending) =
        settle-stale a next w outcome (submit-is_current shared.state w kind now named old small) in
      (
        same_store,
        ap (lookup w.path) same_pending ∙ submit-pending shared.state w.path kind now named small,
      )

  -- After the runtime is dropped nothing is written to the store or to the cache file any more.
  settle-dropped :
      (a : Answers F) (shared : RuntimeShared F) (w : PendingWork) (outcome : Outcome F)
      → shared.live ≡ false
      → ((settle f a shared w outcome).0.store ≡ shared.store)
        × ((settle f a shared w outcome).0.cache ≡ shared.cache)
  unfolding settle commit_remove commit_upsert_chunks
  settle-dropped a shared w removed h = (ground arith, ground arith)
  settle-dropped a shared w unchanged h = (refl, refl)
  settle-dropped a shared w (failed e) h = (refl, refl)
  settle-dropped a shared w (embedded hash keys vectors) h = (ground arith, ground arith)

  -- The store and the cache of `start`, and the runtime stays dropped.
  abbrev pub IsSilent : Running F → Running F → Type 0
  IsSilent start r =
      (r.shared.live ≡ false)
      × (r.shared.store ≡ start.shared.store)
      × (r.shared.cache ≡ start.shared.cache)

  Step-IsSilent :
      (start : Running F) {r next : Running F}
      → Step f r next
      → IsSilent start r
      → IsSilent start next
  unfolding finalize_reconciliation_if_complete refresh_status
  Step-IsSilent start (submitted r path kind now) s = s
  Step-IsSilent start (taken r now idle) s = s
  Step-IsSilent start (settled r a w outcome pick) (dead, store, cache) =
      let (same_store, same_cache) = settle-dropped a r.shared w outcome dead in
      (settle-live f a r.shared w outcome ∙ dead, same_store ∙ store, same_cache ∙ cache)
  Step-IsSilent start (finalized r) (dead, store, cache) =
      (ground arith, ground arith, ground arith)
  Step-IsSilent start (refreshed r) s = s
  Step-IsSilent start (persisted r encoded written) (dead, store, cache) =
      let (_, same_live, same_store, same_cache) = persist-IsTracked encoded written r.shared in
      (same_live ∙ dead, same_store ∙ store, same_cache dead ∙ cache)
  Step-IsSilent start (indexed r index) s = s
  Step-IsSilent start (dropped r) (dead, store, cache) = (refl, store, cache)

  pub Reachable-IsSilent :
      {start r : Running F} → start.shared.live ≡ false → Reachable f start r → IsSilent start r
  Reachable-IsSilent {start} dead started = (dead, refl, refl)
  Reachable-IsSilent {start} dead (then_step reach step) =
      Step-IsSilent start step (Reachable-IsSilent dead reach)
