-- ===== src/Runtime/Steps.antt =====
-- src/vault/embedding_runtime.rs: the coordinator as steps that others may come between: new intents are
-- submitted, the index changes and the runtime is dropped at any time.
use obsidian_mcp_semantic_me.Base.{
  Bool, ℕ, ◌≡◌, refl, inl, inr, true, false, not, ◌&&◌, ◌||◌, List, [], arith, Text, Option-cases,
  if_rule,
}
use obsidian_mcp_semantic_me.Error.{Result}
use obsidian_mcp_semantic_me.Embeddings.{Float, remove_note}
use obsidian_mcp_semantic_me.Index.{VaultIndex, is_empty_set}
use obsidian_mcp_semantic_me.Runtime.State.{
  RuntimeState, PendingWork, PendingKind, submit, state_generation, is_current, finish_success,
}
use obsidian_mcp_semantic_me.Runtime.Commit.{
  RuntimeShared, take_due_batch, commit_remove, commit_upsert_chunks, insert_chunks, publish,
  finalize_reconciliation_if_complete, refresh_status, persist_store,
}
use obsidian_mcp_semantic_me.Runtime.Process.{
  Answers, Outcome, removed, unchanged, failed, embedded, settle,
}
use obsidian_mcp_semantic_me.Runtime.Picks.{Pick}
use obsidian_mcp_semantic_me.Runtime.Tracking.{
  IsTracked, finish_success-IsTracked, forget_stale-IsTracked, mark_success-IsTracked,
}
use obsidian_mcp_semantic_me.Runtime.Intents.{requeue_failure-IsTracked}

-- The shared state, and the works that the coordinator holds.
pub record Running (F : Type 0) : Type 0 where
  pub shared : RuntimeShared F
  pub working : List PendingWork

module _ {F : Type 0} where
  abbrev pub with_state : RuntimeShared F → RuntimeState → RuntimeShared F
  with_state shared state = record shared { state = state }

  abbrev pub with_shared : Running F → RuntimeShared F → Running F
  with_shared r shared = record r { shared = shared }

module _ {F : Type 0} (f : Float F) where
  pub data Step : Running F → Running F → Type 0 where
    submitted :
        (r : Running F) (path : Result Text) (kind : PendingKind) (now : ℕ)
        → Step r (with_shared r (with_state r.shared (submit r.shared.state path kind now)))
    taken :
        (r : Running F) (now : ℕ)
        → r.working ≡ []
        → Step r (record {
          shared = with_state r.shared (take_due_batch r.shared.state now).state;
          working = (take_due_batch r.shared.state now).batch;
        })
    settled :
        (r : Running F) (a : Answers F) (w : PendingWork) (outcome : Outcome F)
        {rest : List PendingWork}
        → Pick w r.working rest
        → Step r (record { shared = (settle f a r.shared w outcome).0; working = rest })
    finalized :
        (r : Running F) → Step r (with_shared r (finalize_reconciliation_if_complete r.shared).0)
    refreshed : (r : Running F) → Step r (with_shared r (refresh_status r.shared))
    persisted :
        (r : Running F) (encoded : Result Text) (written : Result (Unit {0}))
        → Step r (with_shared r (persist_store encoded written r.shared).0)
    indexed :
        (r : Running F) (index : VaultIndex)
        → Step r (with_shared r (record (r.shared) { index = index }))
    dropped : (r : Running F) → Step r (with_shared r (record (r.shared) { live = false }))

  pub data Reachable (start : Running F) : Running F → Type 0 where
    started : Reachable start start
    then_step : {r next : Running F} → Reachable start r → Step r next → Reachable start next

  publish-IsTracked :
      (state : RuntimeState) (working : List PendingWork)
      → IsTracked state working
      → IsTracked (publish state) working
  unfolding state_generation
  publish-IsTracked state working t =
      if_rule (λ s. IsTracked s working)
        (state.reconciliation_complete && not state.store_queryable)
        (λ _. record {
          keyed = t.keyed;
          held = t.held;
          distinct = t.distinct;
          owned = t.owned;
          remaining = t.remaining;
          failing = t.failing;
        })
        (λ _. t)

  module _ (a : Answers F) (shared : RuntimeShared F) {w : PendingWork}
      {working rest : List PendingWork} (live : shared.live ≡ true)
      (t : IsTracked shared.state working) (pick : Pick w working rest) where
    abbrev Kept : RuntimeShared F × Bool → Type 0
    Kept result = IsTracked result.0.state rest

    commit_remove-IsTracked : Kept (commit_remove shared w)
    unfolding commit_remove
    commit_remove-IsTracked = rw live (
        if_rule Kept (not (is_current shared.state w))
          (λ stale. forget_stale-IsTracked t pick (ground arith))
          (λ _. finish_success-IsTracked t pick))

    commit_upsert_chunks-IsTracked :
        (hash : Text) (keys : List Text) (vectors : List (List F))
        → Kept (commit_upsert_chunks f a.shown shared w hash keys vectors a.now)
    unfolding commit_upsert_chunks
    commit_upsert_chunks-IsTracked hash keys vectors =
        let left = (remove_note shared.store w.path).0 in
        rw live (
          if_rule Kept (not (is_current shared.state w))
            (λ stale. forget_stale-IsTracked t pick (ground arith))
            (λ _. elim (Option-cases (insert_chunks f left hash keys vectors).1) [
              | inl e ↦ rw e (
                  publish-IsTracked (finish_success shared.state w) rest
                    (finish_success-IsTracked t pick))
              | inr (error, e) ↦ rw e (requeue_failure-IsTracked t pick (a.shown error) a.now)
            ]))

    pub settle-IsTracked : (outcome : Outcome F) → Kept (settle f a shared w outcome)
    unfolding settle
    settle-IsTracked removed = commit_remove-IsTracked
    settle-IsTracked unchanged = mark_success-IsTracked t pick
    settle-IsTracked (failed e) = requeue_failure-IsTracked t pick e a.now
    settle-IsTracked (embedded hash keys vectors) = commit_upsert_chunks-IsTracked hash keys vectors

  pub settle-live :
      (a : Answers F) (shared : RuntimeShared F) (w : PendingWork) (outcome : Outcome F)
      → (settle f a shared w outcome).0.live ≡ shared.live
  unfolding settle commit_remove commit_upsert_chunks
  settle-live a shared w removed = ground arith
  settle-live a shared w unchanged = refl
  settle-live a shared w (failed e) = refl
  settle-live a shared w (embedded hash keys vectors) = ground arith

  pub finalize-IsTracked :
      (shared : RuntimeShared F) (working : List PendingWork)
      → IsTracked shared.state working
      → IsTracked (finalize_reconciliation_if_complete shared).0.state working
  unfolding finalize_reconciliation_if_complete state_generation
  finalize-IsTracked shared working t =
      let kept : RuntimeShared F × Bool → Type 0 = λ result. IsTracked result.0.state working in
      if_rule kept (not shared.live) (λ _. t)
        (λ _.
          if_rule kept
            (not shared.state.initial_started
              || shared.state.reconciliation_complete
              || not (is_empty_set shared.state.initial_remaining))
            (λ _. t)
            (λ _. record {
              keyed = t.keyed;
              held = t.held;
              distinct = t.distinct;
              owned = t.owned;
              remaining = t.remaining;
              failing = t.failing;
            }))

  pub finalize-live :
      (shared : RuntimeShared F) → (finalize_reconciliation_if_complete shared).0.live ≡ shared.live
  unfolding finalize_reconciliation_if_complete
  finalize-live shared = ground arith

  pub refresh-IsTracked :
      (shared : RuntimeShared F) (working : List PendingWork)
      → IsTracked shared.state working
      → IsTracked (refresh_status shared).state working
  unfolding refresh_status state_generation
  refresh-IsTracked shared working t = record {
    keyed = t.keyed;
    held = t.held;
    distinct = t.distinct;
    owned = t.owned;
    remaining = t.remaining;
    failing = t.failing;
  }
