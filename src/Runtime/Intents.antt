-- ===== src/Runtime/Intents.antt =====
-- src/vault/embedding_runtime.rs: new intents, failed works and the next batch keep every note tracked.
use obsidian_mcp_semantic_me.Base.{
  ℕ, ◌≡◌, ◌≢◌, inl, inr, false, none, List, arith, Text, text_eq, text_eq_iff, insert, remove,
  lookup-insert, lookup-remove, member-set_remove, set_remove, Bool-cases, if_rule, is_empty,
}
use obsidian_mcp_semantic_me.Error.{Result, ok, err}
use obsidian_mcp_semantic_me.Runtime.State.{
  RuntimeState, PendingWork, PendingKind, state_generation, is_current, queue_work, next_generation,
  add_intent, submit, requeue_failure, retried, update_pending_status,
}
use obsidian_mcp_semantic_me.Runtime.Picks.{Pick, Pick-IsDistinct}
use obsidian_mcp_semantic_me.Runtime.Tracking.{
  IsTracked, remove-held, remove-owned, forget_stale-IsTracked,
}

module _ (state : RuntimeState) (work : PendingWork) where
  queue_work-generation :
      (p : Text)
      → state_generation state p ≢ none
      → state_generation (queue_work state work) p ≢ none
  unfolding queue_work state_generation
  queue_work-generation p h = ground (arith, lookup-insert work.path p work state.pending)

  queue_work-IsTracked :
      {working : List PendingWork}
      → IsTracked state working
      → IsTracked (queue_work state work) working
  unfolding queue_work
  queue_work-IsTracked t = record {
    keyed = λ p v h. elim (Bool-cases (text_eq work.path p)) [
      | inl same ↦
          ground (arith, lookup-insert work.path p work state.pending, text_eq_iff work.path p)
      | inr other ↦ t.keyed p v (ground (arith, lookup-insert work.path p work state.pending))
    ];
    held = t.held;
    distinct = t.distinct;
    owned = t.owned;
    remaining = λ p h. queue_work-generation p (t.remaining p h);
    failing = λ p h. queue_work-generation p (t.failing p h);
  }

pub update-IsTracked :
    {state : RuntimeState} {working : List PendingWork}
    → IsTracked state working
    → IsTracked (update_pending_status state) working
unfolding update_pending_status state_generation
update-IsTracked t = record {
  keyed = t.keyed;
  held = t.held;
  distinct = t.distinct;
  owned = t.owned;
  remaining = t.remaining;
  failing = t.failing;
}

next_generation-IsTracked :
    {state : RuntimeState} {working : List PendingWork}
    → IsTracked state working
    → IsTracked (next_generation state) working
unfolding next_generation state_generation
next_generation-IsTracked t = record {
  keyed = t.keyed;
  held = t.held;
  distinct = t.distinct;
  owned = t.owned;
  remaining = t.remaining;
  failing = t.failing;
}

pub add_intent-IsTracked :
    {state : RuntimeState} {working : List PendingWork} (path : Text) (kind : PendingKind) (now : ℕ)
    → IsTracked state working
    → IsTracked (add_intent state path kind now) working
unfolding add_intent
add_intent-IsTracked path kind now t = queue_work-IsTracked _ _ (next_generation-IsTracked t)

pub submit-IsTracked :
    {state : RuntimeState} {working : List PendingWork} (path : Result Text) (kind : PendingKind)
    (now : ℕ)
    → IsTracked state working
    → IsTracked (submit state path kind now) working
unfolding submit
submit-IsTracked (err e) kind now t = t
submit-IsTracked {state} {working} (ok path) kind now t =
    if_rule (λ s. IsTracked s working) (is_empty path) (λ _. t)
      (λ _. update-IsTracked (add_intent-IsTracked path kind now t))

module _ {state : RuntimeState} {w : PendingWork} {working rest : List PendingWork}
    (t : IsTracked state working) (pick : Pick w working rest) (error : Text) (now : ℕ) where
  abbrev failed_state : RuntimeState
  failed_state = record state {
    inflight = remove w.path state.inflight;
    initial_remaining = set_remove w.path state.initial_remaining;
    failures = insert w.path error state.failures;
  }

  requeued_generation :
      (p : Text)
      → (text_eq w.path p ≡ false → state_generation state p ≢ none)
      → state_generation (queue_work failed_state (retried w now)) p ≢ none
  unfolding queue_work state_generation
  requeued_generation p h = elim (Bool-cases (text_eq w.path p)) [
    | inl same ↦ ground (arith, lookup-insert w.path p (retried w now) state.pending)
    | inr other ↦ ground (
      arith,
      lookup-insert w.path p (retried w now) state.pending,
      lookup-remove w.path p state.inflight,
      h other,
    )
  ]

  requeued-IsTracked : IsTracked (queue_work failed_state (retried w now)) rest
  unfolding queue_work
  requeued-IsTracked = record {
    keyed = λ p v h. elim (Bool-cases (text_eq w.path p)) [
      | inl same ↦
          ground (arith, lookup-insert w.path p (retried w now) state.pending, text_eq_iff w.path p)
      | inr other ↦
          t.keyed p v (ground (arith, lookup-insert w.path p (retried w now) state.pending))
    ];
    held = remove-held state.inflight pick t.distinct t.held;
    distinct = Pick-IsDistinct pick t.distinct;
    owned = remove-owned state.inflight pick t.owned;
    remaining = λ p h. requeued_generation p (λ other.
        t.remaining p (ground (arith, member-set_remove w.path p state.initial_remaining)));
    failing = λ p h.
        requeued_generation p
          (λ other. t.failing p (ground (arith, lookup-insert w.path p error state.failures)));
  }

  pub requeue_failure-IsTracked : IsTracked (requeue_failure state w error now) rest
  unfolding requeue_failure
  requeue_failure-IsTracked =
      if_rule (λ s. IsTracked s rest) (is_current state w)
        (λ _. update-IsTracked requeued-IsTracked) (forget_stale-IsTracked t pick)
