-- ===== src/Runtime/Waiting.antt =====
-- src/vault/embedding_runtime.rs: when the coordinator waits.
use obsidian_mcp_semantic_me.Base.{
  ◌⊎◌, ℕ, ◌≤◌, min, ◌≡◌, refl, inl, inr, true, false, not, some, none, Option, List, ◌∷◌, [], arith,
  Text, text_eq, lookup, Dict, Bool, sym, ◌∙◌, Bool-cases, Option-cases, if_rule,
}
use obsidian_mcp_semantic_me.Error.{Result, ok, err}
use obsidian_mcp_semantic_me.Embeddings.{Float}
use obsidian_mcp_semantic_me.Runtime.State.{PendingWork, RuntimeState, update_pending_status}
use obsidian_mcp_semantic_me.Runtime.Commit.{RuntimeShared, Taken, next_due, take_due_batch}
use obsidian_mcp_semantic_me.Runtime.Process.{Answers}
use obsidian_mcp_semantic_me.Runtime.Coordinator.{
  Loop, again, stopped, wait, wait_until, Times, Round, earlier, wait_for, persist_dirty,
  after_persist, persistence_wake, is_persist_due, persist_if_due, work_round, idle_round,
  after_take, round,
}

-- No pending work may be tried before `next_due`.
next_due-le :
    (pending : Dict PendingWork) (p : Text) (w : PendingWork)
    → lookup p pending ≡ some w
    → (u : ℕ) × (next_due pending ≡ some u) × (u ≤ w.not_before)
unfolding next_due lookup
next_due-le [] p w h = absurd (ground arith)
next_due-le ((k, v) ∷ pending) p w h = elim (Bool-cases (text_eq k p)) [
  | inl here ↦ elim (Option-cases (next_due pending)) [
    | inl e ↦ (v.not_before, ground arith, ground arith)
    | inr (u, e) ↦ (min v.not_before u, ground arith, ground arith)
  ]
  | inr there ↦
      let (u, e, le) = next_due-le pending p w (ground arith) in
      (min v.not_before u, ground arith, omega arith)
]

wait_for-none : (o q : Option ℕ) → wait_for (earlier o q) ≡ wait → (o ≡ none) × (q ≡ none)
wait_for-none none none h = (refl, refl)
wait_for-none none (some b) h = absurd (ground arith)
wait_for-none (some a) none h = absurd (ground arith)
wait_for-none (some a) (some b) h = absurd (ground arith)

wait_for-le :
    (o q : Option ℕ) (u v : ℕ) → wait_for (earlier o q) ≡ wait_until u → o ≡ some v → u ≤ v
wait_for-le none q u v h e = absurd (ground arith)
wait_for-le (some a) none u v h e = ground arith
wait_for-le (some a) (some b) u v h e = ground arith

take_due_batch-next :
    (state : RuntimeState) (now : ℕ)
    → (take_due_batch state now).next_pending ≡ next_due (take_due_batch state now).state.pending
unfolding take_due_batch update_pending_status
take_due_batch-next state now = refl

module _ {F : Type 0} (f : Float F) (a : Answers F) (t : Times F) where
  abbrev IsBusy : Round F → Type 0
  IsBusy r = (r.next ≡ again) ⊎ (r.next ≡ stopped)

  after_persist-IsBusy :
      (vars : Loop) (saved : RuntimeShared F) (result : Result Bool)
      → IsBusy (after_persist f a t vars saved result)
  after_persist-IsBusy vars saved (ok true) = inl refl
  after_persist-IsBusy vars saved (ok false) = inr refl
  after_persist-IsBusy vars saved (err e) = inl refl

  persist_dirty-IsBusy :
      (shared : RuntimeShared F) (vars : Loop) → IsBusy (persist_dirty f a t shared vars)
  unfolding persist_dirty
  persist_dirty-IsBusy shared vars = after_persist-IsBusy vars _ _

  persist_if_due-IsBusy :
      (shared : RuntimeShared F) (vars : Loop) → IsBusy (persist_if_due f a t shared vars)
  unfolding persist_if_due
  persist_if_due-IsBusy shared vars =
      if_rule IsBusy (is_persist_due f a t vars false) {x = persist_dirty f a t shared vars}
        {y = record { shared = shared; vars = vars; next = again }}
        (λ _. persist_dirty-IsBusy shared vars) (λ _. inl refl)

  work_round-IsBusy :
      (shared : RuntimeShared F) (vars : Loop) (taken : Taken)
      → IsBusy (work_round f a t shared vars taken)
  unfolding work_round
  work_round-IsBusy shared vars taken = persist_if_due-IsBusy _ _

  -- A round that waits for a notification alone leaves no work and nothing to write. One that waits
  -- until an instant leaves no work that may be tried before it.
  abbrev pub IsAlert : Round F → Type 0
  IsAlert r =
      (r.next ≡ wait → (r.shared.state.pending ≡ []) × (r.vars.dirty ≡ false))
      × ((u : ℕ) (p : Text) (w : PendingWork)
          → r.next ≡ wait_until u
          → lookup p r.shared.state.pending ≡ some w
          → u ≤ w.not_before)

  busy-IsAlert : (r : Round F) → IsBusy r → IsAlert r
  busy-IsAlert r (inl e) = ((λ h. absurd (ground arith)), (λ u p w h k. absurd (ground arith)))
  busy-IsAlert r (inr e) = ((λ h. absurd (ground arith)), (λ u p w h k. absurd (ground arith)))

  pending-nil : (pending : Dict PendingWork) → next_due pending ≡ none → pending ≡ []
  unfolding next_due
  pending-nil [] h = refl
  pending-nil ((k, v) ∷ pending) h = absurd (ground arith)

  idle_round-IsAlert :
      (shared : RuntimeShared F) (vars : Loop) (taken : Taken)
      → taken.next_pending ≡ next_due taken.state.pending
      → IsAlert (idle_round f a t shared vars taken)
  unfolding idle_round
  idle_round-IsAlert shared vars taken due =
      let next_shared = record shared { state = taken.state } in
      let wake = persistence_wake f a t vars taken.pending_empty in
      let asleep : Round F = record {
        shared = next_shared;
        vars = vars;
        next = wait_for (earlier taken.next_pending wake);
      } in
      if_rule IsAlert (is_persist_due f a t vars taken.pending_empty)
        {x = persist_dirty f a t next_shared vars} {y = asleep}
        (λ _.
          busy-IsAlert (persist_dirty f a t next_shared vars)
            (persist_dirty-IsBusy next_shared vars))
        (λ _. (
          (λ h.
              let (none_pending, none_dirty) = wait_for-none taken.next_pending wake h in
              (pending-nil taken.state.pending (sym due ∙ none_pending), ground arith)),
          (λ u p w h k.
              let (v, e, le) = next_due-le taken.state.pending p w k in
              omega (arith, wait_for-le taken.next_pending wake u v h (due ∙ e), le)),
        ))

  after_take-IsAlert :
      (shared : RuntimeShared F) (vars : Loop) (taken : Taken) (batch : List PendingWork)
      → taken.next_pending ≡ next_due taken.state.pending
      → IsAlert (after_take f a t shared vars taken batch)
  after_take-IsAlert shared vars taken [] due = idle_round-IsAlert shared vars taken due
  after_take-IsAlert shared vars taken (w ∷ ws) due =
      busy-IsAlert (work_round f a t shared vars taken) (work_round-IsBusy shared vars taken)

  pub round-IsAlert : (shared : RuntimeShared F) (vars : Loop) → IsAlert (round f a t shared vars)
  unfolding round
  round-IsAlert shared vars =
      let taken = take_due_batch shared.state t.taken_at in
      let ended : Round F = record { shared = shared; vars = vars; next = stopped } in
      if_rule IsAlert (not shared.live) {x = ended}
        {y = after_take f a t shared vars taken taken.batch} (λ _. busy-IsAlert ended (inr refl))
        (λ _.
          after_take-IsAlert shared vars taken taken.batch
            (take_due_batch-next shared.state t.taken_at))
