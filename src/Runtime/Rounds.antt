-- ===== src/Runtime/Rounds.antt =====
-- src/vault/embedding_runtime.rs: the rounds of the coordinator, and that they get all of its work done
-- where nothing fails.
use obsidian_mcp_semantic_me.Base.{
  ℕ, zero, suc, ◌≤◌, ◌≡◌, ◌≢◌, refl, inl, inr, true, false, none, [], arith, Text, lookup, length,
  member, List-cases, ap, ◌∙◌, subst, sym,
}
use obsidian_mcp_semantic_me.Embeddings.{Float}
use obsidian_mcp_semantic_me.Runtime.State.{RuntimeState}
use obsidian_mcp_semantic_me.Runtime.Commit.{RuntimeShared}
use obsidian_mcp_semantic_me.Runtime.Process.{Answers}
use obsidian_mcp_semantic_me.Runtime.Coordinator.{Loop, again, Times, Round, round}
use obsidian_mcp_semantic_me.Runtime.Tracking.{IsTracked, IsTracked-drained}
use obsidian_mcp_semantic_me.Runtime.Calm.{IsCalm}
use obsidian_mcp_semantic_me.Runtime.Shrinks.{AllDue, take_due_batch-shrinks}
use obsidian_mcp_semantic_me.Runtime.Tracking.{IsTracked-drained}
use obsidian_mcp_semantic_me.Runtime.Progress.{round-GoesOn}

module _ {F : Type 0} (f : Float F) where
  -- Rounds until one does not go on, or `n` of them; the `k`-th has its own answers and times.
  module _ (a : ℕ → Answers F) (t : ℕ → Times F) where
    unfoldable pub rounds : ℕ → ℕ → RuntimeShared F → Loop → Round F
    rounds zero k shared vars = record { shared = shared; vars = vars; next = again }
    rounds (suc n) k shared vars =
        let r = round f (a k) (t k) shared vars in
        elim r.next [ again ↦ rounds n (suc k) r.shared r.vars | _ ↦ r ]

    -- The queue is empty, and no note is left over: not of the initial pass, not failed, not in flight.
    abbrev pub IsDone : RuntimeState → Type 0
    IsDone state =
        (state.pending ≡ [])
        × ((p : Text)
            → (member p state.initial_remaining ≡ false)
              × (lookup p state.failures ≡ none)
              × (lookup p state.inflight ≡ none))

    nothing_left : (state : RuntimeState) → IsTracked state [] → state.pending ≡ [] → IsDone state
    nothing_left state tracked empty = (empty, IsTracked-drained tracked empty)

    rounds-suc :
        (m k : ℕ) (shared : RuntimeShared F) (vars : Loop)
        → (round f (a k) (t k) shared vars).next ≡ again
        → rounds (suc m) k shared vars
          ≡ rounds m
              (suc k)
              (round f (a k) (t k) shared vars).shared
              (round f (a k) (t k) shared vars).vars
    unfolding rounds
    rounds-suc m k shared vars e = rw (e, rounds) refl

    rounds-within :
        (n k : ℕ) (shared : RuntimeShared F) (vars : Loop)
        → ((i : ℕ) → IsCalm f (a i))
        → ((i : ℕ) → (a i).dimension ≡ shared.store.dim)
        → ((i : ℕ) → AllDue (t i).taken_at shared.state.pending)
        → shared.live ≡ true
        → IsTracked shared.state []
        → length shared.state.pending ≤ n
        → (m : ℕ) × (m ≤ length shared.state.pending)
          × ((rounds m k shared vars).next ≡ again)
          × IsDone (rounds m k shared vars).shared.state
    unfolding rounds
    rounds-within zero k shared vars calm dims due live tracked enough =
        (0, omega arith, refl, nothing_left shared.state tracked (ground arith))
    rounds-within (suc n) k shared vars calm dims due live tracked enough =
        elim (List-cases shared.state.pending) [
          | inl none_left ↦ (0, omega arith, refl, nothing_left shared.state tracked none_left)
          | inr (first, others, e) ↦
              let now = (t k).taken_at in
              let r = round f (a k) (t k) shared vars in
              let some_work : shared.state.pending ≢ [] = ground arith in
              let g =
                round-GoesOn f (a k) (t k) (calm k) shared vars live (dims k) tracked (due k)
                  some_work in
              let (kept, shorter) = take_due_batch-shrinks shared.state now (due k) in
              let (less, _) = shorter some_work in
              let fewer = ap length g.steady.same_pending in
              let (m, le, goes_on, done) =
                rounds-within n (suc k) r.shared r.vars calm (λ i. dims i ∙ sym g.steady.same_dim)
                  (λ i p w h. due i p w (kept p w (rw (g.steady.same_pending) at h)))
                  (g.steady.same_live ∙ live) g.tracked (omega (arith, fewer)) in
              let step = rounds-suc m k shared vars g.goes_on in
              (
                suc m,
                omega (arith, fewer),
                ap (λ q. q.next) step ∙ goes_on,
                subst (λ q. IsDone q.shared.state) (sym step) done,
              )
        ]

    -- If files are read, vectors are accepted and every queued work is due, then after at most as many rounds
    -- as there are works in the queue, the coordinator goes on with an empty queue and nothing is left over.
    pub rounds-IsDone :
        (shared : RuntimeShared F) (vars : Loop)
        → ((i : ℕ) → IsCalm f (a i))
        → ((i : ℕ) → (a i).dimension ≡ shared.store.dim)
        → ((i : ℕ) → AllDue (t i).taken_at shared.state.pending)
        → shared.live ≡ true
        → IsTracked shared.state []
        → (m : ℕ) × (m ≤ length shared.state.pending)
          × ((rounds m 0 shared vars).next ≡ again)
          × IsDone (rounds m 0 shared vars).shared.state
    rounds-IsDone shared vars calm dims due live tracked =
        rounds-within (length shared.state.pending) 0 shared vars calm dims due live tracked
          (omega arith)
