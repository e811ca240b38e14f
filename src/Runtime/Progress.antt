-- ===== src/Runtime/Progress.antt =====
-- src/vault/embedding_runtime.rs: where nothing fails, the rounds of the coordinator get all of its work done.
use obsidian_mcp_semantic_me.Base.{
  ◌≡◌, ◌≢◌, refl, inl, inr, true, false, not, ◌||◌, some, none, Option, [], arith, Text, length,
  Bool, List-cases, if_rule, ap, ◌∙◌, subst, sym,
}
use obsidian_mcp_semantic_me.Error.{Result, ok, err}
use obsidian_mcp_semantic_me.Embeddings.{Float}
use obsidian_mcp_semantic_me.Runtime.State.{RuntimeState, state_generation}
use obsidian_mcp_semantic_me.Runtime.Commit.{
  RuntimeShared, Taken, take_due_batch, finalize_reconciliation_if_complete, refresh_status,
  persist_store,
}
use obsidian_mcp_semantic_me.Runtime.Process.{Answers, process_batch}
use obsidian_mcp_semantic_me.Runtime.Coordinator.{
  Loop, again, stopped, Times, Round, after_persist, persist_dirty, is_persist_due, persist_if_due,
  after_batch, work_round, after_take, round,
}
use obsidian_mcp_semantic_me.Runtime.Tracking.{IsTracked}
use obsidian_mcp_semantic_me.Runtime.Batches.{take_due_batch-IsTracked}
use obsidian_mcp_semantic_me.Runtime.Steps.{finalize-IsTracked, refresh-IsTracked}
use obsidian_mcp_semantic_me.Runtime.Start.{process_batch-IsTracked}
use obsidian_mcp_semantic_me.Runtime.Calm.{
  IsCalm, IsSteady, IsSteady-refl, IsSteady-trans, process_batch-IsSteady,
}
use obsidian_mcp_semantic_me.Runtime.Shrinks.{AllDue, take_due_batch-shrinks}

module _ {F : Type 0} (f : Float F) where
  -- A round that goes on, from a shared state whose queue it keeps.
  pub record GoesOn (from : RuntimeShared F) (r : Round F) : Type 0 where
    pub steady : IsSteady from r.shared
    pub tracked : IsTracked r.shared.state []
    pub goes_on : r.next ≡ again

  finalize-IsSteady :
      (shared : RuntimeShared F) → IsSteady shared (finalize_reconciliation_if_complete shared).0
  unfolding finalize_reconciliation_if_complete
  finalize-IsSteady shared = record {
    same_pending = ground arith;
    same_dim = ground arith;
    same_live = ground arith;
  }

  refresh-IsSteady : (shared : RuntimeShared F) → IsSteady shared (refresh_status shared)
  unfolding refresh_status
  refresh-IsSteady shared = record { same_pending = refl; same_dim = refl; same_live = refl }

  noted-IsTracked :
      (state : RuntimeState) (e : Option Text)
      → IsTracked state []
      → IsTracked (record state { persistence_error = e }) []
  unfolding state_generation
  noted-IsTracked state e t = record {
    keyed = t.keyed;
    held = t.held;
    distinct = t.distinct;
    owned = t.owned;
    remaining = t.remaining;
    failing = t.failing;
  }

  -- The end of a round, whether the error of the cache file is noted or taken back.
  noted-GoesOn :
      (shared saved : RuntimeShared F) (e : Option Text) (vars : Loop)
      → IsSteady shared saved
      → IsTracked saved.state []
      → GoesOn shared (record {
        shared =
            refresh_status
              (record saved { state = record (saved.state) { persistence_error = e } });
        vars = vars;
        next = again;
      })
  unfolding refresh_status
  noted-GoesOn shared saved e vars steady t = record {
    steady = record {
      same_pending = steady.same_pending;
      same_dim = steady.same_dim;
      same_live = steady.same_live;
    };
    tracked =
        refresh-IsTracked f
          (record saved { state = record (saved.state) { persistence_error = e } }) []
          (noted-IsTracked saved.state e t);
    goes_on = refl;
  }

  module _ (a : Answers F) (t : Times F) where
    abbrev Persisted : RuntimeShared F → Loop → RuntimeShared F × Result Bool → Type 0
    Persisted shared vars p = GoesOn shared (after_persist f a t vars p.0 p.1)

    persist_store-GoesOn :
        (encoded : Result Text) (written : Result (Unit {0})) (shared : RuntimeShared F)
        (vars : Loop)
        → shared.live ≡ true
        → IsTracked shared.state []
        → Persisted shared vars (persist_store encoded written shared)
    unfolding persist_store
    persist_store-GoesOn (err e) written shared vars live tracked =
        noted-GoesOn shared shared (some (a.shown e)) _ (IsSteady-refl shared) tracked
    persist_store-GoesOn (ok b) (err e) shared vars live tracked =
        if_rule (Persisted shared vars) (not shared.live) (λ dead. absurd (ground arith))
          (λ _. noted-GoesOn shared shared (some (a.shown e)) _ (IsSteady-refl shared) tracked)
    persist_store-GoesOn (ok b) (ok done) shared vars live tracked =
        if_rule (Persisted shared vars) (not shared.live) (λ dead. absurd (ground arith))
          (λ _.
            noted-GoesOn shared (record shared { cache = some b }) none _
              (record { same_pending = refl; same_dim = refl; same_live = refl }) tracked)

    persist_if_due-GoesOn :
        (shared : RuntimeShared F) (vars : Loop)
        → shared.live ≡ true
        → IsTracked shared.state []
        → GoesOn shared (persist_if_due f a t shared vars)
    unfolding persist_if_due persist_dirty
    persist_if_due-GoesOn shared vars live tracked =
        if_rule (GoesOn shared) (is_persist_due f a t vars false)
          {x = persist_dirty f a t shared vars}
          {y = record { shared = shared; vars = vars; next = again }}
          (λ _. persist_store-GoesOn (t.encoded shared.store) t.written shared vars live tracked)
          (λ _. record { steady = IsSteady-refl shared; tracked = tracked; goes_on = refl })

    GoesOn-trans :
        {from mid : RuntimeShared F} {r : Round F}
        → IsSteady from mid
        → GoesOn mid r
        → GoesOn from r
    GoesOn-trans steady g = record {
      steady = IsSteady-trans steady g.steady;
      tracked = g.tracked;
      goes_on = g.goes_on;
    }

    module _ (calm : IsCalm f a) where
      work_round-GoesOn :
          (shared : RuntimeShared F) (vars : Loop) (taken : Taken)
          → shared.live ≡ true
          → a.dimension ≡ shared.store.dim
          → IsTracked taken.state taken.batch
          → GoesOn (record shared { state = taken.state }) (work_round f a t shared vars taken)
      unfolding work_round
      work_round-GoesOn shared vars taken live dims tracked =
          let from = record shared { state = taken.state } in
          let processed = process_batch f a from taken.batch in
          let kept = process_batch-IsSteady f a calm from taken.batch dims in
          let final = finalize_reconciliation_if_complete processed.0 in
          let ended = finalize-IsSteady processed.0 in
          let alive : processed.0.live ≡ true = kept.same_live ∙ live in
          let done = process_batch-IsTracked f a from taken.batch tracked alive in
          let all_kept = IsSteady-trans (IsSteady-trans kept ended) (refresh-IsSteady final.0) in
          GoesOn-trans all_kept (
            persist_if_due-GoesOn (refresh_status final.0)
              (after_batch f a t vars (processed.1 || final.1)) (all_kept.same_live ∙ live)
              (refresh-IsTracked f final.0 [] (finalize-IsTracked f processed.0 [] done)))

      -- With works in the queue that are all due, a round goes on, and the queue that it leaves is that after
      -- the batch was taken.
      pub round-GoesOn :
          (shared : RuntimeShared F) (vars : Loop)
          → shared.live ≡ true
          → a.dimension ≡ shared.store.dim
          → IsTracked shared.state []
          → AllDue t.taken_at shared.state.pending
          → shared.state.pending ≢ []
          → GoesOn
              (record shared { state = (take_due_batch shared.state t.taken_at).state })
              (round f a t shared vars)
      unfolding round
      round-GoesOn shared vars live dims tracked due some_work =
          let taken = take_due_batch shared.state t.taken_at in
          let from = record shared { state = taken.state } in
          let (_, pos) = (take_due_batch-shrinks shared.state t.taken_at due).1 some_work in
          let worked =
            work_round-GoesOn shared vars taken live dims
              (take_due_batch-IsTracked shared.state t.taken_at tracked) in
          let ended : Round F = record { shared = shared; vars = vars; next = stopped } in
          if_rule (GoesOn from) (not shared.live) {x = ended}
            {y = after_take f a t shared vars taken taken.batch} (λ dead. absurd (ground arith))
            (λ _. elim (List-cases taken.batch) [
              | inl e ↦ absurd (omega (arith, ap length e))
              | inr (w, ws, e) ↦
                  subst (λ b. GoesOn from (after_take f a t shared vars taken b)) (sym e) worked
            ])
