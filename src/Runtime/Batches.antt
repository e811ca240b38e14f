-- ===== src/Runtime/Batches.antt =====
-- src/vault/embedding_runtime.rs: the works that are due move from the queue into the flight.
use obsidian_mcp_semantic_me.Base.{
  ◌∙◌, Option-cases, take, ◌+◌, ℕ, ◌≡◌, refl, inl, inr, false, some, none, List, ◌∷◌, ◌++◌, [],
  arith, Any-append_left, Any-append_right, Text, text_eq, text_eq_iff, lookup, insert, remove,
  lookup-insert, lookup-remove, Bool-cases, subst,
}
use obsidian_mcp_semantic_me.Runtime.State.{
  RuntimeState, PendingWork, PendingKind, state_generation, update_pending_status,
}
use obsidian_mcp_semantic_me.Runtime.Commit.{
  due_of, sort_due, reconcile_batch_size, take_works, take_due_batch, start_work,
}
use obsidian_mcp_semantic_me.Runtime.Intents.{update-IsTracked}
use obsidian_mcp_semantic_me.Runtime.Picks.{Holds, HoldsPath, IsDistinct-snoc, Holds-snoc}
use obsidian_mcp_semantic_me.Base.{◌≤◌, length, length-append, length-take}
use obsidian_mcp_semantic_me.Runtime.Tracking.{IsTracked}

-- Each work that moves into the flight stays the current one of its note.
start_work-generation :
    (state : RuntimeState) (path p : Text) (work : PendingWork)
    → lookup path state.pending ≡ some work
    → state_generation (start_work state path work) p ≡ state_generation state p
unfolding state_generation
start_work-generation state path p work h = ground (
  arith,
  lookup-insert path p work.generation state.inflight,
  lookup-remove path p state.pending,
  text_eq_iff path p,
)

module _ {state : RuntimeState} {batch : List PendingWork} (t : IsTracked state batch)
    (apart : (v : PendingWork) → Holds v batch → lookup v.path state.pending ≡ none) (path : Text)
    (work : PendingWork) (queued : lookup path state.pending ≡ some work) where
  other_path : (v : PendingWork) → Holds v batch → text_eq path v.path ≡ false
  other_path v h = ground (arith, apart v h, text_eq_iff path v.path)

  start_work-held :
      (v : PendingWork)
      → Holds v (batch ++ work ∷ [])
      → lookup v.path (insert path work.generation state.inflight) ≡ some v.generation
  start_work-held v h = elim (Holds-snoc v work batch h) [
    | inl old ↦ ground (
      arith,
      lookup-insert path v.path work.generation state.inflight,
      other_path v old,
      t.held v old,
    )
    | inr e ↦
        subst (λ z. lookup z.path (insert path work.generation state.inflight) ≡ some z.generation)
          e
          (ground (
            arith,
            lookup-insert path work.path work.generation state.inflight,
            t.keyed path work queued,
            text_eq_iff path work.path,
          ))
  ]

  start_work-owned :
      (p : Text) (g : ℕ)
      → lookup p (insert path work.generation state.inflight) ≡ some g
      → HoldsPath p (batch ++ work ∷ [])
  start_work-owned p g h = elim (Bool-cases (text_eq path p)) [
    | inl same ↦
        Any-append_right (λ v. v.path ≡ p) batch (work ∷ [])
          (inl (ground (arith, t.keyed path work queued, text_eq_iff path p)))
    | inr other ↦
        Any-append_left (λ v. v.path ≡ p) batch (work ∷ [])
          (t.owned p g (ground (arith, lookup-insert path p work.generation state.inflight)))
  ]

  start_work-IsTracked : IsTracked (start_work state path work) (batch ++ work ∷ [])
  start_work-IsTracked = record {
    keyed = λ p v h. t.keyed p v (ground (arith, lookup-remove path p state.pending));
    held = start_work-held;
    distinct =
        IsDistinct-snoc work batch
          (λ v h. ground (
            arith,
            other_path v h,
            t.keyed path work queued,
            text_eq_iff path v.path,
            text_eq_iff v.path work.path,
          ))
          t.distinct;
    owned = start_work-owned;
    remaining = λ p h. rw (start_work-generation state path p work queued) (t.remaining p h);
    failing = λ p h. rw (start_work-generation state path p work queued) (t.failing p h);
  }

  start_work-apart :
      (v : PendingWork)
      → Holds v (batch ++ work ∷ [])
      → lookup v.path (start_work state path work).pending ≡ none
  start_work-apart v h = elim (Holds-snoc v work batch h) [
    | inl old ↦ ground (arith, lookup-remove path v.path state.pending, apart v old)
    | inr e ↦
        subst (λ z. lookup z.path (remove path state.pending) ≡ none) e
          (ground (
            arith,
            lookup-remove path work.path state.pending,
            t.keyed path work queued,
            text_eq_iff path work.path,
          ))
  ]

-- After the loop the works in flight are the batch, and each note has the generation that it had.
take_works-IsTracked :
    (due : List (Text × PendingKind)) (state : RuntimeState) (batch : List PendingWork)
    → IsTracked state batch
    → ((v : PendingWork) → Holds v batch → lookup v.path state.pending ≡ none)
    → IsTracked (take_works due state batch).0 (take_works due state batch).1
unfolding take_works
take_works-IsTracked [] state batch t apart = t
take_works-IsTracked ((path, kind) ∷ due) state batch t apart =
    elim (Option-cases (lookup path state.pending)) [
      | inl e ↦ rw (e, take_works) (take_works-IsTracked due state batch t apart)
      | inr (work, e) ↦
          rw (e, take_works)
            (take_works-IsTracked due (start_work state path work) (batch ++ work ∷ [])
              (start_work-IsTracked t apart path work e) (start_work-apart t apart path work e))
    ]

take_works-generation :
    (p : Text) (due : List (Text × PendingKind)) (state : RuntimeState) (batch : List PendingWork)
    → state_generation (take_works due state batch).0 p ≡ state_generation state p
unfolding take_works
take_works-generation p [] state batch = refl
take_works-generation p ((path, kind) ∷ due) state batch =
    elim (Option-cases (lookup path state.pending)) [
      | inl e ↦ rw (e, take_works) (take_works-generation p due state batch)
      | inr (work, e) ↦
          rw (e, take_works)
            (take_works-generation p due (start_work state path work) (batch ++ work ∷ [])
              ∙ start_work-generation state path p work e)
    ]

take_works-length :
    (due : List (Text × PendingKind)) (state : RuntimeState) (batch : List PendingWork)
    → length (take_works due state batch).1 ≤ length batch + length due
unfolding take_works
take_works-length [] state batch = omega arith
take_works-length ((path, kind) ∷ due) state batch =
    elim (Option-cases (lookup path state.pending)) [
      | inl e ↦ rw (e, take_works) (omega (arith, take_works-length due state batch))
      | inr (work, e) ↦
          rw (e, take_works)
            (omega (
              arith,
              take_works-length due (start_work state path work) (batch ++ work ∷ []),
              length-append batch (work ∷ []),
            ))
    ]

pub take_due_batch-IsTracked :
    (state : RuntimeState) (now : ℕ)
    → IsTracked state []
    → IsTracked (take_due_batch state now).state (take_due_batch state now).batch
unfolding take_due_batch
take_due_batch-IsTracked state now t = update-IsTracked (
    take_works-IsTracked (take reconcile_batch_size (sort_due (due_of now state.pending))) state []
      t (λ v h. elim h [ ]))

-- Taking a batch neither loses an intent nor makes one up: the current generation of every note is that
-- of before, and the batch has at most 32 works.
pub take_due_batch-generation :
    (state : RuntimeState) (now : ℕ) (p : Text)
    → (state_generation (take_due_batch state now).state p ≡ state_generation state p)
      × (length (take_due_batch state now).batch ≤ 32)
unfolding take_due_batch state_generation update_pending_status
take_due_batch-generation state now p =
    let due = take reconcile_batch_size (sort_due (due_of now state.pending)) in
    (
      unfold state_generation in take_works-generation p due state [],
      omega (
        arith,
        take_works-length due state [],
        length-take reconcile_batch_size (sort_due (due_of now state.pending)),
      ),
    )
