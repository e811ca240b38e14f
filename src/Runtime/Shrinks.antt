-- ===== src/Runtime/Shrinks.antt =====
-- src/vault/embedding_runtime.rs: a batch that is due takes works out of the queue.
use obsidian_mcp_semantic_me.Base.{
  ℕ, zero, suc, ◌≤◌, ◌<◌, ◌≡◌, ◌≢◌, refl, inl, inr, true, some, List, ◌∷◌, [], ◌++◌, arith, Text,
  text_eq_iff, Dict, lookup, remove, lookup-remove, length, length-take, length-append, take, All,
  contains_key, leb, Option-cases, if_rule,
}
use obsidian_mcp_semantic_me.Runtime.State.{
  RuntimeState, PendingWork, PendingKind, update_pending_status,
}
use obsidian_mcp_semantic_me.Runtime.Commit.{
  due_of, due_before, insert_due, sort_due, start_work, take_works, take_due_batch,
  reconcile_batch_size,
}

-- Every work may be tried at `now`.
abbrev pub AllDue : ℕ → Dict PendingWork → Type 0
AllDue now pending = (p : Text) (w : PendingWork) → lookup p pending ≡ some w → w.not_before ≤ now

length-remove_le : {V : Type 0} (k : Text) (m : Dict V) → length (remove k m) ≤ length m
unfolding remove
length-remove_le k [] = omega arith
length-remove_le k ((j, v) ∷ m) = ground (arith, length-remove_le k m)

length-remove_lt :
    {V : Type 0} (k : Text) (m : Dict V) (v : V)
    → lookup k m ≡ some v
    → length (remove k m) < length m
unfolding remove lookup
length-remove_lt k [] v h = absurd (ground arith)
length-remove_lt k ((j, w) ∷ m) v h = ground (arith, length-remove_le k m, length-remove_lt k m v)

take_works-shrinks :
    (due : List (Text × PendingKind)) (state : RuntimeState) (batch : List PendingWork)
    → (length (take_works due state batch).0.pending ≤ length state.pending)
      × (length batch ≤ length (take_works due state batch).1)
      × ((p : Text) (w : PendingWork)
          → lookup p (take_works due state batch).0.pending ≡ some w
          → lookup p state.pending ≡ some w)
unfolding take_works
take_works-shrinks [] state batch = (omega arith, omega arith, λ p w h. h)
take_works-shrinks ((path, kind) ∷ due) state batch =
    elim (Option-cases (lookup path state.pending)) [
      | inl e ↦ rw (e, take_works) (take_works-shrinks due state batch)
      | inr (work, e) ↦
          let (less, more, kept) =
            take_works-shrinks due (start_work state path work) (batch ++ work ∷ []) in
          rw (e, take_works)
            (
              omega (arith, less, length-remove_le path state.pending),
              omega (arith, more, length-append batch (work ∷ [])),
              λ p w h. ground (arith, kept p w h, lookup-remove path p state.pending),
            )
    ]

-- Where the first path is queued, a work moves.
take_works-moves :
    (path : Text) (kind : PendingKind) (due : List (Text × PendingKind)) (state : RuntimeState)
    → contains_key path state.pending ≡ true
    → (length (take_works ((path, kind) ∷ due) state []).0.pending < length state.pending)
      × (0 < length (take_works ((path, kind) ∷ due) state []).1)
unfolding take_works
take_works-moves path kind due state h = elim (Option-cases (lookup path state.pending)) [
  | inl e ↦ absurd (ground arith)
  | inr (work, e) ↦
      let (less, more, _) = take_works-shrinks due (start_work state path work) (work ∷ []) in
      rw (e, take_works)
        (omega (arith, less, length-remove_lt path state.pending work e), omega (arith, more))
]

-- Each path of `due` is queued.
abbrev AllQueued : Dict PendingWork → List (Text × PendingKind) → Type 0
AllQueued pending due = All (λ (d : Text × PendingKind). contains_key d.0 pending ≡ true) due

insert_due-All :
    (P : Text × PendingKind → Type 0) (d : Text × PendingKind) (due : List (Text × PendingKind))
    → P d
    → All P due
    → All P (insert_due d due)
unfolding insert_due
insert_due-All P d [] p h = (p, tt)
insert_due-All P d (e ∷ due) p (q, h) =
    if_rule (λ (l : List (Text × PendingKind)). All P l) (due_before e d)
      (λ _. (q, insert_due-All P d due p h)) (λ _. (p, (q, h)))

sort_due-All :
    (P : Text × PendingKind → Type 0) (due : List (Text × PendingKind))
    → All P due
    → All P (sort_due due)
unfolding sort_due
sort_due-All P [] h = tt
sort_due-All P (d ∷ due) (p, h) = insert_due-All P d (sort_due due) p (sort_due-All P due h)

due_of-queued :
    (now : ℕ) (pending whole : Dict PendingWork)
    → ((p : Text) → contains_key p pending ≡ true → contains_key p whole ≡ true)
    → AllQueued whole (due_of now pending)
unfolding due_of lookup
due_of-queued now [] whole h = tt
due_of-queued now ((k, w) ∷ pending) whole h =
    let rest = due_of-queued now pending whole (λ p q. h p (ground (arith, text_eq_iff k p, q))) in
    if_rule (λ l. AllQueued whole l) (leb w.not_before now)
      (λ _. (h k (ground (arith, text_eq_iff k k)), rest)) (λ _. rest)

due_of-first :
    (now : ℕ) (k : Text) (w : PendingWork) (pending : Dict PendingWork)
    → AllDue now ((k, w) ∷ pending)
    → due_of now ((k, w) ∷ pending) ≡ (k, w.kind) ∷ due_of now pending
unfolding due_of lookup
due_of-first now k w pending h =
    let le = h k w (ground (arith, text_eq_iff k k)) in ground (arith, le)

-- The works of the next batch.
abbrev due_now : ℕ → Dict PendingWork → List (Text × PendingKind)
due_now now pending = take reconcile_batch_size (sort_due (due_of now pending))

take-All :
    (P : Text × PendingKind → Type 0) (n : ℕ) (l : List (Text × PendingKind))
    → All P l
    → All P (take n l)
take-All P zero l h = tt
take-All P (suc n) [] h = tt
take-All P (suc n) (d ∷ l) (p, h) = (p, take-All P n l h)

due_now-queued : (now : ℕ) (pending : Dict PendingWork) → AllQueued pending (due_now now pending)
due_now-queued now pending =
    take-All _ reconcile_batch_size (sort_due (due_of now pending))
      (sort_due-All _ (due_of now pending) (due_of-queued now pending pending (λ p h. h)))

length-insert_due :
    (d : Text × PendingKind) (l : List (Text × PendingKind)) → 0 < length (insert_due d l)
unfolding insert_due
length-insert_due d [] = omega arith
length-insert_due d (e ∷ l) =
    if_rule (λ (r : List (Text × PendingKind)). 0 < length r) (due_before e d) (λ _. omega arith)
      (λ _. omega arith)

sort_due-pos :
    (d : Text × PendingKind) (due : List (Text × PendingKind)) → 0 < length (sort_due (d ∷ due))
unfolding sort_due
sort_due-pos d due = length-insert_due d (sort_due due)

due_now-pos :
    (now : ℕ) (pending : Dict PendingWork)
    → AllDue now pending
    → pending ≢ []
    → 0 < length (due_now now pending)
due_now-pos now [] h some_work = absurd (some_work refl)
due_now-pos now ((k, w) ∷ pending) h some_work = rw (due_of-first now k w pending h) (
    omega (
      arith,
      length-take reconcile_batch_size (sort_due ((k, w.kind) ∷ due_of now pending)),
      sort_due-pos (k, w.kind) (due_of now pending),
    ))

take_works-first :
    (l : List (Text × PendingKind)) (state : RuntimeState)
    → AllQueued state.pending l
    → 0 < length l
    → (length (take_works l state []).0.pending < length state.pending)
      × (0 < length (take_works l state []).1)
take_works-first [] state queued h = absurd (omega arith)
take_works-first ((path, kind) ∷ l) state (queued, rest) h =
    take_works-moves path kind l state queued

-- What is left in the queue was there before; if all is due and something is queued, the batch has a
-- work and the queue gets shorter.
pub take_due_batch-shrinks :
    (state : RuntimeState) (now : ℕ)
    → AllDue now state.pending
    → ((p : Text) (w : PendingWork)
        → lookup p (take_due_batch state now).state.pending ≡ some w
        → lookup p state.pending ≡ some w)
      × (state.pending ≢ []
          → (length (take_due_batch state now).state.pending < length state.pending)
            × (0 < length (take_due_batch state now).batch))
unfolding take_due_batch update_pending_status
take_due_batch-shrinks state now due = (
  (take_works-shrinks (due_now now state.pending) state []).2,
  λ some_work.
      take_works-first (due_now now state.pending) state (due_now-queued now state.pending)
        (due_now-pos now state.pending due some_work),
)
