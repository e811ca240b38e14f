-- ===== src/Runtime/Start.antt =====
-- src/vault/embedding_runtime.rs: the coordinator starts with every note of the index queued, and a batch
-- leaves nothing in flight.
use obsidian_mcp_semantic_me.Base.{
  if◌then◌else◌, ℕ, ◌≡◌, ◌≢◌, refl, inl, inr, ◌⊎◌, true, some, none, List, ◌∷◌, [], arith, Text,
  text_eq, text_eq_iff, lookup, lookup-insert, contains_key, member, Bool-cases, if_rule, ap, ◌∙◌,
  sym,
}
use obsidian_mcp_semantic_me.Embeddings.{Float, EmbeddingStore}
use obsidian_mcp_semantic_me.Runtime.State.{
  RuntimeState, PendingWork, upsert, state_generation, add_intent, next_generation, queue_work,
  current_paths,
}
use obsidian_mcp_semantic_me.Runtime.Commit.{RuntimeShared}
use obsidian_mcp_semantic_me.Runtime.Process.{Answers, process_batch}
use obsidian_mcp_semantic_me.Runtime.Coordinator.{queue_missing, start}
use obsidian_mcp_semantic_me.Runtime.Tracking.{IsTracked}
use obsidian_mcp_semantic_me.Runtime.Intents.{update-IsTracked}
use obsidian_mcp_semantic_me.Runtime.Steps.{Running, started, finalize-IsTracked, refresh-IsTracked}
use obsidian_mcp_semantic_me.Runtime.Guarantees.{Reachable-IsTracked}
use obsidian_mcp_semantic_me.Runtime.Runs.{process_batch-Reachable}

abbrev pub IsKeyed : RuntimeState → Type 0
IsKeyed state = (p : Text) (w : PendingWork) → lookup p state.pending ≡ some w → w.path ≡ p

lookup-nil {ℓ} : {V : Type ℓ} (p : Text) → lookup {V = V} p [] ≡ none
unfolding lookup
lookup-nil p = refl

module _ (now : ℕ) where
  abbrev queue_one : Text → RuntimeState → RuntimeState
  queue_one path state =
      if contains_key path state.pending then state else add_intent state path upsert now

  add_intent-lookup :
      (path p : Text) (state : RuntimeState)
      → (w : PendingWork) × (w.path ≡ path)
        × (lookup p (add_intent state path upsert now).pending
            ≡ (if text_eq path p then some w else lookup p state.pending))
        × ((add_intent state path upsert now).inflight ≡ state.inflight)
        × ((add_intent state path upsert now).failures ≡ state.failures)
        × ((add_intent state path upsert now).initial_remaining ≡ state.initial_remaining)
  unfolding add_intent queue_work next_generation
  add_intent-lookup path p state = (_, refl, lookup-insert path p _ state.pending, refl, refl, refl)

  queue_one-fields :
      (path : Text) (state : RuntimeState)
      → ((queue_one path state).inflight ≡ state.inflight)
        × ((queue_one path state).failures ≡ state.failures)
        × ((queue_one path state).initial_remaining ≡ state.initial_remaining)
  queue_one-fields path state =
      let (_, _, _, a, b, c) = add_intent-lookup path path state in
      if_rule
        (λ (s : RuntimeState).
          (s.inflight ≡ state.inflight)
          × (s.failures ≡ state.failures)
          × (s.initial_remaining ≡ state.initial_remaining))
        (contains_key path state.pending) (λ _. (refl, refl, refl)) (λ _. (a, b, c))

  queue_one-IsKeyed :
      (path : Text) (state : RuntimeState) → IsKeyed state → IsKeyed (queue_one path state)
  queue_one-IsKeyed path state keyed =
      if_rule IsKeyed (contains_key path state.pending) (λ _. keyed)
        (λ _ p v h.
          let (w, named, found, _, _, _) = add_intent-lookup path p state in
          elim (Bool-cases (text_eq path p)) [
            | inl same ↦ ground (arith, found, named, text_eq_iff path p)
            | inr other ↦ keyed p v (ground (arith, found))
          ])

  queue_one-generation :
      (path p : Text) (state : RuntimeState)
      → (text_eq path p ≡ true) ⊎ (state_generation state p ≢ none)
      → state_generation (queue_one path state) p ≢ none
  unfolding state_generation
  queue_one-generation path p state h =
      if_rule (λ (s : RuntimeState). state_generation s p ≢ none) (contains_key path state.pending)
        (λ queued. ground (arith, text_eq_iff path p))
        (λ fresh.
          let (w, named, found, flight, _, _) = add_intent-lookup path p state in
          ground (arith, found, flight))

  queue_missing-fields :
      (paths : List Text) (state : RuntimeState)
      → ((queue_missing now paths state).inflight ≡ state.inflight)
        × ((queue_missing now paths state).failures ≡ state.failures)
        × ((queue_missing now paths state).initial_remaining ≡ state.initial_remaining)
  unfolding queue_missing
  queue_missing-fields [] state = (refl, refl, refl)
  queue_missing-fields (path ∷ paths) state =
      let (a, b, c) = queue_one-fields path state in
      let (d, e, g) = queue_missing-fields paths (queue_one path state) in (d ∙ a, e ∙ b, g ∙ c)

  queue_missing-IsKeyed :
      (paths : List Text) (state : RuntimeState)
      → IsKeyed state
      → IsKeyed (queue_missing now paths state)
  unfolding queue_missing
  queue_missing-IsKeyed [] state keyed = keyed
  queue_missing-IsKeyed (path ∷ paths) state keyed =
      queue_missing-IsKeyed paths (queue_one path state) (queue_one-IsKeyed path state keyed)

  queue_missing-generation :
      (p : Text) (paths : List Text) (state : RuntimeState)
      → (member p paths ≡ true) ⊎ (state_generation state p ≢ none)
      → state_generation (queue_missing now paths state) p ≢ none
  unfolding queue_missing member
  queue_missing-generation p [] state (inl h) = absurd (ground arith)
  queue_missing-generation p [] state (inr h) = h
  queue_missing-generation p (path ∷ paths) state (inr h) =
      queue_missing-generation p paths (queue_one path state)
        (inr (queue_one-generation path p state (inr h)))
  queue_missing-generation p (path ∷ paths) state (inl h) = elim (Bool-cases (text_eq path p)) [
    | inl same ↦
        queue_missing-generation p paths (queue_one path state)
          (inr (queue_one-generation path p state (inl same)))
    | inr other ↦ queue_missing-generation p paths (queue_one path state) (inl (ground arith))
  ]

  -- The state with every path queued is tracked, whatever of the paths was queued before.
  queue_missing-IsTracked :
      (paths : List Text) (state : RuntimeState)
      → IsKeyed state
      → state.inflight ≡ []
      → state.failures ≡ []
      → state.initial_remaining ≡ paths
      → IsTracked (queue_missing now paths state) []
  queue_missing-IsTracked paths state keyed idle fine all =
      let (flight, failures, remaining) = queue_missing-fields paths state in
      let nobody : (p : Text) → lookup p (queue_missing now paths state).inflight ≡ none =
        λ p. ap (lookup p) (flight ∙ idle) ∙ lookup-nil p in
      let unfailed : (p : Text) → lookup p (queue_missing now paths state).failures ≡ none =
        λ p. ap (lookup p) (failures ∙ fine) ∙ lookup-nil p in
      record {
        keyed = queue_missing-IsKeyed paths state keyed;
        held = λ w h. elim h [ ];
        distinct = tt;
        owned = λ p g h. absurd (ground (arith, nobody p));
        remaining = λ p h.
            queue_missing-generation p paths state
              (inl (ap (member p) (sym (remaining ∙ all)) ∙ h));
        failing = λ p h. absurd (ground (arith, unfailed p));
      }

-- Before the start nothing is in flight and nothing has failed. However many intents were submitted by then,
-- after the start every note of the index is queued or has an intent.
pub start-IsTracked :
    {F : Type 0} (f : Float F) (shared : RuntimeShared F) (loaded : EmbeddingStore F) (now : ℕ)
    → IsKeyed shared.state
    → shared.state.inflight ≡ []
    → shared.state.failures ≡ []
    → IsTracked (start shared loaded now).0.state []
unfolding start
start-IsTracked f shared loaded now keyed idle fine = refresh-IsTracked f _ [] (
    finalize-IsTracked f _ [] (
      update-IsTracked
        (queue_missing-IsTracked now (current_paths shared.index) _ keyed idle fine refl)))

-- A batch that the coordinator holds, whatever the file system and the provider answer: while the runtime
-- is alive, afterwards nothing is in flight, and what is not done is queued.
pub process_batch-IsTracked :
    {F : Type 0} (f : Float F) (a : Answers F) (shared : RuntimeShared F) (batch : List PendingWork)
    → IsTracked shared.state batch
    → (process_batch f a shared batch).0.live ≡ true
    → IsTracked (process_batch f a shared batch).0.state []
process_batch-IsTracked {F} f a shared batch tracked alive =
    let held : Running F = record { shared = shared; working = batch } in
    Reachable-IsTracked f (λ live. tracked) (process_batch-Reachable f a held shared batch started)
      alive
