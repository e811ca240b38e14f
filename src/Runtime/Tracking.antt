-- ===== src/Runtime/Tracking.antt =====
-- src/vault/embedding_runtime.rs: no note is lost between the queue, the works in flight and the failures.
use obsidian_mcp_semantic_me.Base.{
  Option-cases, [], ℕ, ◌≡◌, ◌≢◌, inl, inr, true, false, some, none, List, arith, Text, text_eq,
  text_eq_iff, lookup, lookup-remove, contains_key, member, member-set_remove, Bool-cases, if_rule,
}
use obsidian_mcp_semantic_me.Base.{Dict, remove, ==_iff}
use obsidian_mcp_semantic_me.Runtime.State.{
  mark_success, RuntimeState, PendingWork, state_generation, is_current, finish_success,
  forget_stale, update_pending_status,
}
use obsidian_mcp_semantic_me.Runtime.Picks.{
  Holds, HoldsPath, IsDistinct, Pick, Pick-Holds, Pick-Holds_rest, Pick-IsDistinct, Pick-apart,
  Pick-HoldsPath,
}

-- The works in flight are exactly those that are held, each note once; and a note of the initial pass that
-- is not done, or whose last attempt failed, is queued or in flight.
pub record IsTracked (state : RuntimeState) (working : List PendingWork) : Type 0 where
  pub keyed : (p : Text) (w : PendingWork) → lookup p state.pending ≡ some w → w.path ≡ p
  pub held : (w : PendingWork) → Holds w working → lookup w.path state.inflight ≡ some w.generation
  pub distinct : IsDistinct working
  pub owned : (p : Text) (g : ℕ) → lookup p state.inflight ≡ some g → HoldsPath p working
  pub remaining :
      (p : Text) → member p state.initial_remaining ≡ true → state_generation state p ≢ none
  pub failing : (p : Text) → contains_key p state.failures ≡ true → state_generation state p ≢ none

-- With no works held and none queued, nothing is left over.
pub IsTracked-drained :
    {state : RuntimeState}
    → IsTracked state []
    → state.pending ≡ []
    → (p : Text)
    → (member p state.initial_remaining ≡ false)
      × (lookup p state.failures ≡ none)
      × (lookup p state.inflight ≡ none)
unfolding state_generation lookup
IsTracked-drained {state} t empty p =
    let no_flight : lookup p state.inflight ≡ none = elim (Option-cases (lookup p state.inflight)) [
      | inl e ↦ e
      | inr (g, e) ↦ absurd (t.owned p g e)
    ] in
    let no_intent : state_generation state p ≡ none =
      rw (empty, state_generation, lookup) no_flight in
    (ground (arith, t.remaining p, no_intent), ground (arith, t.failing p, no_intent), no_flight)

-- A work that is picked leaves the flight, and the others stay.
module _ (inflight : Dict ℕ) {w : PendingWork} {working rest : List PendingWork}
    (pick : Pick w working rest) where
  pub remove-held :
      IsDistinct working
      → ((v : PendingWork) → Holds v working → lookup v.path inflight ≡ some v.generation)
      → (v : PendingWork) → Holds v rest
      → lookup v.path (remove w.path inflight) ≡ some v.generation
  remove-held d held v h =
      rw (lookup-remove w.path v.path inflight, Pick-apart v pick d h)
        (held v (Pick-Holds_rest v pick h))

  pub remove-owned :
      ((p : Text) (g : ℕ) → lookup p inflight ≡ some g → HoldsPath p working)
      → (p : Text) (g : ℕ) → lookup p (remove w.path inflight) ≡ some g
      → HoldsPath p rest
  remove-owned owned p g h = elim (Bool-cases (text_eq w.path p)) [
    | inl same ↦ absurd (ground (arith, lookup-remove w.path p inflight))
    | inr other ↦
        Pick-HoldsPath p pick other (owned p g (ground (arith, lookup-remove w.path p inflight)))
  ]

module _ {state : RuntimeState} {w : PendingWork} {working rest : List PendingWork}
    (t : IsTracked state working) (pick : Pick w working rest) where
  -- A note that is not `w`'s is tracked as it was.
  pub generation_other :
      (p : Text)
      → text_eq w.path p ≡ false
      → state_generation state p ≢ none
      → state_generation (forget_stale state w) p ≢ none
  unfolding forget_stale update_pending_status state_generation
  generation_other p other h = ground (arith, lookup-remove w.path p state.inflight)

  pub finish_success-IsTracked : IsTracked (finish_success state w) rest
  unfolding finish_success forget_stale update_pending_status state_generation
  finish_success-IsTracked = record {
    keyed = t.keyed;
    held = remove-held state.inflight pick t.distinct t.held;
    distinct = Pick-IsDistinct pick t.distinct;
    owned = remove-owned state.inflight pick t.owned;
    remaining = λ p h. elim (Bool-cases (text_eq w.path p)) [
      | inl same ↦ absurd (ground (arith, member-set_remove w.path p state.initial_remaining))
      | inr other ↦
          generation_other p other
            (t.remaining p (ground (arith, member-set_remove w.path p state.initial_remaining)))
    ];
    failing = λ p h. elim (Bool-cases (text_eq w.path p)) [
      | inl same ↦ absurd (ground (arith, lookup-remove w.path p state.failures))
      | inr other ↦
          generation_other p other
            (t.failing p (ground (arith, lookup-remove w.path p state.failures)))
    ];
  }

  -- Where the work is stale, the newer intent is in the queue.
  stale_queued :
      is_current state w ≡ false
      → (p : Text) → text_eq w.path p ≡ true
      → contains_key p state.pending ≡ true
  unfolding state_generation
  stale_queued stale p same =
      ground
        (arith, t.held w (Pick-Holds pick), text_eq_iff w.path p, ==_iff w.generation w.generation)

  stale_generation :
      is_current state w ≡ false
      → (p : Text) → state_generation state p ≢ none
      → state_generation (forget_stale state w) p ≢ none
  unfolding forget_stale update_pending_status state_generation
  stale_generation stale p h = elim (Bool-cases (text_eq w.path p)) [
    | inl same ↦ ground (arith, stale_queued stale p same)
    | inr other ↦ generation_other p other h
  ]

  pub forget_stale-IsTracked : is_current state w ≡ false → IsTracked (forget_stale state w) rest
  unfolding forget_stale update_pending_status
  forget_stale-IsTracked stale = record {
    keyed = t.keyed;
    held = remove-held state.inflight pick t.distinct t.held;
    distinct = Pick-IsDistinct pick t.distinct;
    owned = remove-owned state.inflight pick t.owned;
    remaining = λ p h. stale_generation stale p (t.remaining p h);
    failing = λ p h. stale_generation stale p (t.failing p h);
  }

  pub mark_success-IsTracked : IsTracked (mark_success state w) rest
  unfolding mark_success
  mark_success-IsTracked =
      if_rule (λ s. IsTracked s rest) (is_current state w) (λ _. finish_success-IsTracked)
        forget_stale-IsTracked
