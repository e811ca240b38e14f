-- ===== src/Scope/Cycles.antt =====
-- src/vault/scope.rs: which includes `resolve_into` refuses and which it takes.
use obsidian_mcp_semantic_me.Base.{
  ℕ, zero, suc, ◌+◌, ◌<◌, ◌≡◌, refl, sym, inl, inr, ◌⊎◌, true, false, some, List, [], ◌∷◌, ◌++◌,
  arith, length, length-append, Text, text_eq, text_eq_iff, member, member-append, Dict, lookup,
  Bool-cases,
}
use obsidian_mcp_semantic_me.Error.{Result, ok}
use obsidian_mcp_semantic_me.Scope.{
  RawScope, resolve_each, resolve_into, max_reference_depth, resolve_scope,
}
use obsidian_mcp_semantic_me.Scope.Reach.{
  Includes, same, through, resolve_into-zero, resolve_into-Passed, resolve_each-cons,
}

resolve_each-reaches :
    (step : Text → List Text → Result (List Text)) (rs out result : List Text) (r : Text)
    → resolve_each step rs out ≡ ok result
    → member r rs ≡ true
    → (o m : List Text) × (step r o ≡ ok m)
unfolding member
resolve_each-reaches step [] out result r h k = absurd (ground arith)
resolve_each-reaches step (q ∷ rs) out result r h k =
    let (mid, e, f) = resolve_each-cons step q rs out result h in
    elim (Bool-cases (text_eq q r)) [
      | inl s ↦ let s2 : q ≡ r = ground (arith, text_eq_iff q r) in (out, mid, rw (sym s2) e)
      | inr n ↦ resolve_each-reaches step rs mid result r f (ground arith)
    ]

module _ (raw : Dict RawScope) where
  -- A scope that is being visited is not reached again.
  resolve_into-fresh :
      {name : Text} (fuel : ℕ) (other : Text) (visiting out result : List Text)
      → Includes raw other name
      → resolve_into fuel raw visiting name out ≡ ok result
      → member other visiting ≡ false
  resolve_into-fresh {name} zero other visiting out result i h =
      absurd (resolve_into-zero raw visiting name out result h)
  resolve_into-fresh {name} (suc fuel) other visiting out result same h =
      (resolve_into-Passed fuel raw visiting name out result h).fresh
  resolve_into-fresh {name} (suc fuel) other visiting out result (through scope r found m i) h =
      let passed = resolve_into-Passed fuel raw visiting name out result h in
      let same_scope : passed.scope ≡ scope = ground (arith, passed.found) in
      let (o, mid, e) = resolve_each-reaches _ _ _ result r passed.each (ground arith) in
      let late = resolve_into-fresh fuel other (visiting ++ name ∷ []) o mid i e in
      ground (arith, member-append other visiting (name ∷ []))

  -- If the call on a scope succeeds, then no scope that it reaches through references includes
  -- itself, whether directly or not.
  pub resolve_into-acyclic :
      {name : Text} (fuel : ℕ) (other : Text) (scope : RawScope) (r : Text)
      (visiting out result : List Text)
      → Includes raw other name
      → resolve_into fuel raw visiting name out ≡ ok result
      → lookup other raw ≡ some scope
      → member r scope.references ≡ true
      → ¬ Includes raw other r
  unfolding member
  resolve_into-acyclic {name} zero other scope r visiting out result i h found m loop =
      resolve_into-zero raw visiting name out result h
  resolve_into-acyclic {name} (suc fuel) other scope r visiting out result same h found m loop =
      let passed = resolve_into-Passed fuel raw visiting name out result h in
      let same_scope : passed.scope ≡ scope = ground (arith, passed.found) in
      let (o, mid, e) = resolve_each-reaches _ _ _ result r passed.each (ground arith) in
      let late = resolve_into-fresh fuel name (visiting ++ name ∷ []) o mid loop e in
      absurd (ground (arith, member-append name visiting (name ∷ []), text_eq_iff name name))
  resolve_into-acyclic {name} (suc fuel) other scope r visiting out result
        (through first q held n i) h found m loop =
      let passed = resolve_into-Passed fuel raw visiting name out result h in
      let same_scope : passed.scope ≡ first = ground (arith, passed.found) in
      let (o, mid, e) = resolve_each-reaches _ _ _ result q passed.each (ground arith) in
      resolve_into-acyclic fuel other scope r (visiting ++ name ∷ []) o mid i e found m loop

-- A rank of the scopes: whatever is included is defined and ranks below.
pub record IsRank (raw : Dict RawScope) (rank : Text → ℕ) : Type 0 where
  pub defined :
      (name reference : Text) (scope : RawScope)
      → lookup name raw ≡ some scope
      → member reference scope.references ≡ true
      → (other : RawScope) × (lookup reference raw ≡ some other)
  pub below :
      (name reference : Text) (scope : RawScope)
      → lookup name raw ≡ some scope
      → member reference scope.references ≡ true
      → rank reference < rank name

resolve_each-total :
    (step : Text → List Text → Result (List Text)) (rs : List Text)
    → ((r : Text) (out : List Text)
        → member r rs ≡ true
        → (result : List Text) × (step r out ≡ ok result))
    → (out : List Text) → (result : List Text) × (resolve_each step rs out ≡ ok result)
unfolding resolve_each member
resolve_each-total step [] total out = (out, refl)
resolve_each-total step (r ∷ rs) total out =
    let (mid, e) = total r out (ground (arith, text_eq_iff r r)) in
    let (result, f) = resolve_each-total step rs (λ q o m. total q o (ground arith)) mid in
    (result, ground arith)

member-snoc :
    (v name : Text) (visiting : List Text)
    → member v (visiting ++ name ∷ []) ≡ true
    → (member v visiting ≡ true) ⊎ (name ≡ v)
unfolding member
member-snoc v name visiting k = elim (Bool-cases (member v visiting)) [
  | inl e ↦ inl e
  | inr e ↦ inr (ground (arith, member-append v visiting (name ∷ []), text_eq_iff name v))
]

not_visiting :
    (name : Text) (visiting : List Text) (rank : Text → ℕ)
    → ((v : Text) → member v visiting ≡ true → rank name < rank v)
    → member name visiting ≡ false
not_visiting name visiting rank above = elim (Bool-cases (member name visiting)) [
  | inl e ↦ let loop = above name e in absurd (omega arith)
  | inr e ↦ e
]

module _ (raw : Dict RawScope) (rank : Text → ℕ) (h : IsRank raw rank) where
  resolve_into-total :
      (fuel : ℕ) (visiting : List Text) (name : Text) (out : List Text) (scope : RawScope)
      → lookup name raw ≡ some scope
      → rank name < fuel
      → rank name + length visiting < max_reference_depth
      → ((v : Text) → member v visiting ≡ true → rank name < rank v)
      → (result : List Text) × (resolve_into fuel raw visiting name out ≡ ok result)
  unfolding resolve_into
  resolve_into-total zero visiting name out scope found enough shallow above = absurd (omega arith)
  resolve_into-total (suc fuel) visiting name out scope found enough shallow above =
      let (result, e) =
        resolve_each-total (resolve_into fuel raw (visiting ++ name ∷ [])) scope.references
          (λ r o m.
            let (other, found_other) = h.defined name r scope found m in
            let lower = h.below name r scope found m in
            resolve_into-total fuel (visiting ++ name ∷ []) r o other found_other (omega arith)
              (ground (arith, length-append visiting (name ∷ [])))
              (λ v k. elim (member-snoc v name visiting k) [
                | inl a ↦ let higher = above v a in omega arith
                | inr b ↦ rw (sym b) lower
              ]))
          (out ++ scope.patterns) in
      let fresh = not_visiting name visiting rank above in (result, ground arith)

-- Where the includes of every block of the file are of defined scopes and rank below the scope that
-- includes them, which says that no scope includes itself, resolving a scope of a rank below 16, whose
-- includes nest at most 16 deep, succeeds.
pub resolve_scope-total :
    (raw : Dict RawScope) (rank : Text → ℕ) (name : Text) (scope : RawScope)
    → IsRank raw rank
    → lookup name raw ≡ some scope
    → rank name < max_reference_depth
    → (result : List Text) × (resolve_scope raw name ≡ ok result)
unfolding member
resolve_scope-total raw rank name scope h found low =
    resolve_into-total raw rank h 17 [] name [] scope found (omega arith) (omega arith)
      (λ v k. absurd (ground arith))
