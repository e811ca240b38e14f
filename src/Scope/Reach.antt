-- ===== src/Scope/Reach.antt =====
-- src/vault/scope.rs: the patterns that `resolve_into` collects are those of the scopes that a
-- scope reaches through its references.
use obsidian_mcp_semantic_me.Base.{
  ℕ, zero, suc, leb, ◌≡◌, sym, inl, inr, ◌⊎◌, true, false, some, List, [], ◌∷◌, ◌++◌, arith, length,
  Text, text_eq, text_eq_iff, member, member-append, Dict, lookup, Option-cases, Bool-cases,
}
use obsidian_mcp_semantic_me.Error.{Result, ok, Result-cases}
use obsidian_mcp_semantic_me.Scope.{RawScope, resolve_each, resolve_into, max_reference_depth}

-- `Covers raw name pattern`: the scope has the pattern itself or includes one that covers it.
pub data Covers (raw : Dict RawScope) (pattern : Text) : Text → Type 0 where
  own :
      {name : Text} (scope : RawScope)
      → lookup name raw ≡ some scope
      → member pattern scope.patterns ≡ true
      → Covers raw pattern name
  included :
      {name : Text} (scope : RawScope) (reference : Text)
      → lookup name raw ≡ some scope
      → member reference scope.references ≡ true
      → Covers raw pattern reference
      → Covers raw pattern name

-- `Includes raw name other`: a chain of references leads from the one scope to the other.
pub data Includes (raw : Dict RawScope) (other : Text) : Text → Type 0 where
  same : Includes raw other other
  through :
      {name : Text} (scope : RawScope) (reference : Text)
      → lookup name raw ≡ some scope
      → member reference scope.references ≡ true
      → Includes raw other reference
      → Includes raw other name

-- What a call that succeeds has passed.
pub record Passed (fuel : ℕ) (raw : Dict RawScope) (visiting : List Text) (name : Text)
    (out result : List Text) : Type 0 where
  pub fresh : member name visiting ≡ false
  pub scope : RawScope
  pub found : lookup name raw ≡ some scope
  pub each :
      resolve_each
        (resolve_into fuel raw (visiting ++ name ∷ []))
        scope.references
        (out ++ scope.patterns)
      ≡ ok result

pub resolve_into-zero :
    (raw : Dict RawScope) (visiting : List Text) (name : Text) (out result : List Text)
    → ¬ (resolve_into zero raw visiting name out ≡ ok result)
unfolding resolve_into
resolve_into-zero raw visiting name out result h = ground arith

pub resolve_into-Passed :
    (fuel : ℕ) (raw : Dict RawScope) (visiting : List Text) (name : Text) (out result : List Text)
    → resolve_into (suc fuel) raw visiting name out ≡ ok result
    → Passed fuel raw visiting name out result
unfolding resolve_into
resolve_into-Passed fuel raw visiting name out result h = elim (Bool-cases (member name visiting)) [
  | inl e ↦ absurd (ground arith)
  | inr e ↦ elim (Bool-cases (leb max_reference_depth (length visiting))) [
    | inl d ↦ absurd (ground arith)
    | inr d ↦ elim (Option-cases (lookup name raw)) [
      | inl m ↦ absurd (ground arith)
      | inr (scope, m) ↦ record { fresh = e; scope = scope; found = m; each = ground arith }
    ]
  ]
]

module _ (step : Text → List Text → Result (List Text)) where
  pub resolve_each-cons :
      (r : Text) (rs out result : List Text)
      → resolve_each step (r ∷ rs) out ≡ ok result
      → (mid : List Text) × (step r out ≡ ok mid) × (resolve_each step rs mid ≡ ok result)
  unfolding resolve_each
  resolve_each-cons r rs out result h = elim (Result-cases (step r out)) [
    | inl (mid, e) ↦ (mid, e, ground arith)
    | inr (m, e) ↦ absurd (ground arith)
  ]

  module _ (p : Text)
      (grows : (r : Text) (out result : List Text)
        → step r out ≡ ok result
        → member p out ≡ true
        → member p result ≡ true) where
    resolve_each-grows :
        (rs out result : List Text)
        → resolve_each step rs out ≡ ok result
        → member p out ≡ true
        → member p result ≡ true
    unfolding resolve_each
    resolve_each-grows [] out result h k = ground arith
    resolve_each-grows (r ∷ rs) out result h k =
        let (mid, e, f) = resolve_each-cons r rs out result h in
        resolve_each-grows rs mid result f (grows r out mid e k)

    -- Each reference is resolved, and what the call adds is in the result.
    resolve_each-visits :
        (rs out result : List Text) (r : Text)
        → resolve_each step rs out ≡ ok result
        → member r rs ≡ true
        → (o m : List Text) × (step r o ≡ ok m) × (member p m ≡ true → member p result ≡ true)
    unfolding member
    resolve_each-visits [] out result r h k = absurd (ground arith)
    resolve_each-visits (q ∷ rs) out result r h k =
        let (mid, e, f) = resolve_each-cons q rs out result h in
        elim (Bool-cases (text_eq q r)) [
          | inl s ↦
              let s2 : q ≡ r = ground (arith, text_eq_iff q r) in
              (out, mid, rw (sym s2) e, resolve_each-grows rs mid result f)
          | inr n ↦ resolve_each-visits rs mid result r f (ground arith)
        ]

  -- Nothing else is in the result.
  resolve_each-only :
      (p : Text) (C : Text → Type 0)
      → ((r : Text) (out result : List Text)
          → step r out ≡ ok result
          → member p result ≡ true
          → (member p out ≡ true) ⊎ C r)
      → (rs out result : List Text) → resolve_each step rs out ≡ ok result
      → member p result ≡ true
      → (member p out ≡ true) ⊎ ((r : Text) × (member r rs ≡ true) × C r)
  unfolding resolve_each member
  resolve_each-only p C only [] out result h k = inl (ground arith)
  resolve_each-only p C only (r ∷ rs) out result h k =
      let (mid, e, f) = resolve_each-cons r rs out result h in
      elim (resolve_each-only p C only rs mid result f k) [
        | inl a ↦ elim (only r out mid e a) [
          | inl b ↦ inl b
          | inr c ↦ inr (r, ground (arith, text_eq_iff r r), c)
        ]
        | inr (q, m, c) ↦ inr (q, ground arith, c)
      ]

module _ (raw : Dict RawScope) (p : Text) where
  resolve_into-grows :
      (fuel : ℕ) (visiting : List Text) (name : Text) (out result : List Text)
      → resolve_into fuel raw visiting name out ≡ ok result
      → member p out ≡ true
      → member p result ≡ true
  resolve_into-grows zero visiting name out result h k =
      absurd (resolve_into-zero raw visiting name out result h)
  resolve_into-grows (suc fuel) visiting name out result h k =
      let passed = resolve_into-Passed fuel raw visiting name out result h in
      resolve_each-grows (resolve_into fuel raw (visiting ++ name ∷ [])) p
        (resolve_into-grows fuel (visiting ++ name ∷ [])) passed.scope.references
        (out ++ passed.scope.patterns) result passed.each
        (ground (arith, member-append p out passed.scope.patterns))

  pub resolve_into-only :
      (fuel : ℕ) (visiting : List Text) (name : Text) (out result : List Text)
      → resolve_into fuel raw visiting name out ≡ ok result
      → member p result ≡ true
      → (member p out ≡ true) ⊎ Covers raw p name
  resolve_into-only zero visiting name out result h k =
      absurd (resolve_into-zero raw visiting name out result h)
  resolve_into-only (suc fuel) visiting name out result h k =
      let passed = resolve_into-Passed fuel raw visiting name out result h in
      elim (resolve_each-only (resolve_into fuel raw (visiting ++ name ∷ [])) p (Covers raw p)
        (resolve_into-only fuel (visiting ++ name ∷ [])) passed.scope.references
        (out ++ passed.scope.patterns) result passed.each k) [
          | inl a ↦ elim (Bool-cases (member p out)) [
            | inl b ↦ inl b
            | inr b ↦ inr (
                own passed.scope passed.found
                  (ground (arith, member-append p out passed.scope.patterns)))
          ]
          | inr (r, m, c) ↦ inr (included passed.scope r passed.found m c)
        ]

  pub resolve_into-Covers :
      {name : Text} (fuel : ℕ) (visiting out result : List Text)
      → Covers raw p name
      → resolve_into fuel raw visiting name out ≡ ok result
      → member p result ≡ true
  resolve_into-Covers {name} zero visiting out result c h =
      absurd (resolve_into-zero raw visiting name out result h)
  resolve_into-Covers {name} (suc fuel) visiting out result (own scope found m) h =
      let passed = resolve_into-Passed fuel raw visiting name out result h in
      let same_scope : passed.scope ≡ scope = ground (arith, passed.found) in
      resolve_each-grows (resolve_into fuel raw (visiting ++ name ∷ [])) p
        (resolve_into-grows fuel (visiting ++ name ∷ [])) passed.scope.references
        (out ++ passed.scope.patterns) result passed.each
        (ground (arith, member-append p out passed.scope.patterns))
  resolve_into-Covers {name} (suc fuel) visiting out result (included scope r found m c) h =
      let passed = resolve_into-Passed fuel raw visiting name out result h in
      let same_scope : passed.scope ≡ scope = ground (arith, passed.found) in
      let (o, mid, e, into_result) =
        resolve_each-visits (resolve_into fuel raw (visiting ++ name ∷ [])) p
          (resolve_into-grows fuel (visiting ++ name ∷ [])) passed.scope.references
          (out ++ passed.scope.patterns) result r passed.each (ground arith) in
      into_result (resolve_into-Covers fuel (visiting ++ name ∷ []) o mid c e)
