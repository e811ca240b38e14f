-- ===== src/Runtime/Vectors.antt =====
-- src/vault/embedding_runtime.rs: each chunk of a batch gets the vector that was made for it.
use obsidian_mcp_semantic_me.Base.{
  ℕ, zero, suc, ◌+◌, ◌≤◌, ◌<◌, ◌≡◌, refl, inl, inr, not, some, none, Option, List, ◌∷◌, [], ◌++◌,
  arith, Text, length, drop, length-append, length-take, length-drop, All, All-append, ◌==◌,
  Bool-cases, subst, trim, parse_usize,
}
use obsidian_mcp_semantic_me.Error.{VaultError, Result, ok, err, Result-cases, ◌>>=◌}
use obsidian_mcp_semantic_me.Embeddings.{Float, validate_vector}
use obsidian_mcp_semantic_me.Runtime.Embed.{
  validate_all, validate_embedding_batch, groups_of, attempt_group, embed_group, embed_groups,
  embed_in_sub_batches, sub_batch_size, max_attempts, positive_or_default,
}

pub ok-ne-err {ℓ} : {A : Type ℓ} {x : VaultError} {a : A} → err x ≡ ok a → ⊥
ok-ne-err h = cc

abbrev total : {A : Type 0} → List (List A) → ℕ
total [] = 0
total (g ∷ groups) = length g + total groups

-- The groups hold all the items.
total-groups_of :
    {A : Type 0} (fuel size : ℕ) (xs : List A)
    → length xs ≤ fuel
    → 0 < size
    → total (groups_of fuel size xs) ≡ length xs
unfolding groups_of
total-groups_of zero size [] h pos = refl
total-groups_of zero size (x ∷ xs) h pos = absurd (omega arith)
total-groups_of (suc fuel) size [] h pos = refl
total-groups_of (suc fuel) size (x ∷ xs) h pos = omega (
  arith,
  total-groups_of fuel size (drop size (x ∷ xs)) (omega (arith, length-drop size (x ∷ xs))) pos,
  length-drop size (x ∷ xs),
  length-take size (x ∷ xs),
)

sub_batch_size-pos : (value : Option Text) → 0 < sub_batch_size value
unfolding sub_batch_size
sub_batch_size-pos none = omega arith
sub_batch_size-pos (some v) = positive (parse_usize (trim v))
  where
    positive : (o : Option ℕ) → 0 < positive_or_default o
    positive none = omega arith
    positive (some n) = ground arith

module _ {F : Type 0} (f : Float F) (dimension : ℕ) where
  -- A vector of the dimension of the model whose numbers are finite.
  abbrev pub IsValid : List F → Type 0
  IsValid v = validate_vector f v dimension ≡ ok tt

  validate_all-IsValid :
      (vectors : List (List F)) → validate_all f vectors dimension ≡ ok tt → All IsValid vectors
  unfolding validate_all
  validate_all-IsValid [] h = tt
  validate_all-IsValid (v ∷ vectors) h = elim (Result-cases (validate_vector f v dimension)) [
    | inl (u, e) ↦ (e, validate_all-IsValid vectors (rw e at h))
    | inr (x, e) ↦ absurd (cc (e))
  ]

  validate_embedding_batch-IsValid :
      (vectors out : List (List F)) (count : ℕ)
      → validate_embedding_batch f vectors count dimension ≡ ok out
      → (length out ≡ count) × All IsValid out
  unfolding validate_embedding_batch
  validate_embedding_batch-IsValid vectors out count h =
      elim (Bool-cases (not (length vectors == count))) [
        | inl e ↦ absurd (ok-ne-err (rw (e, validate_embedding_batch) at h))
        | inr e ↦ elim (Result-cases (validate_all f vectors dimension)) [
          | inl (u, valid) ↦
              let same : vectors ≡ out = cc (rw (e, valid, validate_embedding_batch) at h) in
              subst (λ z. (length z ≡ count) × All IsValid z) same
                (ground arith, validate_all-IsValid vectors valid)
          | inr (x, bad) ↦ absurd (ok-ne-err (rw (e, bad, validate_embedding_batch) at h))
        ]
      ]

  module _ (embed : ℕ → List Text → Result (List (List F))) where
    attempt_group-IsValid :
        (call : ℕ) (group : List Text) (vectors : List (List F))
        → attempt_group f dimension embed call group ≡ ok vectors
        → (length vectors ≡ length group) × All IsValid vectors
    attempt_group-IsValid call group vectors h = elim (Result-cases (embed call group)) [
      | inl (raw, e) ↦
          validate_embedding_batch-IsValid raw vectors (length group) (rw (e, ◌>>=◌) at h)
      | inr (x, e) ↦ absurd (ok-ne-err (rw (e, ◌>>=◌) at h))
    ]

    embed_group-IsValid :
        (attempts call : ℕ) (group : List Text) (last : Option VaultError) (out : List (List F))
        → (embed_group f dimension embed attempts call group last).0 ≡ ok out
        → (length out ≡ length group) × All IsValid out
    unfolding embed_group
    embed_group-IsValid zero call group last out h = absurd (ground arith)
    embed_group-IsValid (suc attempts) call group last out h =
        elim (Result-cases (attempt_group f dimension embed call group)) [
          | inl (vectors, e) ↦
              let same : vectors ≡ out = cc (rw (e, embed_group) at h) in
              subst (λ z. (length z ≡ length group) × All IsValid z) same
                (attempt_group-IsValid call group vectors e)
          | inr (x, e) ↦
              embed_group-IsValid attempts (suc call) group (some x) out (rw (e, embed_group) at h)
        ]

    embed_groups-IsValid :
        (groups : List (List Text)) (call : ℕ) (done out : List (List F))
        → (embed_groups f dimension embed call groups done).0 ≡ ok out
        → All IsValid done
        → (length out ≡ length done + total groups) × All IsValid out
    unfolding embed_groups
    embed_groups-IsValid [] call done out h valid =
        let same : done ≡ out = cc (h) in
        subst (λ z. (length z ≡ length done + 0) × All IsValid z) same (omega arith, valid)
    embed_groups-IsValid (group ∷ groups) call done out h valid =
        let step = embed_group f dimension embed max_attempts call group none in
        elim (Result-cases step.0) [
          | inl (vectors, e) ↦
              let (count, good) = embed_group-IsValid max_attempts call group none vectors e in
              let (rest, all) =
                embed_groups-IsValid groups step.1 (done ++ vectors) out (rw (e, embed_groups) at h)
                  (All-append IsValid done vectors valid good) in
              (omega (arith, rest, count, length-append done vectors), all)
          | inr (x, e) ↦ absurd (ok-ne-err (rw (e, embed_groups) at h))
        ]

    -- If the sub-batches succeed, there is one vector for each text, and each is valid.
    pub embed_in_sub_batches-IsValid :
        (call : ℕ) (embed_batch : Option Text) (texts : List Text) (out : List (List F))
        → (embed_in_sub_batches f dimension embed call embed_batch texts).0 ≡ ok out
        → (length out ≡ length texts) × All IsValid out
    unfolding embed_in_sub_batches
    embed_in_sub_batches-IsValid call embed_batch texts out h =
        let size = sub_batch_size embed_batch in
        let (count, all) =
          embed_groups-IsValid (groups_of (length texts) size texts) call [] out h tt in
        (
          omega (
            arith,
            count,
            total-groups_of (length texts) size texts (omega arith)
                (sub_batch_size-pos embed_batch),
          ),
          all,
        )
