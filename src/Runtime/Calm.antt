-- ===== src/Runtime/Calm.antt =====
-- src/vault/embedding_runtime.rs: a batch whose files are read and whose texts are embedded puts nothing back
-- into the queue.
use obsidian_mcp_semantic_me.Base.{
  ℕ, zero, suc, ◌≡◌, refl, inl, inr, false, some, none, Option, List, ◌∷◌, [], ◌++◌, map, arith,
  Text, lookup, length, take, drop, All, if_rule, ◌∙◌, subst, sym, Bool,
}
use obsidian_mcp_semantic_me.Error.{Result-cases, ok, NoteMetadata}
use obsidian_mcp_semantic_me.Chunker.{Run, panicked, out_of_fuel, chunk_note}
use obsidian_mcp_semantic_me.Frontmatter.{get_body}
use obsidian_mcp_semantic_me.Index.{VaultIndex}
use obsidian_mcp_semantic_me.Embeddings.{
  Float, EmbeddingStore, remove_note, insert_hashed, validate_vector,
}
use obsidian_mcp_semantic_me.Runtime.State.{
  PendingWork, PendingKind, upsert, update_pending_status, finish_success, forget_stale,
  mark_success,
}
use obsidian_mcp_semantic_me.Runtime.Commit.{
  RuntimeShared, commit_remove, commit_upsert_chunks, insert_chunks,
}
use obsidian_mcp_semantic_me.Runtime.Embed.{
  max_attempts, PreparedWork, to_remove, to_fail, to_upsert, prepare_note, prepare_content,
  prepare_kind, prepare_work, attempt_group, embed_group, embed_groups, embed_in_sub_batches,
  groups_of, sub_batch_size,
}
use obsidian_mcp_semantic_me.Runtime.Process.{
  Answers, Changed, Sorted, Outcome, removed, unchanged, failed, embedded, settle, sort_item,
  sort_items, is_unchanged, embed_changed, prepare_batch, process_prepared, process_batch, texts_of,
}
use obsidian_mcp_semantic_me.Runtime.Vectors.{ok-ne-err, IsValid, embed_in_sub_batches-IsValid}
use obsidian_mcp_semantic_me.Runtime.Shares.{
  hand_out, settle_each, embed_changed-hand_out, insert_chunks-lookup, insert_hashed-IsValid,
}

-- Nothing fails: files are read, and the first answer of the provider for each group is accepted.
pub record IsCalm {F : Type 0} (f : Float F) (a : Answers F) : Type 0 where
  pub prepared : a.preparation_panic ≡ none
  pub inferred : a.inference_panic ≡ none
  pub reads : (path : Text) → (content : Text) × (a.read path ≡ ok content)
  pub answers :
      (call : ℕ) (group : List Text)
      → (vectors : List (List F)) × (attempt_group f a.dimension a.embed call group ≡ ok vectors)

module _ {F : Type 0} where
  -- The queue, the dimension and the liveness of a shared state are those of another.
  pub record IsSteady (from to : RuntimeShared F) : Type 0 where
    pub same_pending : to.state.pending ≡ from.state.pending
    pub same_dim : to.store.dim ≡ from.store.dim
    pub same_live : to.live ≡ from.live

  pub IsSteady-trans : {r s t : RuntimeShared F} → IsSteady r s → IsSteady s t → IsSteady r t
  IsSteady-trans p q = record {
    same_pending = q.same_pending ∙ p.same_pending;
    same_dim = q.same_dim ∙ p.same_dim;
    same_live = q.same_live ∙ p.same_live;
  }

  pub IsSteady-refl : (r : RuntimeShared F) → IsSteady r r
  IsSteady-refl r = record { same_pending = refl; same_dim = refl; same_live = refl }

  All-take : (P : List F → Type 0) (n : ℕ) (vs : List (List F)) → All P vs → All P (take n vs)
  All-take P zero vs h = tt
  All-take P (suc n) [] h = tt
  All-take P (suc n) (v ∷ vs) (p, h) = (p, All-take P n vs h)

  All-drop : (P : List F → Type 0) (n : ℕ) (vs : List (List F)) → All P vs → All P (drop n vs)
  All-drop P zero vs h = h
  All-drop P (suc n) [] h = tt
  All-drop P (suc n) (v ∷ vs) (p, h) = All-drop P n vs h

module _ {F : Type 0} (f : Float F) (a : Answers F) where
  insert_hashed-dim :
      (store : EmbeddingStore F) (key hash : Text) (v : List F) (next : EmbeddingStore F)
      → insert_hashed f store key hash v ≡ ok next
      → next.dim ≡ store.dim
  unfolding insert_hashed
  insert_hashed-dim store key hash v next h = elim (Result-cases (validate_vector f v store.dim)) [
    | inl (u, e) ↦ ground (arith, insert_hashed-IsValid f a store key hash v e)
    | inr (x, e) ↦ absurd (ok-ne-err (rw (e, insert_hashed) at h))
  ]

  insert_chunks-dim :
      (hash : Text) (keys : List Text) (vectors : List (List F)) (store : EmbeddingStore F)
      → (insert_chunks f store hash keys vectors).0.dim ≡ store.dim
  unfolding insert_chunks
  insert_chunks-dim hash [] vectors store = refl
  insert_chunks-dim hash (key ∷ keys) [] store = refl
  insert_chunks-dim hash (key ∷ keys) (v ∷ vectors) store =
      elim (Result-cases (insert_hashed f store key hash v)) [
        | inl (next, e) ↦
            rw (e, insert_chunks)
              (insert_chunks-dim hash keys vectors next ∙ insert_hashed-dim store key hash v next e)
        | inr (x, e) ↦ rw (e, insert_chunks) refl
      ]

  -- The outcomes that put nothing back.
  abbrev pub Succeeds : ℕ → Outcome F → Type 0
  Succeeds dim removed = Unit {0}
  Succeeds dim unchanged = Unit {0}
  Succeeds dim (failed e) = ⊥
  Succeeds dim (embedded hash keys vectors) = All (IsValid f dim) vectors

  settle-IsSteady :
      (shared : RuntimeShared F) (w : PendingWork) (outcome : Outcome F)
      → Succeeds shared.store.dim outcome
      → IsSteady shared (settle f a shared w outcome).0
  unfolding settle commit_remove commit_upsert_chunks mark_success finish_success forget_stale
      update_pending_status remove_note
  settle-IsSteady shared w removed h = record {
    same_pending = ground arith;
    same_dim = ground arith;
    same_live = ground arith;
  }
  settle-IsSteady shared w unchanged h = record {
    same_pending = ground arith;
    same_dim = refl;
    same_live = refl;
  }
  settle-IsSteady shared w (failed e) h = absurd h
  settle-IsSteady shared w (embedded hash keys vectors) h =
      let left = (remove_note shared.store w.path).0 in
      let (fine, _) = insert_chunks-lookup f a hash [] keys vectors left h in
      let dims = insert_chunks-dim hash keys vectors left in
      record {
        same_pending = ground (arith, fine);
        same_dim = ground (arith, fine, dims);
        same_live = ground (arith, fine);
      }

-- The item is no failure.
abbrev IsFine : PreparedWork → Type 0
IsFine (to_fail w e) = ⊥
IsFine _ = Unit {0}

module _ {F : Type 0} (f : Float F) (a : Answers F) (calm : IsCalm f a) where
  prepare_note-IsFine :
      (w : PendingWork) (m : NoteMetadata) (content : Text) (pieces : Run)
      → chunk_note (get_body content) a.config ≡ pieces
      → IsFine (prepare_note a.hash a.config w m content)
  unfolding prepare_note
  prepare_note-IsFine w m content panicked e = rw (e, prepare_note) tt
  prepare_note-IsFine w m content out_of_fuel e = rw (e, prepare_note) tt
  prepare_note-IsFine w m content (Run.done []) e = rw (e, prepare_note) tt
  prepare_note-IsFine w m content (Run.done (c ∷ cs)) e = rw (e, prepare_note) tt

  prepare_kind-IsFine :
      (w : PendingWork) (kind : PendingKind) (m : Option NoteMetadata)
      → IsFine (prepare_kind a.hash a.config a.read w kind m)
  prepare_kind-IsFine w PendingKind.remove m = tt
  prepare_kind-IsFine w upsert none = tt
  prepare_kind-IsFine w upsert (some m) =
      let (content, e) = calm.reads w.path in
      subst (λ r. IsFine (prepare_content a.hash a.config w m r)) (sym e)
        (prepare_note-IsFine w m content _ refl)

  prepare_batch-IsFine :
      (index : VaultIndex) (batch : List PendingWork) → All IsFine (prepare_batch f a index batch)
  unfolding prepare_batch prepare_work
  prepare_batch-IsFine index [] = tt
  prepare_batch-IsFine index (w ∷ batch) =
      (prepare_kind-IsFine w w.kind (lookup w.path index.notes), prepare_batch-IsFine index batch)

  sort_item-IsSteady :
      (s : Sorted F) (item : PreparedWork)
      → IsFine item
      → IsSteady s.shared (sort_item f a s item).shared
  unfolding sort_item
  sort_item-IsSteady s (to_remove w) fine = settle-IsSteady f a s.shared w removed tt
  sort_item-IsSteady s (to_fail w e) fine = absurd fine
  sort_item-IsSteady s (to_upsert w chunks hash) fine =
      if_rule (λ (s' : Sorted F). IsSteady s.shared s'.shared) (is_unchanged s.shared.store w hash)
        (λ _. settle-IsSteady f a s.shared w unchanged tt) (λ _. IsSteady-refl s.shared)

  sort_items-IsSteady :
      (items : List PreparedWork) (s : Sorted F)
      → All IsFine items
      → IsSteady s.shared (sort_items f a s items).shared
  unfolding sort_items
  sort_items-IsSteady [] s fine = IsSteady-refl s.shared
  sort_items-IsSteady (item ∷ items) s (fine, rest) =
      IsSteady-trans (sort_item-IsSteady s item fine)
        (sort_items-IsSteady items (sort_item f a s item) rest)

  embed_group-ok :
      (call : ℕ) (group : List Text)
      → (vectors : List (List F)) × ((embed_group f a.dimension a.embed max_attempts call group
            none).0
          ≡ ok vectors)
  unfolding embed_group
  embed_group-ok call group =
      let (vectors, e) = calm.answers call group in (vectors, rw (e, embed_group) refl)

  embed_groups-ok :
      (groups : List (List Text)) (call : ℕ) (done : List (List F))
      → (out : List (List F)) × ((embed_groups f a.dimension a.embed call groups done).0 ≡ ok out)
  unfolding embed_groups
  embed_groups-ok [] call done = (done, refl)
  embed_groups-ok (group ∷ groups) call done =
      let step = embed_group f a.dimension a.embed max_attempts call group none in
      let (vectors, e) = embed_group-ok call group in
      let (out, made) = embed_groups-ok groups step.1 (done ++ vectors) in
      (out, rw (e, embed_groups) made)

  settle_each-IsSteady :
      (changed : List Changed) (vectors : List (List F)) (shared : RuntimeShared F) (dirty : Bool)
      → All (IsValid f shared.store.dim) vectors
      → IsSteady shared (settle_each f a (hand_out changed vectors) shared dirty).0
  settle_each-IsSteady [] vectors shared dirty valid = IsSteady-refl shared
  settle_each-IsSteady (c ∷ changed) vectors shared dirty valid =
      let count = length c.chunks in
      let outcome : Outcome F =
        embedded c.content_hash (map (λ (e : Text × Text). e.0) c.chunks) (take count vectors) in
      let step =
        settle-IsSteady f a shared c.work outcome
          (All-take (IsValid f shared.store.dim) count vectors valid) in
      IsSteady-trans step (
        settle_each-IsSteady changed (drop count vectors) _ _ (
          subst (λ d. All (IsValid f d) (drop count vectors)) (sym step.same_dim)
            (All-drop (IsValid f shared.store.dim) count vectors valid)))

  embed_changed-IsSteady :
      (s : Sorted F) (changed : List Changed)
      → s.changed ≡ changed
      → a.dimension ≡ s.shared.store.dim
      → IsSteady s.shared (embed_changed f a s changed).0
  unfolding embed_changed embed_in_sub_batches
  embed_changed-IsSteady s [] e dims = IsSteady-refl s.shared
  embed_changed-IsSteady s (c ∷ changed) e dims =
      let texts = texts_of f a s.changed in
      let (vectors, made) =
        embed_groups-ok (groups_of (length texts) (sub_batch_size a.embed_batch) texts) 0 [] in
      let (_, valid) =
        embed_in_sub_batches-IsValid f a.dimension a.embed 0 a.embed_batch texts vectors made in
      subst (λ r. IsSteady s.shared r.0)
        (sym (embed_changed-hand_out f a s c changed vectors e calm.inferred made))
        (settle_each-IsSteady s.changed vectors s.shared s.dirty
          (subst (λ d. All (IsValid f d) vectors) dims valid))

  -- A calm batch leaves the queue as it was, whatever was in it.
  pub process_batch-IsSteady :
      (shared : RuntimeShared F) (batch : List PendingWork)
      → a.dimension ≡ shared.store.dim
      → IsSteady shared (process_batch f a shared batch).0
  unfolding process_batch
  process_batch-IsSteady shared batch dims =
      let start : Sorted F = record { shared = shared; dirty = false; changed = [] } in
      let items = prepare_batch f a shared.index batch in
      let sorted = sort_items-IsSteady items start (prepare_batch-IsFine shared.index batch) in
      subst (λ p. IsSteady shared (process_prepared f a p shared batch).0) (sym calm.prepared)
        (IsSteady-trans sorted
          (embed_changed-IsSteady (sort_items f a start items) _ refl (dims ∙ sym sorted.same_dim)))
