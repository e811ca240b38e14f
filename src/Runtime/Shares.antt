-- ===== src/Runtime/Shares.antt =====
-- src/vault/embedding_runtime.rs: which vectors a batch writes, and where.
use obsidian_mcp_semantic_me.Base.{
  ℕ, ◌+◌, ◌≤◌, ◌≡◌, refl, true, false, not, ◌||◌, some, none, Option, List, ◌∷◌, [], ◌++◌, map,
  arith, Text, text_eq, text_eq_iff, length, take, drop, drop-drop, length-append, All, lookup,
  insert, lookup-insert, Dict, Bool, ltb, Bool-cases, if◌then◌else◌, ap, ◌∙◌,
}
use obsidian_mcp_semantic_me.Error.{ok}
use obsidian_mcp_semantic_me.Embeddings.{
  Float, EmbeddingEntry, EmbeddingStore, note_path_of, retain, remove_note, insert_hashed,
}
use obsidian_mcp_semantic_me.Runtime.State.{PendingWork, is_current}
use obsidian_mcp_semantic_me.Runtime.Commit.{RuntimeShared, insert_chunks, commit_upsert_chunks}
use obsidian_mcp_semantic_me.Runtime.Embed.{embed_in_sub_batches}
use obsidian_mcp_semantic_me.Runtime.Process.{
  Answers, Changed, Sorted, Outcome, embedded, settle, outcome_at, commit_all, texts_of, infer,
  after_inference, embed_changed,
}
use obsidian_mcp_semantic_me.Runtime.Vectors.{embed_in_sub_batches-IsValid, IsValid}

abbrev pub chunk_total : List Changed → ℕ
chunk_total [] = 0
chunk_total (c ∷ changed) = length c.chunks + chunk_total changed

length-map : {A B : Type 0} (g : A → B) (xs : List A) → length (map g xs) ≡ length xs
length-map g [] = refl
length-map g (x ∷ xs) = omega (arith, length-map g xs)

-- The vectors are handed out to the notes one run after the other.
abbrev pub hand_out : {F : Type 0} → List Changed → List (List F) → List (PendingWork × Outcome F)
hand_out [] vectors = []
hand_out (c ∷ changed) vectors =
    (
      c.work,
      embedded c.content_hash (map (λ (e : Text × Text). e.0) c.chunks)
          (take (length c.chunks) vectors),
    )
    ∷ hand_out changed (drop (length c.chunks) vectors)

module _ {F : Type 0} (f : Float F) (a : Answers F) where
  abbrev pub settle_each :
      List (PendingWork × Outcome F) → RuntimeShared F → Bool → RuntimeShared F × Bool
  settle_each [] shared dirty = (shared, dirty)
  settle_each ((work, outcome) ∷ rest) shared dirty =
      let (after, wrote) = settle f a shared work outcome in settle_each rest after (dirty || wrote)

  outcome_at-enough :
      (vectors : List (List F)) (cursor : ℕ) (c : Changed)
      → cursor + length c.chunks ≤ length vectors
      → outcome_at f a vectors cursor c ≡ (
        embedded c.content_hash
            (map (λ (e : Text × Text). e.0) c.chunks)
            (take (length c.chunks) (drop cursor vectors)),
        cursor + length c.chunks,
      )
  unfolding outcome_at
  outcome_at-enough vectors cursor c h =
      let enough : ltb (length vectors) (cursor + length c.chunks) ≡ false = ground arith in
      rw enough refl

  commit_all-hand_out :
      (vectors : List (List F)) (changed : List Changed) (cursor : ℕ) (shared : RuntimeShared F)
      (dirty : Bool)
      → cursor + chunk_total changed ≤ length vectors
      → commit_all f a vectors cursor changed shared dirty
        ≡ settle_each (hand_out changed (drop cursor vectors)) shared dirty
  unfolding commit_all
  commit_all-hand_out vectors [] cursor shared dirty h = refl
  commit_all-hand_out vectors (c ∷ changed) cursor shared dirty h =
      let count = length c.chunks in
      rw
        (
          outcome_at-enough vectors cursor c (omega arith),
          drop-drop count cursor vectors,
          commit_all,
        )
        (commit_all-hand_out vectors changed (cursor + count) _ _ (omega arith))

  length-texts_of : (changed : List Changed) → length (texts_of f a changed) ≡ chunk_total changed
  unfolding texts_of
  length-texts_of [] = refl
  length-texts_of (c ∷ changed) = omega (
    arith,
    length-append (map (λ (e : Text × Text). a.doc_prefix ++ e.1) c.chunks) (texts_of f a changed),
    length-map (λ (e : Text × Text). a.doc_prefix ++ e.1) c.chunks,
    length-texts_of changed,
  )

  -- Where the answers of the provider are accepted, the vectors are handed out to the notes that changed,
  -- each taking as many as it has texts, in order, and each note is settled with them. No note fails for
  -- want of vectors.
  pub embed_changed-hand_out :
      (s : Sorted F) (c : Changed) (changed : List Changed) (vectors : List (List F))
      → s.changed ≡ c ∷ changed
      → a.inference_panic ≡ none
      → (embed_in_sub_batches f a.dimension a.embed 0 a.embed_batch (texts_of f a s.changed)).0
        ≡ ok vectors
      → embed_changed f a s (c ∷ changed)
        ≡ settle_each (hand_out s.changed vectors) s.shared s.dirty
  unfolding embed_changed
  embed_changed-hand_out s c changed vectors e calm made =
      let (count, _) =
        embed_in_sub_batches-IsValid f a.dimension a.embed 0 a.embed_batch (texts_of f a s.changed)
          vectors made in
      ap (λ panic. infer f a s panic) calm
      ∙ ap (λ inference. after_inference f a s inference) made
      ∙ commit_all-hand_out vectors s.changed 0 s.shared s.dirty
          (omega (arith, count, length-texts_of s.changed))

  -- What the loop over the keys and vectors leaves at a key that had `old`.
  abbrev pub assigned :
      Text
      → List Text
      → List (List F)
      → Text
      → Option (EmbeddingEntry F)
      → Option (EmbeddingEntry F)
  assigned hash [] vectors k old = old
  assigned hash (key ∷ keys) [] k old = old
  assigned hash (key ∷ keys) (v ∷ vectors) k old =
      assigned hash keys vectors k
        (if text_eq key k then some (record { vector = v; content_hash = some hash }) else old)

  pub insert_hashed-IsValid :
      (store : EmbeddingStore F) (key hash : Text) (v : List F)
      → IsValid f store.dim v
      → insert_hashed f store key hash v
        ≡ ok (record store {
          embeddings =
              insert key (record { vector = v; content_hash = some hash }) store.embeddings;
        })
  unfolding insert_hashed
  insert_hashed-IsValid store key hash v good = rw good refl

  pub insert_chunks-lookup :
      (hash k : Text) (keys : List Text) (vectors : List (List F)) (store : EmbeddingStore F)
      → All (IsValid f store.dim) vectors
      → ((insert_chunks f store hash keys vectors).1 ≡ none)
        × (lookup k (insert_chunks f store hash keys vectors).0.embeddings
            ≡ assigned hash keys vectors k (lookup k store.embeddings))
  unfolding insert_chunks
  insert_chunks-lookup hash k [] vectors store valid = (refl, refl)
  insert_chunks-lookup hash k (key ∷ keys) [] store valid = (refl, refl)
  insert_chunks-lookup hash k (key ∷ keys) (v ∷ vectors) store (good, valid) =
      let entry : EmbeddingEntry F = record { vector = v; content_hash = some hash } in
      let next : EmbeddingStore F = record store {
        embeddings = insert key entry store.embeddings;
      } in
      let (fine, found) = insert_chunks-lookup hash k keys vectors next valid in
      rw
        (
          insert_hashed-IsValid store key hash v good,
          insert_chunks,
          ← lookup-insert key k entry store.embeddings,
        )
        (fine, found)

  lookup-retain :
      (test : Text → Bool) (k : Text) (entries : Dict (EmbeddingEntry F))
      → lookup k (retain test entries) ≡ (if test k then lookup k entries else none)
  unfolding lookup retain
  lookup-retain test k [] = ground arith
  lookup-retain test k ((key, entry) ∷ entries) = ground (
    arith,
    lookup-retain test k entries,
    text_eq_iff key k,
    Bool-cases (test k),
    Bool-cases (test key),
  )

  -- A commit of the current work of a note, with valid vectors, succeeds; afterwards the store has under each
  -- key what was assigned to it, nothing else of the note, and all of the other notes as it was.
  pub commit_upsert_chunks-lookup :
      (shared : RuntimeShared F) (work : PendingWork) (hash k : Text) (keys : List Text)
      (vectors : List (List F))
      → shared.live ≡ true
      → is_current shared.state work ≡ true
      → All (IsValid f shared.store.dim) vectors
      → let (after, dirty) = commit_upsert_chunks f a.shown shared work hash keys vectors a.now in
        (dirty ≡ true)
        × (lookup k after.store.embeddings
            ≡ assigned hash keys vectors k (
                if text_eq (note_path_of k) work.path
                then none
                else lookup k shared.store.embeddings))
  unfolding commit_upsert_chunks remove_note
  commit_upsert_chunks-lookup shared work hash k keys vectors live current valid =
      let left = (remove_note shared.store work.path).0 in
      let (fine, found) = insert_chunks-lookup hash k keys vectors left valid in
      let gone =
        lookup-retain (λ key. not (text_eq (note_path_of key) work.path)) k
          shared.store.embeddings in
      let same : lookup k left.embeddings ≡ (
          if text_eq (note_path_of k) work.path then none else lookup k shared.store.embeddings) =
        gone ∙ ground arith in
      (
        ground (arith, fine),
        ground (arith, fine, found ∙ ap (λ o. assigned hash keys vectors k o) same),
      )
