-- ===== src/Runtime/Runs.antt =====
-- src/vault/embedding_runtime.rs: `process_batch` is a run of steps that settles each work of its batch once.
use obsidian_mcp_semantic_me.Base.{
  ℕ, ◌≡◌, refl, ◌||◌, some, none, Option, List, ◌∷◌, [], ◌++◌, map, Text, bytes, lookup, Bool,
  if_rule, ap, sym, append-nil, subst,
}
use mathlib.Core.Path.{ap₂}
use obsidian_mcp_semantic_me.Index.{VaultIndex}
use obsidian_mcp_semantic_me.Error.{Result, ok, err, NoteMetadata}
use obsidian_mcp_semantic_me.Embeddings.{Float}
use obsidian_mcp_semantic_me.Chunker.{Run, done, panicked, out_of_fuel, chunk_note}
use obsidian_mcp_semantic_me.Frontmatter.{get_body}
use obsidian_mcp_semantic_me.Runtime.State.{PendingWork, PendingKind, upsert}
use obsidian_mcp_semantic_me.Runtime.Commit.{RuntimeShared}
use obsidian_mcp_semantic_me.Runtime.Embed.{
  PreparedWork, to_remove, to_fail, to_upsert, prepare_note, prepare_content, prepare_kind,
  prepare_work,
}
use obsidian_mcp_semantic_me.Runtime.Process.{
  Answers, Changed, Sorted, Outcome, removed, unchanged, failed, settle, sort_item, sort_items,
  is_unchanged, fail_all, outcome_at, commit_all, works_of, embed_changed, after_inference, infer,
  process_prepared, prepare_batch, process_batch,
}
use obsidian_mcp_semantic_me.Runtime.Picks.{Pick, first, later}
use obsidian_mcp_semantic_me.Runtime.Steps.{Running, settled, Reachable, then_step}

abbrev pub work_of : PreparedWork → PendingWork
work_of (to_remove w) = w
work_of (to_fail w e) = w
work_of (to_upsert w chunks hash) = w

Pick-middle :
    (w : PendingWork) (before after : List PendingWork)
    → Pick w (before ++ w ∷ after) (before ++ after)
Pick-middle w [] after = first after
Pick-middle w (v ∷ before) after = later v (Pick-middle w before after)

module _ {F : Type 0} (f : Float F) (a : Answers F) where
  work_of-prepare_note :
      (w : PendingWork) (m : NoteMetadata) (content : Text) (pieces : Run)
      → chunk_note (get_body content) a.config ≡ pieces
      → work_of (prepare_note a.hash a.config w m content) ≡ w
  unfolding prepare_note
  work_of-prepare_note w m content panicked e = rw (e, prepare_note)
  work_of-prepare_note w m content out_of_fuel e = rw (e, prepare_note)
  work_of-prepare_note w m content (done []) e = rw (e, prepare_note)
  work_of-prepare_note w m content (done (c ∷ cs)) e = rw (e, prepare_note)

  work_of-prepare_content :
      (w : PendingWork) (m : NoteMetadata) (content : Result Text)
      → work_of (prepare_content a.hash a.config w m content) ≡ w
  work_of-prepare_content w m (err e) = refl
  work_of-prepare_content w m (ok content) = work_of-prepare_note w m content _ refl

  work_of-prepare_kind :
      (w : PendingWork) (kind : PendingKind) (m : Option NoteMetadata)
      → work_of (prepare_kind a.hash a.config a.read w kind m) ≡ w
  work_of-prepare_kind w PendingKind.remove m = refl
  work_of-prepare_kind w upsert none = refl
  work_of-prepare_kind w upsert (some m) = work_of-prepare_content w m (a.read w.path)

  work_of-prepare_work :
      (w : PendingWork) (m : Option NoteMetadata)
      → work_of (prepare_work a.hash a.config a.read w m) ≡ w
  unfolding prepare_work
  work_of-prepare_work w m = work_of-prepare_kind w w.kind m

  -- There is one item for each work, in the order of the batch.
  works-prepare_batch :
      (index : VaultIndex) (batch : List PendingWork)
      → map work_of (prepare_batch f a index batch) ≡ batch
  unfolding prepare_batch
  works-prepare_batch index [] = refl
  works-prepare_batch index (w ∷ batch) =
      ap₂ ◌∷◌ (work_of-prepare_work w (lookup w.path index.notes)) (works-prepare_batch index batch)

module _ {F : Type 0} (f : Float F) (a : Answers F) (start : Running F) where
  abbrev Reaches : RuntimeShared F → List PendingWork → Type 0
  Reaches shared working = Reachable f start (record { shared = shared; working = working })

  settle-Reaches :
      (shared : RuntimeShared F) (before after : List PendingWork) (w : PendingWork)
      (outcome : Outcome F)
      → Reaches shared (before ++ w ∷ after)
      → Reaches (settle f a shared w outcome).0 (before ++ after)
  settle-Reaches shared before after w outcome reach = then_step reach (
      settled (record { shared = shared; working = before ++ w ∷ after }) a w outcome
        (Pick-middle w before after))

  fail_all-Reaches :
      (works : List PendingWork) (shared : RuntimeShared F) (e : Text)
      → Reaches shared works
      → Reaches (fail_all f a shared works e) []
  unfolding fail_all
  fail_all-Reaches [] shared e reach = reach
  fail_all-Reaches (w ∷ works) shared e reach =
      fail_all-Reaches works (settle f a shared w (failed e)).0 e
        (settle-Reaches shared [] works w (failed e) reach)

  commit_all-Reaches :
      (vectors : List (List F)) (changed : List Changed) (cursor : ℕ) (shared : RuntimeShared F)
      (dirty : Bool)
      → Reaches shared (works_of f a changed)
      → Reaches (commit_all f a vectors cursor changed shared dirty).0 []
  unfolding commit_all
  commit_all-Reaches vectors [] cursor shared dirty reach = reach
  commit_all-Reaches vectors (c ∷ changed) cursor shared dirty reach =
      let (outcome, next) = outcome_at f a vectors cursor c in
      let (after, wrote) = settle f a shared c.work outcome in
      commit_all-Reaches vectors changed next after (dirty || wrote)
        (settle-Reaches shared [] (works_of f a changed) c.work outcome reach)

  after_inference-Reaches :
      (s : Sorted F) (inference : Result (List (List F)))
      → Reaches s.shared (works_of f a s.changed)
      → Reaches (after_inference f a s inference).0 []
  after_inference-Reaches s (ok vectors) reach =
      commit_all-Reaches vectors s.changed 0 s.shared s.dirty reach
  after_inference-Reaches s (err e) reach =
      fail_all-Reaches (works_of f a s.changed) s.shared (a.shown e) reach

  infer-Reaches :
      (s : Sorted F) (panic : Option Text)
      → Reaches s.shared (works_of f a s.changed)
      → Reaches (infer f a s panic).0 []
  infer-Reaches s none reach = after_inference-Reaches s _ reach
  infer-Reaches s (some panic) reach =
      fail_all-Reaches (works_of f a s.changed) s.shared
        (bytes "embedding inference task failed: " ++ panic) reach

  embed_changed-Reaches :
      (s : Sorted F) (changed : List Changed)
      → s.changed ≡ changed
      → Reaches s.shared (works_of f a s.changed)
      → Reaches (embed_changed f a s changed).0 []
  unfolding embed_changed
  embed_changed-Reaches s [] e reach = subst (λ cs. Reaches s.shared (works_of f a cs)) e reach
  embed_changed-Reaches s (c ∷ cs) e reach = infer-Reaches s a.inference_panic reach

  -- The works that are left: those to embed, then those of the items to come.
  abbrev left : Sorted F → List PreparedWork → List PendingWork
  left s items = works_of f a s.changed ++ map work_of items

  regroup :
      (changed : List Changed) (c : Changed) (ws : List PendingWork)
      → works_of f a changed ++ c.work ∷ ws ≡ works_of f a (changed ++ c ∷ []) ++ ws
  regroup [] c ws = refl
  regroup (d ∷ changed) c ws = ap (λ l. d.work ∷ l) (regroup changed c ws)

  sort_item-Reaches :
      (s : Sorted F) (item : PreparedWork) (items : List PreparedWork)
      → Reaches s.shared (left s (item ∷ items))
      → Reaches (sort_item f a s item).shared (left (sort_item f a s item) items)
  unfolding sort_item
  sort_item-Reaches s (to_remove w) items reach =
      settle-Reaches s.shared (works_of f a s.changed) (map work_of items) w removed reach
  sort_item-Reaches s (to_fail w e) items reach =
      settle-Reaches s.shared (works_of f a s.changed) (map work_of items) w (failed (a.shown e))
        reach
  sort_item-Reaches s (to_upsert w chunks hash) items reach =
      if_rule (λ (s' : Sorted F). Reaches s'.shared (left s' items))
        (is_unchanged s.shared.store w hash)
        (λ _.
          settle-Reaches s.shared (works_of f a s.changed) (map work_of items) w unchanged reach)
        (λ _.
          subst (λ ws. Reaches s.shared ws)
            (regroup s.changed (record { work = w; chunks = chunks; content_hash = hash })
              (map work_of items))
            reach)

  sort_items-Reaches :
      (items : List PreparedWork) (s : Sorted F)
      → Reaches s.shared (left s items)
      → Reaches (sort_items f a s items).shared (works_of f a (sort_items f a s items).changed)
  unfolding sort_items
  sort_items-Reaches [] s reach =
      subst (λ ws. Reaches s.shared ws) (append-nil (works_of f a s.changed)) reach
  sort_items-Reaches (item ∷ items) s reach =
      sort_items-Reaches items (sort_item f a s item) (sort_item-Reaches s item items reach)

  process_prepared-Reaches :
      (panic : Option Text) (shared : RuntimeShared F) (batch : List PendingWork)
      → Reaches shared batch
      → Reaches (process_prepared f a panic shared batch).0 []
  process_prepared-Reaches (some panic) shared batch reach =
      fail_all-Reaches batch shared (bytes "embedding preparation task failed: " ++ panic) reach
  process_prepared-Reaches none shared batch reach = embed_changed-Reaches _ _ refl (
      sort_items-Reaches (prepare_batch f a shared.index batch) _
        (subst (λ ws. Reaches shared ws) (sym (works-prepare_batch f a shared.index batch)) reach))

  -- From any state that the runtime can reach with the batch in hand, `process_batch` is a sequence of
  -- steps after which no work of the batch is left.
  pub process_batch-Reachable :
      (shared : RuntimeShared F) (batch : List PendingWork)
      → Reachable f start (record { shared = shared; working = batch })
      → Reachable f start (record { shared = (process_batch f a shared batch).0; working = [] })
  unfolding process_batch
  process_batch-Reachable shared batch reach =
      process_prepared-Reaches a.preparation_panic shared batch reach
