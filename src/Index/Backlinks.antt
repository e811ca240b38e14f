-- ===== src/Index/Backlinks.antt =====
-- src/vault/index.rs: after each operation the backlinks are those of the links of the notes.
use obsidian_mcp_semantic_me.Base.{
  ◌≡◌, refl, ap, ◌∙◌, inl, inr, true, none, some, List, [], arith, Text, text_eq, text_eq_iff,
  lookup, contains_key, or_empty, member, lookup-insert, lookup-remove, IsUnique, insert-IsUnique,
  remove-IsUnique, if◌then◌else◌, Option-cases, fun_ext, if_rule, set_remove, text_eq_refl,
}
use obsidian_mcp_semantic_me.Error.{Result, ok, NoteMetadata}
use obsidian_mcp_semantic_me.Wikilink.{Unicode, resolve, add_path, remove_path}
use obsidian_mcp_semantic_me.Wikilink.Abstract.{Represents}
use obsidian_mcp_semantic_me.Wikilink.Refines.{HasNoTwin}
use obsidian_mcp_semantic_me.Index.{
  VaultIndex, remove_note_contributions, drop_links, links_of, old_links_of, recompute_stats,
  update_backlinks_for_file, rebuild_backlinks, forget, store, reindex_file, rename_file,
  remove_file, add_excluded_file,
}
use obsidian_mcp_semantic_me.Index.Links.{
  lists, is_linked, lists-add_links, lists-drop_links, lists-rebuild_from,
}
use obsidian_mcp_semantic_me.Index.Reorder.{OccursOnce, resolve-move}

pub lookup-remove_note_contributions :
    (path s : Text) (idx : VaultIndex)
    → lookup s (remove_note_contributions path idx).notes
      ≡ (if text_eq path s then none else lookup s idx.notes)
unfolding remove_note_contributions
lookup-remove_note_contributions path s idx = elim (Option-cases (lookup path idx.notes)) [
  | inl e ↦ rw (e, remove_note_contributions) (ground (arith, text_eq_iff path s))
  | inr (note, e) ↦ rw (e, remove_note_contributions) (lookup-remove path s idx.notes)
]

pub remove_note_contributions-IsUnique :
    (path : Text) (idx : VaultIndex)
    → IsUnique idx.notes
    → IsUnique (remove_note_contributions path idx).notes
unfolding remove_note_contributions
remove_note_contributions-IsUnique path idx h = elim (Option-cases (lookup path idx.notes)) [
  | inl e ↦ rw (e, remove_note_contributions) h
  | inr (note, e) ↦ rw (e, remove_note_contributions) (remove-IsUnique path idx.notes h)
]

pub backlinks-remove_note_contributions :
    (path : Text) (idx : VaultIndex)
    → ((remove_note_contributions path idx).backlinks ≡ idx.backlinks)
      × ((remove_note_contributions path idx).link_resolver ≡ idx.link_resolver)
      × ((remove_note_contributions path idx).stats ≡ idx.stats)
unfolding remove_note_contributions
backlinks-remove_note_contributions path idx = elim (Option-cases (lookup path idx.notes)) [
  | inl e ↦ rw (e, remove_note_contributions) (refl, refl, refl)
  | inr (note, e) ↦ rw (e, remove_note_contributions) (refl, refl, refl)
]

module _ (u : Unicode) where
  -- `source` is a backlink of `target` exactly if the note at `source` has a link that is not
  -- empty and resolves to `target`.
  abbrev pub IsLinked : VaultIndex → Type 0
  IsLinked idx =
      (s t : Text) → lists idx.backlinks s t ≡ is_linked (resolve u idx.link_resolver) idx.notes s t

  rebuild_backlinks-IsLinked :
      (idx : VaultIndex) → IsUnique idx.notes → IsLinked (rebuild_backlinks u idx)
  unfolding rebuild_backlinks lookup member
  rebuild_backlinks-IsLinked idx h s t =
      lists-rebuild_from (resolve u idx.link_resolver) idx.notes [] s t h

  -- If no path has two notes, then after the removal of a file the backlinks are those of the links
  -- of the notes.
  pub remove_file-IsLinked :
      (idx : VaultIndex) (path : Text) → IsUnique idx.notes → IsLinked (remove_file u idx path)
  unfolding remove_file forget recompute_stats
  remove_file-IsLinked idx path h =
      rebuild_backlinks-IsLinked _ (remove_note_contributions-IsUnique path _ h)

  -- If no path has two notes, then after a file is excluded the backlinks are those of the links of
  -- the notes.
  pub add_excluded_file-IsLinked :
      (idx : VaultIndex) (path : Text)
      → IsUnique idx.notes
      → IsLinked (add_excluded_file u idx path)
  unfolding add_excluded_file recompute_stats
  add_excluded_file-IsLinked idx path h =
      rebuild_backlinks-IsLinked _ (remove_note_contributions-IsUnique path _ h)

  update_backlinks-IsLinked :
      (old new : VaultIndex) (path : Text)
      → IsLinked old
      → ((s : Text)
          → lookup s new.notes
            ≡ (if text_eq path s then lookup path new.notes else lookup s old.notes))
      → new.backlinks ≡ old.backlinks
      → resolve u new.link_resolver ≡ resolve u old.link_resolver
      → IsLinked (update_backlinks_for_file u path (old_links_of (lookup path old.notes)) new)
  unfolding update_backlinks_for_file
  update_backlinks-IsLinked old new path h same_notes same_links same_res s t =
      let res = resolve u new.link_resolver in
      let before = or_empty (old_links_of (lookup path old.notes)) in
      let after = links_of (lookup path new.notes) in
      let kept : lists old.backlinks s t ≡ is_linked res old.notes s t = rw same_res (h s t) in
      ground (
        arith,
        lists-add_links res path s t after (drop_links res path before new.backlinks),
        lists-drop_links res path s t before new.backlinks,
        ap (λ m. lists m s t) same_links,
        same_notes s,
        text_eq_iff path s,
      )

  notes-store :
      (path s : Text) (metadata : NoteMetadata) (idx : VaultIndex)
      → lookup s (store u path metadata (forget u path idx)).notes
        ≡ (if text_eq path s then some metadata else lookup s idx.notes)
  unfolding store forget
  notes-store path s metadata idx =
      let start : VaultIndex = record idx {
        excluded_note_paths = set_remove path idx.excluded_note_paths;
      } in
      ground (
        arith,
        lookup-insert path s metadata (remove_note_contributions path start).notes,
        lookup-remove_note_contributions path s start,
      )

  pub store-IsUnique :
      (path : Text) (metadata : NoteMetadata) (idx : VaultIndex)
      → IsUnique idx.notes
      → IsUnique (store u path metadata (forget u path idx)).notes
  unfolding store forget
  store-IsUnique path metadata idx h =
      insert-IsUnique path metadata _ (remove_note_contributions-IsUnique path _ h)

  backlinks-store :
      (path : Text) (metadata : NoteMetadata) (idx : VaultIndex)
      → ((store u path metadata (forget u path idx)).backlinks ≡ idx.backlinks)
        × ((store u path metadata (forget u path idx)).link_resolver
            ≡ add_path u (remove_path u idx.link_resolver path) path)
  unfolding store forget
  backlinks-store path metadata idx =
      let (same_links, same_resolver, _) =
        backlinks-remove_note_contributions path
          (record idx { excluded_note_paths = set_remove path idx.excluded_note_paths }) in
      (same_links, ap (λ r. add_path u (remove_path u r path) path) same_resolver)

  store-IsLinked :
      (idx : VaultIndex) (paths : List Text) (path : Text) (metadata : NoteMetadata)
      → IsLinked idx
      → Represents u idx.link_resolver paths
      → OccursOnce path paths
      → HasNoTwin u path paths
      → IsLinked (
          update_backlinks_for_file u path
            (old_links_of (lookup path idx.notes))
            (store u path metadata (forget u path idx)))
  store-IsLinked idx paths path metadata h held once alone =
      let new = store u path metadata (forget u path idx) in
      let (same_links, same_resolver) = backlinks-store path metadata idx in
      update_backlinks-IsLinked idx new path h
        (λ s. ground (
          arith,
          notes-store path s metadata idx,
          notes-store path path metadata idx,
          text_eq_refl path,
        ))
        same_links
        (ap (resolve u) same_resolver
          ∙ fun_ext (λ t. resolve-move u idx.link_resolver paths path t held once alone))

  module _ (parse : Text → Result NoteMetadata) where
    -- If the note can be parsed, no path has two notes, the backlinks are those of the links of the
    -- notes, and the tables of the resolver hold `paths`, in which a path that has a note occurs
    -- once and has no twin, then after the update the backlinks are those of the links again, also
    -- where only the links of this note are gone through.
    pub reindex_file-IsLinked :
        (idx : VaultIndex) (paths : List Text) (path : Text) (metadata : NoteMetadata)
        → parse path ≡ ok metadata
        → IsUnique idx.notes
        → IsLinked idx
        → Represents u idx.link_resolver paths
        → (contains_key path idx.notes ≡ true → OccursOnce path paths × HasNoTwin u path paths)
        → IsLinked (reindex_file u parse idx path).0
    unfolding reindex_file recompute_stats
    reindex_file-IsLinked idx paths path metadata e unique h held known =
        rw (e, reindex_file)
          (if_rule IsLinked (contains_key path idx.notes)
            (λ existing.
              let (once, alone) = known existing in
              store-IsLinked idx paths path metadata h held once alone)
            (λ _. rebuild_backlinks-IsLinked _ (store-IsUnique path metadata idx unique)))

    -- If the note can be parsed at its new path and no path has two notes, then after the rename the
    -- backlinks are those of the links of the notes.
    pub rename_file-IsLinked :
        (idx : VaultIndex) (old new : Text) (metadata : NoteMetadata)
        → parse new ≡ ok metadata
        → IsUnique idx.notes
        → IsLinked (rename_file u parse idx old new).0
    unfolding rename_file recompute_stats
    rename_file-IsLinked idx old new metadata e unique =
        rw (e, rename_file)
          (rebuild_backlinks-IsLinked _
            (insert-IsUnique new metadata _ (remove_note_contributions-IsUnique old _ unique)))
