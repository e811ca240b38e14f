-- ===== src/Index/Tags.antt =====
-- src/vault/index.rs: after each operation the table of tags is that of the tags of the notes.
use obsidian_mcp_semantic_me.Base.{
  ◌≡◌, inl, inr, Option, none, some, List, [], arith, Text, text_eq_iff, Dict, lookup, insert,
  member, set_remove, lookup-insert, lookup-remove, Option-cases, if_rule, contains_key,
}
use obsidian_mcp_semantic_me.Error.{Result, Result-cases, NoteMetadata}
use obsidian_mcp_semantic_me.Wikilink.{Unicode}
use obsidian_mcp_semantic_me.Index.{
  VaultIndex, untag, remove_note_contributions, add_tags, recompute_stats,
  update_backlinks_for_file, rebuild_backlinks, forget, store, reindex_file, rename_file,
  remove_file, add_excluded_file,
}
use obsidian_mcp_semantic_me.Index.Links.{lists}
use obsidian_mcp_semantic_me.Index.Backlinks.{lookup-remove_note_contributions}
use obsidian_mcp_semantic_me.Index.TagLoops.{
  HasNoEmpty, IsSwept, lists-untag, lists-remove_all, lookup-remove_all, lists-add_tags,
  add_tags-HasNoEmpty,
}

abbrev pub tags_of : Option NoteMetadata → List Text
tags_of none = []
tags_of (some note) = note.tags

-- A path is listed under a tag exactly if the note at the path has the tag, and no tag is left
-- with no path.
pub record TagsAgree (notes : Dict NoteMetadata) (tags : Dict (List Text)) : Type 0 where
  pub listed : (s t : Text) → lists tags s t ≡ member t (tags_of (lookup s notes))
  pub alive : HasNoEmpty tags

abbrev pub IsTagged : VaultIndex → Type 0
IsTagged idx = TagsAgree idx.notes idx.tags

remove_note_contributions-IsTagged :
    (path : Text) (idx : VaultIndex) → IsTagged idx → IsTagged (remove_note_contributions path idx)
unfolding remove_note_contributions member
remove_note_contributions-IsTagged path idx h = elim (Option-cases (lookup path idx.notes)) [
  | inl e ↦ rw (e, remove_note_contributions) h
  | inr (note, e) ↦
      let start : IsSwept idx.tags [] = record {
        nothing = tt;
        all = λ t found. absurd (h.alive t found);
      } in
      let left = untag path note.tags idx.tags [] in
      let swept = (lists-untag path [] [] note.tags [] idx.tags start).1 in
      rw (e, remove_note_contributions)
        (record {
          listed = λ s t. ground (
            arith,
            lists-remove_all s t left.1 left.0 swept.nothing,
            (lists-untag path s t note.tags [] idx.tags start).0,
            h.listed s t,
            lookup-remove path s idx.notes,
            text_eq_iff path s,
            e,
          );
          alive = λ t. ground (arith, lookup-remove_all t left.1 left.0, swept.all t);
        })
]

add_tags-TagsAgree :
    (path : Text) (metadata : NoteMetadata) (notes : Dict NoteMetadata) (tags : Dict (List Text))
    → lookup path notes ≡ none
    → TagsAgree notes tags
    → TagsAgree (insert path metadata notes) (add_tags path metadata.tags tags)
unfolding member
add_tags-TagsAgree path metadata notes tags fresh h = record {
  listed = λ s t. ground (
    arith,
    lists-add_tags path s t metadata.tags tags,
    h.listed s t,
    lookup-insert path s metadata notes,
    text_eq_iff path s,
  );
  alive = add_tags-HasNoEmpty path metadata.tags tags h.alive;
}

pub lookup-forgotten :
    (path : Text) (idx : VaultIndex) → lookup path (remove_note_contributions path idx).notes ≡ none
unfolding remove_note_contributions
lookup-forgotten path idx = elim (Option-cases (lookup path idx.notes)) [
  | inl e ↦ rw (e, remove_note_contributions) e
  | inr (note, e) ↦
      rw (e, remove_note_contributions)
        (ground (arith, lookup-remove path path idx.notes, text_eq_iff path path))
]

module _ (u : Unicode) where
  -- If the table of tags is that of the tags of the notes, it is so after the update of a file, the
  -- branch where the note cannot be parsed included.
  pub reindex_file-IsTagged :
      (parse : Text → Result NoteMetadata) (idx : VaultIndex) (path : Text)
      → IsTagged idx
      → IsTagged (reindex_file u parse idx path).0
  unfolding reindex_file recompute_stats update_backlinks_for_file rebuild_backlinks forget store
  reindex_file-IsTagged parse idx path h =
      let start : VaultIndex = record idx {
        excluded_note_paths = set_remove path idx.excluded_note_paths;
      } in
      let cleared =
        remove_note_contributions-IsTagged path start
          (record { listed = h.listed; alive = h.alive }) in
      let fresh = lookup-forgotten path start in
      elim (Result-cases (parse path)) [
        | inr (e, q) ↦
            rw (q, reindex_file) (record { listed = cleared.listed; alive = cleared.alive })
        | inl (metadata, q) ↦
            let added =
              add_tags-TagsAgree path metadata _ _ fresh
                (record { listed = cleared.listed; alive = cleared.alive }) in
            rw (q, reindex_file)
              (if_rule IsTagged (contains_key path idx.notes)
                (λ _. record { listed = added.listed; alive = added.alive })
                (λ _. record { listed = added.listed; alive = added.alive }))
      ]

  -- If the table of tags is that of the tags of the notes, it is so after the removal of a file.
  pub remove_file-IsTagged :
      (idx : VaultIndex) (path : Text) → IsTagged idx → IsTagged (remove_file u idx path)
  unfolding remove_file forget recompute_stats rebuild_backlinks
  remove_file-IsTagged idx path h = remove_note_contributions-IsTagged path _ h

  -- If the table of tags is that of the tags of the notes, it is so after a file is excluded.
  pub add_excluded_file-IsTagged :
      (idx : VaultIndex) (path : Text) → IsTagged idx → IsTagged (add_excluded_file u idx path)
  unfolding add_excluded_file recompute_stats rebuild_backlinks
  add_excluded_file-IsTagged idx path h = remove_note_contributions-IsTagged path _ h

  -- If the table of tags is that of the tags of the notes, it is so after a rename to a path that has
  -- no note yet, the branch where the note cannot be parsed included.
  pub rename_file-IsTagged :
      (parse : Text → Result NoteMetadata) (idx : VaultIndex) (old new : Text)
      → lookup new idx.notes ≡ none
      → IsTagged idx
      → IsTagged (rename_file u parse idx old new).0
  unfolding rename_file recompute_stats rebuild_backlinks
  rename_file-IsTagged parse idx old new free h =
      let start : VaultIndex = record idx {
        excluded_note_paths = set_remove old idx.excluded_note_paths;
      } in
      let cleared =
        remove_note_contributions-IsTagged old start
          (record { listed = h.listed; alive = h.alive }) in
      let fresh : lookup new (remove_note_contributions old start).notes ≡ none =
        ground (arith, lookup-remove_note_contributions old new start) in
      elim (Result-cases (parse new)) [
        | inr (e, q) ↦
            rw (q, rename_file) (record { listed = cleared.listed; alive = cleared.alive })
        | inl (metadata, q) ↦
            let added =
              add_tags-TagsAgree new metadata _ _ fresh
                (record { listed = cleared.listed; alive = cleared.alive }) in
            rw (q, rename_file) (record { listed = added.listed; alive = added.alive })
      ]
