-- ===== src/Vault/Notes.antt =====
-- src/vault/index.rs: which notes the index has after an operation on a file.
use obsidian_mcp_semantic_me.Base.{
  ◌≡◌, inl, inr, Option, none, some, Text, text_eq, text_eq_iff, contains_key, set_remove, lookup,
  lookup-insert, arith, Bool-cases, if◌then◌else◌,
}
use obsidian_mcp_semantic_me.Error.{Result, ok, err, NoteMetadata, Result-cases}
use obsidian_mcp_semantic_me.Wikilink.{Unicode}
use obsidian_mcp_semantic_me.Index.{
  VaultIndex, forget, store, update_backlinks_for_file, rebuild_backlinks, recompute_stats,
  reindex_file, rename_file, remove_file, add_excluded_file, remove_note_contributions,
}
use obsidian_mcp_semantic_me.Index.Backlinks.{lookup-remove_note_contributions}

abbrev pub note_of : Result NoteMetadata → Option NoteMetadata
note_of (ok note) = some note
note_of (err e) = none

module _ (u : Unicode) (q : Text) where
  lookup-forget :
      (path : Text) (idx : VaultIndex)
      → lookup q (forget u path idx).notes ≡ (if text_eq path q then none else lookup q idx.notes)
  unfolding forget
  lookup-forget path idx = lookup-remove_note_contributions path q _

  pub lookup-remove_file :
      (path : Text) (idx : VaultIndex)
      → lookup q (remove_file u idx path).notes
        ≡ (if text_eq path q then none else lookup q idx.notes)
  unfolding remove_file rebuild_backlinks recompute_stats
  lookup-remove_file path idx = lookup-forget path idx

  pub lookup-add_excluded_file :
      (path : Text) (idx : VaultIndex)
      → lookup q (add_excluded_file u idx path).notes
        ≡ (if text_eq path q then none else lookup q idx.notes)
  unfolding add_excluded_file rebuild_backlinks recompute_stats
  lookup-add_excluded_file path idx = lookup-remove_note_contributions path q idx

  lookup-store :
      (path : Text) (note : NoteMetadata) (idx : VaultIndex)
      → lookup q (store u path note idx).notes
        ≡ (if text_eq path q then some note else lookup q idx.notes)
  unfolding store
  lookup-store path note idx = lookup-insert path q note idx.notes

  pub lookup-reindex_file :
      (parse : Text → Result NoteMetadata) (idx : VaultIndex) (path : Text)
      → lookup q (reindex_file u parse idx path).0.notes
        ≡ (if text_eq path q then note_of (parse path) else lookup q idx.notes)
  unfolding reindex_file update_backlinks_for_file rebuild_backlinks recompute_stats
  lookup-reindex_file parse idx path = elim (Result-cases (parse path)) [
    | inr (m, e) ↦ ground (arith, lookup-forget path idx)
    | inl (note, e) ↦ elim (Bool-cases (contains_key path idx.notes)) [
      | inl c ↦ ground (arith, lookup-store path note (forget u path idx), lookup-forget path idx)
      | inr c ↦ ground (arith, lookup-store path note (forget u path idx), lookup-forget path idx)
    ]
  ]

  pub lookup-rename_file :
      (parse : Text → Result NoteMetadata) (idx : VaultIndex) (old new : Text)
      → lookup new idx.notes ≡ none
      → lookup q (rename_file u parse idx old new).0.notes ≡ (
          if text_eq new q
          then note_of (parse new)
          else if text_eq old q
          then none
          else lookup q idx.notes)
  unfolding rename_file rebuild_backlinks recompute_stats
  lookup-rename_file parse idx old new h =
      let before = record idx { excluded_note_paths = set_remove old idx.excluded_note_paths } in
      let cleared = remove_note_contributions old before in
      let left : lookup q cleared.notes ≡ (if text_eq old q then none else lookup q idx.notes) =
        lookup-remove_note_contributions old q before in
      elim (Result-cases (parse new)) [
        | inr (m, e) ↦ ground (arith, text_eq_iff new q)
        | inl (note, e) ↦ ground (arith, lookup-insert new q note cleared.notes)
      ]
