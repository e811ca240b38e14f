-- ===== src/Vault/Moves.antt =====
-- src/vault/mod.rs: after a deletion or a move, the index has exactly the notes of the files.
use obsidian_mcp_semantic_me.Base.{
  ◌≡◌, inl, inr, true, false, none, Text, text_eq, text_eq_iff, lookup, insert, remove,
  contains_key, arith, Bool-cases, Option-cases, if◌then◌else◌,
}
use obsidian_mcp_semantic_me.Error.{Result-cases}
use obsidian_mcp_semantic_me.Exclude.{is_excluded}
use obsidian_mcp_semantic_me.Index.{rename_file, remove_file, add_excluded_file}
use obsidian_mcp_semantic_me.Watcher.{remove_document, submit_remove, submit_upsert}
use obsidian_mcp_semantic_me.Vault.{
  Vault, Setting, call_tantivy, delete_file, move_file, parse_note_metadata, index_if_there,
  delete_note, moved_out, moved_within, move_note,
}
use obsidian_mcp_semantic_me.Vault.Notes.{
  lookup-remove_file, lookup-add_excluded_file, lookup-rename_file,
}
use obsidian_mcp_semantic_me.Vault.Synced.{
  and_then-rule, IsSynced, expected, call_tantivy-IsSynced, submit_intent-IsSynced,
  index_if_there-IsSynced, called-IsSynced, expected-insert, expected-remove,
}

module _ (s : Setting) where
  pub delete_note-IsSynced :
      (v : Vault) (path : Text) → IsSynced s v → IsSynced s (delete_note s v path).0
  unfolding delete_note delete_file
  delete_note-IsSynced v path h = elim (Result-cases (s.disk.resolve_existing v.files path)) [
    | inr (m, r) ↦ rw r h
    | inl (actual, r) ↦ elim (Result-cases (s.disk.deleted actual)) [
      | inr (m, d) ↦ rw (r, d) h
      | inl (u, d) ↦
          let left = record v {
            files = remove actual v.files;
            index = remove_file s.unicode v.index actual;
          } in
          let synced : IsSynced s left = λ q. ground (
            arith,
            h q,
            lookup-remove_file s.unicode q actual v.index,
            expected-remove s actual q v.files,
          ) in
          rw (r, d)
            (called-IsSynced s (remove_document actual) (submit_remove actual) tt left synced)
    ]
  ]

  -- The index to have after a move.
  expected-moved :
      (old new content q : Text) (v : Vault)
      → IsSynced s v
      → text_eq new q ≡ false
      → expected s (insert new content (remove old v.files)) q
        ≡ (if text_eq old q then none else lookup q v.index.notes)
  expected-moved old new content q v h n = ground (
    arith,
    h q,
    expected-insert s new q content (remove old v.files),
    expected-remove s old q v.files,
  )

  moved_out-IsSynced :
      (old new content : Text) (v : Vault)
      → IsSynced s v
      → is_excluded s.globset s.exclude new ≡ true
      → IsSynced s
          (moved_out s old new (record v { files = insert new content (remove old v.files) })).0
  unfolding moved_out
  moved_out-IsSynced old new content v h x =
      let gone = remove_file s.unicode v.index old in
      let left = record v {
        files = insert new content (remove old v.files);
        index = add_excluded_file s.unicode gone new;
      } in
      let synced : IsSynced s left = λ q. elim (Bool-cases (text_eq new q)) [
        | inl e ↦ ground (arith, text_eq_iff new q, lookup-add_excluded_file s.unicode q new gone)
        | inr e ↦ ground (
          arith,
          expected-moved old new content q v h e,
          lookup-add_excluded_file s.unicode q new gone,
          lookup-remove_file s.unicode q old v.index,
        )
      ] in
      and_then-rule (IsSynced s) (call_tantivy s (remove_document old) left) _
        (call_tantivy-IsSynced s (remove_document old) left synced)
        (λ w _ k.
          submit_intent-IsSynced s (submit_remove new) _
            (submit_intent-IsSynced s (submit_remove old) w k))

  moved_within-IsSynced :
      (old new content : Text) (v : Vault)
      → IsSynced s v
      → is_excluded s.globset s.exclude new ≡ false
      → contains_key new v.files ≡ false
      → IsSynced s
          (moved_within s old new (record v { files = insert new content (remove old v.files) })).0
  unfolding moved_within parse_note_metadata
  moved_within-IsSynced old new content v h x n =
      let files = insert new content (remove old v.files) in
      let parse = parse_note_metadata s files in
      let done = rename_file s.unicode parse v.index old new in
      let left = record v { files = files; index = done.0 } in
      let fresh : lookup new v.index.notes ≡ none =
        ground (arith, h new, Option-cases (lookup new v.files)) in
      let synced : IsSynced s left = λ q. elim (Bool-cases (text_eq new q)) [
        | inl e ↦
            ground
              (arith, text_eq_iff new q, lookup-rename_file s.unicode q parse v.index old new fresh)
        | inr e ↦ ground (
          arith,
          expected-moved old new content q v h e,
          lookup-rename_file s.unicode q parse v.index old new fresh,
        )
      ] in
      and_then-rule (IsSynced s) (left, done.1) _ synced
        (λ w _ k.
          and_then-rule (IsSynced s) (call_tantivy s (remove_document old) w) _
            (call_tantivy-IsSynced s _ w k)
            (λ y _ m.
              and_then-rule (IsSynced s) (index_if_there s new y) _
                (index_if_there-IsSynced s new y m)
                (λ z _ l.
                  submit_intent-IsSynced s (submit_upsert new) _
                    (submit_intent-IsSynced s (submit_remove old) z l))))

  pub move_note-IsSynced :
      (v : Vault) (from to : Text) → IsSynced s v → IsSynced s (move_note s v from to).0
  unfolding move_note move_file
  move_note-IsSynced v from to h = elim (Result-cases (s.disk.resolve_existing v.files from)) [
    | inr (m, r) ↦ rw r h
    | inl (old, r) ↦ elim (Result-cases (s.disk.resolve_for_write v.files to)) [
      | inr (m, t) ↦ rw (r, t) h
      | inl (new, t) ↦ elim (Bool-cases (contains_key new v.files)) [
        | inl c ↦ rw (r, t, c) h
        | inr c ↦ elim (Result-cases (s.disk.renamed old new)) [
          | inr (m, d) ↦ rw (r, t, c, d) h
          | inl (u, d) ↦ elim (Bool-cases (is_excluded s.globset s.exclude new)) [
            | inl x ↦ rw (r, t, c, d, x) (moved_out-IsSynced old new _ v h x)
            | inr x ↦ rw (r, t, c, d, x) (moved_within-IsSynced old new _ v h x c)
          ]
        ]
      ]
    ]
  ]
