-- ===== src/Vault/Told.antt =====
-- src/vault/mod.rs: every operation on a note that succeeds tells the embedding runtime what it changed.
use obsidian_mcp_semantic_me.Base.{
  ◌≡◌, refl, inl, inr, true, false, Option, none, some, Text, text_eq, lookup, insert, remove,
  contains_key, lookup-insert, lookup-remove, arith, Bool-cases,
}
use obsidian_mcp_semantic_me.Error.{
  Result, ok, ◌>>=◌, Result-cases, Json, null, bool, number, string, array, object,
}
use obsidian_mcp_semantic_me.Exclude.{is_excluded}
use obsidian_mcp_semantic_me.Index.{remove_file}
use obsidian_mcp_semantic_me.Watcher.{remove_document, submit_remove}
use obsidian_mcp_semantic_me.Vault.{
  Vault, Setting, content_of, read_file, file_exists, create_new, reindex, write_file, append_file,
  delete_file, move_file, write_note, append_note, create_note, rewrite_note, prepend_note,
  set_note_field, remove_note_field, delete_note, move_note,
}
use obsidian_mcp_semantic_me.Vault.Synced.{IsCanonical}
use obsidian_mcp_semantic_me.Vault.Reported.{
  AreReported, and_then-ok, one-AreReported, two-AreReported, called-IsReported,
  reindex_actual-IsReported, moved_out-IsReported, moved_within-IsReported,
}
use obsidian_mcp_semantic_me.Vault.Operations.{
  Operation, write, append, prepend, create, set_field, remove_field, delete, move, perform,
}

module _ (s : Setting) (enabled : s.has_runtime ≡ true) where
  module _ (canonical : IsCanonical s.disk) where
    changed-AreReported :
        (v : Vault) (path actual content : Text) (b : Unit {0})
        → s.disk.resolve_for_write v.files path ≡ ok actual
        → (reindex s (record v { files = insert actual content v.files }) actual).1 ≡ ok b
        → AreReported v (reindex s (record v { files = insert actual content v.files }) actual).0
    unfolding reindex
    changed-AreReported v path actual content b r =
        let files = insert actual content v.files in
        let changed = record v { files = files } in
        rw (canonical v.files path actual content r) (λ e.
          one-AreReported actual files v _ (reindex_actual-IsReported s enabled changed actual b e)
            (λ q n. ground (arith, lookup-insert actual q content v.files)))

    write_note-AreReported :
        (v : Vault) (path content : Text) (b : Unit {0})
        → (write_note s v path content).1 ≡ ok b
        → AreReported v (write_note s v path content).0
    unfolding write_note write_file
    write_note-AreReported v path content b =
        elim (Result-cases (s.disk.resolve_for_write v.files path)) [
          | inr (m, r) ↦ rw r (λ e. absurd (ground arith))
          | inl (actual, r) ↦ elim (Result-cases (s.disk.written actual)) [
            | inr (m, d) ↦ rw (r, d) (λ e. absurd (ground arith))
            | inl (u, d) ↦ rw (r, d) (changed-AreReported v path actual content b r)
          ]
        ]

    append_note-AreReported :
        (v : Vault) (path content : Text) (b : Unit {0})
        → (append_note s v path content).1 ≡ ok b
        → AreReported v (append_note s v path content).0
    unfolding append_note append_file
    append_note-AreReported v path content b =
        elim (Result-cases (s.disk.resolve_for_write v.files path)) [
          | inr (m, r) ↦ rw r (λ e. absurd (ground arith))
          | inl (actual, r) ↦ elim (Result-cases (s.disk.written actual)) [
            | inr (m, d) ↦ rw (r, d) (λ e. absurd (ground arith))
            | inl (u, d) ↦ rw (r, d) (changed-AreReported v path actual _ b r)
          ]
        ]

    create_new-AreReported :
        (v : Vault) (path content : Text) (frontmatter : Option Json) (b : Unit {0})
        → (create_new s v path content frontmatter).1 ≡ ok b
        → AreReported v (create_new s v path content frontmatter).0
    create_new-AreReported v path content none b e = write_note-AreReported v path content b e
    create_new-AreReported v path content (some (object fields)) b e =
        write_note-AreReported v path _ b e
    create_new-AreReported v path content (some null) b e = absurd (ground arith)
    create_new-AreReported v path content (some (bool x)) b e = absurd (ground arith)
    create_new-AreReported v path content (some (number n)) b e = absurd (ground arith)
    create_new-AreReported v path content (some (string t)) b e = absurd (ground arith)
    create_new-AreReported v path content (some (array items)) b e = absurd (ground arith)

    create_note-AreReported :
        (v : Vault) (path content : Text) (frontmatter : Option Json) (b : Unit {0})
        → (create_note s v path content frontmatter).1 ≡ ok b
        → AreReported v (create_note s v path content frontmatter).0
    unfolding create_note
    create_note-AreReported v path content frontmatter b =
        elim (Bool-cases (file_exists s v path)) [
          | inl x ↦ rw x (λ e. absurd (ground arith))
          | inr x ↦ rw x (create_new-AreReported v path content frontmatter b)
        ]

    rewrite_note-AreReported :
        (change : Text → Result Text) (v : Vault) (path : Text) (b : Unit {0})
        → (rewrite_note s change v path).1 ≡ ok b
        → AreReported v (rewrite_note s change v path).0
    rewrite_note-AreReported change v path b =
        and_then-ok (AreReported v) (v, read_file s v path >>= change) _ b
          (λ content _ e. write_note-AreReported v path content b e)

  delete_note-AreReported :
      (v : Vault) (path : Text) (b : Unit {0})
      → (delete_note s v path).1 ≡ ok b
      → AreReported v (delete_note s v path).0
  unfolding delete_note delete_file
  delete_note-AreReported v path b = elim (Result-cases (s.disk.resolve_existing v.files path)) [
    | inr (m, r) ↦ rw r (λ e. absurd (ground arith))
    | inl (actual, r) ↦ elim (Result-cases (s.disk.deleted actual)) [
      | inr (m, d) ↦ rw (r, d) (λ e. absurd (ground arith))
      | inl (u, d) ↦
          let files = remove actual v.files in
          let left = record v { files = files; index = remove_file s.unicode v.index actual } in
          rw (r, d)
            (λ e.
              one-AreReported actual files v _
                (called-IsReported s enabled actual (remove_document actual) (submit_remove actual)
                  tt b left (inl refl) e)
                (λ q n. ground (arith, lookup-remove actual q v.files)))
    ]
  ]

  move_note-AreReported :
      (v : Vault) (from to b : Text)
      → (move_note s v from to).1 ≡ ok b
      → AreReported v (move_note s v from to).0
  unfolding move_note move_file
  move_note-AreReported v from to b = elim (Result-cases (s.disk.resolve_existing v.files from)) [
    | inr (m, r) ↦ rw r (λ e. absurd (ground arith))
    | inl (old, r) ↦ elim (Result-cases (s.disk.resolve_for_write v.files to)) [
      | inr (m, t) ↦ rw (r, t) (λ e. absurd (ground arith))
      | inl (new, t) ↦ elim (Bool-cases (contains_key new v.files)) [
        | inl c ↦ rw (r, t, c) (λ e. absurd (ground arith))
        | inr c ↦ elim (Result-cases (s.disk.renamed old new)) [
          | inr (m, d) ↦ rw (r, t, c, d) (λ e. absurd (ground arith))
          | inl (u, d) ↦
              let content = content_of s (lookup old v.files) in
              let files = insert new content (remove old v.files) in
              let changed = record v { files = files } in
              let others : (q : Text)
                  → text_eq old q ≡ false
                  → text_eq new q ≡ false
                  → lookup q files ≡ lookup q v.files =
                λ q n m. ground (
                  arith,
                  lookup-insert new q content (remove old v.files),
                  lookup-remove old q v.files,
                ) in
              elim (Bool-cases (is_excluded s.globset s.exclude new)) [
                | inl x ↦
                    rw (r, t, c, d, x)
                      (λ e.
                        two-AreReported old new files v _
                          (moved_out-IsReported s enabled old new b changed e) others)
                | inr x ↦
                    rw (r, t, c, d, x)
                      (λ e.
                        two-AreReported old new files v _
                          (moved_within-IsReported s enabled old new b changed e) others)
              ]
        ]
      ]
    ]
  ]

-- Where there is an embedding runtime and an operation on a note succeeds, its calls are added to those
-- before, and among the new ones is an intent for every path whose file the operation changed, made or
-- took away. It needs that a path that was resolved for writing resolves to itself once the file is there.
pub perform-AreReported :
    (s : Setting) (o : Operation) (v : Vault)
    → s.has_runtime ≡ true
    → IsCanonical s.disk
    → (perform s o v).1 ≡ ok tt
    → AreReported v (perform s o v).0
unfolding perform prepend_note set_note_field remove_note_field
perform-AreReported s (write path content) v r c = write_note-AreReported s r c v path content tt
perform-AreReported s (append path content) v r c = append_note-AreReported s r c v path content tt
perform-AreReported s (prepend path content) v r c = rewrite_note-AreReported s r c _ v path tt
perform-AreReported s (create path content frontmatter) v r c =
    create_note-AreReported s r c v path content frontmatter tt
perform-AreReported s (set_field path key value) v r c = rewrite_note-AreReported s r c _ v path tt
perform-AreReported s (remove_field path key) v r c = rewrite_note-AreReported s r c _ v path tt
perform-AreReported s (delete path) v r c = delete_note-AreReported s r v path tt
perform-AreReported s (move from to) v r c =
    and_then-ok (AreReported v) (move_note s v from to) _ tt
      (λ b e _. move_note-AreReported s r v from to b e)
