-- ===== src/Vault/Synced.antt =====
-- src/vault/mod.rs: after any operation on a note, the index has exactly the notes of the files.
use obsidian_mcp_semantic_me.Base.{
  ◌≡◌, refl, sym, ◌∙◌, inl, inr, false, Option, none, some, Text, text_eq, text_eq_iff, Dict,
  lookup, insert, remove, lookup-insert, lookup-remove, arith, Bool-cases, Option-cases,
  if◌then◌else◌,
}
use obsidian_mcp_semantic_me.Error.{
  Result, ok, err, ◌>>=◌, NoteMetadata, Result-cases, Json, null, bool, number, string, array,
  object,
}
use obsidian_mcp_semantic_me.Exclude.{is_excluded}
use obsidian_mcp_semantic_me.Index.{reindex_file, add_excluded_file}
use obsidian_mcp_semantic_me.Watcher.{
  Call, remove_document, index_document, submit_remove, submit_upsert,
}
use obsidian_mcp_semantic_me.Vault.{
  Disk, Vault, Setting, and_then, call_tantivy, submit_intent, read_file, file_exists, create_new,
  write_file, append_file, parse_note_metadata, index_if_there, reindex, reindex_actual, write_note,
  append_note, create_note, rewrite_note,
}
use obsidian_mcp_semantic_me.Vault.Notes.{note_of, lookup-add_excluded_file, lookup-reindex_file}

-- A path that a write resolved is canonical: once the file is there, the path resolves to itself.
abbrev pub IsCanonical : Disk → Type 0
IsCanonical disk =
    (files : Dict Text) (path actual content : Text)
    → disk.resolve_for_write files path ≡ ok actual
    → disk.resolve_existing (insert actual content files) actual ≡ ok actual

-- What holds of the vault that a call leaves holds of what `?` leaves.
pub and_then-rule :
    {A B : Type 0} (P : Vault → Type 0) (r : Vault × Result A) (k : Vault → A → Vault × Result B)
    → P r.0
    → ((v : Vault) (a : A) → P v → P (k v a).0)
    → P (and_then r k).0
and_then-rule P (v, ok a) k p f = f v a p
and_then-rule P (v, err e) k p f = p

module _ (s : Setting) where
  -- The note that the index is to have at a path.
  abbrev pub expected : Dict Text → Text → Option NoteMetadata
  expected files q =
      if is_excluded s.globset s.exclude q then none else note_of (parse_note_metadata s files q)

  -- The index has at each path the note that the file there parses as, and no other: not of an excluded
  -- file, and not of one that does not parse.
  abbrev pub IsSynced : Vault → Type 0
  IsSynced v = (q : Text) → lookup q v.index.notes ≡ expected v.files q

  pub call_tantivy-IsSynced :
      (call : Call) (v : Vault) → IsSynced v → IsSynced (call_tantivy s call v).0
  unfolding call_tantivy parse_note_metadata
  call_tantivy-IsSynced call v h = elim (Option-cases s.tantivy) [
    | inl e ↦ rw e h
    | inr (t, e) ↦ rw e h
  ]

  pub submit_intent-IsSynced :
      (call : Call) (v : Vault) → IsSynced v → IsSynced (submit_intent s call v)
  unfolding submit_intent parse_note_metadata
  submit_intent-IsSynced call v h = elim (Bool-cases s.has_runtime) [
    | inl e ↦ rw e h
    | inr e ↦ rw e h
  ]

  pub index_if_there-IsSynced :
      (path : Text) (v : Vault) → IsSynced v → IsSynced (index_if_there s path v).0
  index_if_there-IsSynced path v h = elim (Option-cases (lookup path v.index.notes)) [
    | inl e ↦ rw (index_if_there, e) h
    | inr (m, e) ↦ rw (index_if_there, e) (call_tantivy-IsSynced (index_document path) v h)
  ]

  -- The call that follows a change of the index.
  pub called-IsSynced :
      {A : Type 0} (call intent : Call) (a : A) (v : Vault)
      → IsSynced v
      → IsSynced (and_then (call_tantivy s call v) (λ w _. (submit_intent s intent w, ok a))).0
  called-IsSynced call intent a v h =
      and_then-rule IsSynced (call_tantivy s call v) _ (call_tantivy-IsSynced call v h)
        (λ w _ k. submit_intent-IsSynced intent w k)

  pub expected-insert :
      (p q content : Text) (files : Dict Text)
      → text_eq p q ≡ false
      → expected (insert p content files) q ≡ expected files q
  unfolding parse_note_metadata
  expected-insert p q content files n = rw (lookup-insert p q content files, n) refl

  pub expected-remove :
      (p q : Text) (files : Dict Text)
      → expected (remove p files) q ≡ (if text_eq p q then none else expected files q)
  unfolding parse_note_metadata
  expected-remove p q files =
      rw (lookup-remove p q files) (ground (arith, Bool-cases (text_eq p q)))

  -- `reindex_actual` of a path where the file changed, if the index has the notes of all others.
  reindex_actual-IsSynced :
      (v : Vault) (path : Text)
      → ((q : Text) → text_eq path q ≡ false → lookup q v.index.notes ≡ expected v.files q)
      → IsSynced (reindex_actual s v path).0
  unfolding reindex_actual
  reindex_actual-IsSynced v path h = elim (Bool-cases (is_excluded s.globset s.exclude path)) [
    | inl x ↦
        let hidden = record v { index = add_excluded_file s.unicode v.index path } in
        let synced : IsSynced hidden = λ q. elim (Bool-cases (text_eq path q)) [
          | inl e ↦
              ground (arith, text_eq_iff path q, lookup-add_excluded_file s.unicode q path v.index)
          | inr e ↦ ground (arith, h q, lookup-add_excluded_file s.unicode q path v.index)
        ] in
        rw x (called-IsSynced (remove_document path) (submit_remove path) tt hidden synced)
    | inr x ↦
        let parse = parse_note_metadata s v.files in
        let done = reindex_file s.unicode parse v.index path in
        let indexed = record v { index = done.0 } in
        let synced : IsSynced indexed = λ q. elim (Bool-cases (text_eq path q)) [
          | inl e ↦
              ground (arith, text_eq_iff path q, lookup-reindex_file s.unicode q parse v.index path)
          | inr e ↦ ground (arith, h q, lookup-reindex_file s.unicode q parse v.index path)
        ] in
        rw x (
          and_then-rule IsSynced (indexed, done.1) _ synced
            (λ w _ k.
              and_then-rule IsSynced (index_if_there s path w) _ (index_if_there-IsSynced path w k)
                (λ y _ m. submit_intent-IsSynced (submit_upsert path) y m)))
  ]

  -- `reindex` after the file at a canonical path has changed.
  reindex-IsSynced :
      (v : Vault) (path : Text)
      → s.disk.resolve_existing v.files path ≡ ok path
      → ((q : Text) → text_eq path q ≡ false → lookup q v.index.notes ≡ expected v.files q)
      → IsSynced (reindex s v path).0
  unfolding reindex
  reindex-IsSynced v path r h = rw r (reindex_actual-IsSynced v path h)

  module _ (canonical : IsCanonical s.disk) where
    changed-IsSynced :
        (v : Vault) (path actual content : Text)
        → IsSynced v
        → s.disk.resolve_for_write v.files path ≡ ok actual
        → IsSynced (reindex s (record v { files = insert actual content v.files }) actual).0
    changed-IsSynced v path actual content h r =
        reindex-IsSynced _ actual (canonical v.files path actual content r)
          (λ q n. h q ∙ sym (expected-insert actual q content v.files n))

    pub write_note-IsSynced :
        (v : Vault) (path content : Text) → IsSynced v → IsSynced (write_note s v path content).0
    unfolding write_note write_file
    write_note-IsSynced v path content h =
        elim (Result-cases (s.disk.resolve_for_write v.files path)) [
          | inr (m, r) ↦ rw r h
          | inl (actual, r) ↦ elim (Result-cases (s.disk.written actual)) [
            | inr (m, d) ↦ rw (r, d) h
            | inl (u, d) ↦ rw (r, d) (changed-IsSynced v path actual content h r)
          ]
        ]

    pub append_note-IsSynced :
        (v : Vault) (path content : Text) → IsSynced v → IsSynced (append_note s v path content).0
    unfolding append_note append_file
    append_note-IsSynced v path content h =
        elim (Result-cases (s.disk.resolve_for_write v.files path)) [
          | inr (m, r) ↦ rw r h
          | inl (actual, r) ↦ elim (Result-cases (s.disk.written actual)) [
            | inr (m, d) ↦ rw (r, d) h
            | inl (u, d) ↦ rw (r, d) (changed-IsSynced v path actual _ h r)
          ]
        ]

    create_new-IsSynced :
        (v : Vault) (path content : Text) (frontmatter : Option Json)
        → IsSynced v
        → IsSynced (create_new s v path content frontmatter).0
    create_new-IsSynced v path content none h = write_note-IsSynced v path content h
    create_new-IsSynced v path content (some (object fields)) h = write_note-IsSynced v path _ h
    create_new-IsSynced v path content (some null) h = h
    create_new-IsSynced v path content (some (bool b)) h = h
    create_new-IsSynced v path content (some (number n)) h = h
    create_new-IsSynced v path content (some (string t)) h = h
    create_new-IsSynced v path content (some (array items)) h = h

    pub create_note-IsSynced :
        (v : Vault) (path content : Text) (frontmatter : Option Json)
        → IsSynced v
        → IsSynced (create_note s v path content frontmatter).0
    unfolding create_note
    create_note-IsSynced v path content frontmatter h = elim (Bool-cases (file_exists s v path)) [
      | inl e ↦ rw e h
      | inr e ↦ rw e (create_new-IsSynced v path content frontmatter h)
    ]

    pub rewrite_note-IsSynced :
        (change : Text → Result Text) (v : Vault) (path : Text)
        → IsSynced v
        → IsSynced (rewrite_note s change v path).0
    rewrite_note-IsSynced change v path h =
        and_then-rule IsSynced (v, read_file s v path >>= change) _ h
          (λ w content k. write_note-IsSynced w path content k)
