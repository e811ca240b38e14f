-- ===== src/Vault.antt =====
-- src/vault/mod.rs and src/vault/fs.rs: the operations on the files of a vault. The files are a map from
-- their canonical paths. `Disk` has what the file system answers otherwise; directories are left out, and
-- a write that fails changes nothing. The calls of the full-text index and of the embedding runtime are
-- listed, in order.
pub mod Notes
pub mod Synced
pub mod Moves
pub mod Reported
pub mod Operations
pub mod Told
mod Examples
use obsidian_mcp_semantic_me.Base.{
  Bool, true, false, Option, none, some, List, [], ◌∷◌, ◌++◌, take, drop, Text, Dict, lookup,
  insert, remove, contains_key, if◌then◌else◌,
}
use obsidian_mcp_semantic_me.Error.{
  VaultError, note_not_found, already_exists, invalid_frontmatter, Result, ok, err, ◌>>=◌,
  NoteMetadata, Json, object,
}
use obsidian_mcp_semantic_me.Exclude.{Globset, ExcludeSet, is_excluded}
use obsidian_mcp_semantic_me.Frontmatter.{
  Serde, extract_raw_frontmatter, json_type_name, rebuild_content, set_frontmatter_field,
  remove_frontmatter_field,
}
use obsidian_mcp_semantic_me.Wikilink.{Unicode}
use obsidian_mcp_semantic_me.Index.{
  VaultIndex, reindex_file, rename_file, remove_file, add_excluded_file,
}
use obsidian_mcp_semantic_me.Watcher.{
  Call, remove_document, index_document, submit_remove, submit_upsert,
}

-- `resolve_existing` and `resolve_for_write` give the canonical path; `written`, `deleted` and `renamed` say
-- whether the call of the file system succeeds; `parse` is `parse_note_metadata` on what the file holds.
pub record Disk : Type 0 where
  pub resolve_existing : Dict Text → Text → Result Text
  pub resolve_for_write : Dict Text → Text → Result Text
  pub written : Text → Result (Unit {0})
  pub deleted : Text → Result (Unit {0})
  pub renamed : Text → Text → Result (Unit {0})
  pub parse : Text → Text → Result NoteMetadata

pub record Vault : Type 0 where
  pub files : Dict Text
  pub index : VaultIndex
  pub calls : List Call

-- What does not change: the globs, and the answers of the full-text index, if there is one.
pub record Setting : Type 0 where
  pub disk : Disk
  pub unicode : Unicode
  pub globset : Globset
  pub exclude : ExcludeSet
  pub serde : Serde
  pub tantivy : Option (Call → Result (Unit {0}))
  pub has_runtime : Bool

-- The vault as a call leaves it, and its answer; `?` goes on where the answer is a value.
abbrev pub and_then :
    {A B : Type 0} → Vault × Result A → (Vault → A → Vault × Result B) → Vault × Result B
and_then (v, ok a) k = k v a
and_then (v, err e) k = (v, err e)

module _ (s : Setting) where
  -- A call of the full-text index, if there is one.
  unfoldable pub call_tantivy : Call → Vault → Vault × Result (Unit {0})
  call_tantivy call v = elim s.tantivy [
    | none ↦ (v, ok tt)
    | some answer ↦ (record v { calls = v.calls ++ call ∷ [] }, answer call)
  ]

  unfoldable pub submit_intent : Call → Vault → Vault
  submit_intent call v = if s.has_runtime then record v { calls = v.calls ++ call ∷ [] } else v

  unfoldable pub read_file : Vault → Text → Result Text
  read_file v path = s.disk.resolve_existing v.files path >>= λ actual.
      elim (lookup actual v.files) [ none ↦ err (note_not_found path) | some content ↦ ok content ]

  unfoldable pub file_exists : Vault → Text → Bool
  file_exists v path = elim (s.disk.resolve_existing v.files path) [
    | err e ↦ false
    | ok actual ↦ contains_key actual v.files
  ]

  unfoldable pub write_file : Vault → Text → Text → Vault × Result Text
  write_file v path content =
      and_then (v, s.disk.resolve_for_write v.files path)
        (λ w actual.
          and_then (w, s.disk.written actual)
            (λ x _. (record x { files = insert actual content x.files }, ok actual)))

  abbrev pub content_of : Option Text → Text
  content_of none = []
  content_of (some content) = content

  unfoldable pub append_file : Vault → Text → Text → Vault × Result Text
  append_file v path content =
      and_then (v, s.disk.resolve_for_write v.files path)
        (λ w actual.
          and_then (w, s.disk.written actual)
            (λ x _. (
              record x {
                files = insert actual (content_of (lookup actual x.files) ++ content) x.files;
              },
              ok actual,
            )))

  unfoldable pub delete_file : Vault → Text → Vault × Result Text
  delete_file v path =
      and_then (v, s.disk.resolve_existing v.files path)
        (λ w actual.
          and_then (w, s.disk.deleted actual)
            (λ x _. (record x { files = remove actual x.files }, ok actual)))

  -- `MoveResult` is the pair of the paths.
  unfoldable pub move_file : Vault → Text → Text → Vault × Result (Text × Text)
  move_file v from to =
      and_then (v, s.disk.resolve_existing v.files from)
        (λ w old.
          and_then (w, s.disk.resolve_for_write w.files to)
            (λ x new.
              if contains_key new x.files
              then (x, err (already_exists to))
              else and_then (x, s.disk.renamed old new)
                  (λ y _. (
                    record y {
                      files = insert new (content_of (lookup old y.files)) (remove old y.files);
                    },
                    ok (old, new),
                  ))))

  abbrev pub parse_found : Text → Option Text → Result NoteMetadata
  parse_found path none = err (note_not_found path)
  parse_found path (some content) = s.disk.parse path content

  unfoldable pub parse_note_metadata : Dict Text → Text → Result NoteMetadata
  parse_note_metadata files path = parse_found path (lookup path files)

  -- `idx.get_note(path)`, and the document of the note if it is there.
  abbrev pub index_if_there : Text → Vault → Vault × Result (Unit {0})
  index_if_there path v = elim (lookup path v.index.notes) [
    | none ↦ (v, ok tt)
    | some note ↦ call_tantivy (index_document path) v
  ]

  unfoldable pub reindex_actual : Vault → Text → Vault × Result (Unit {0})
  reindex_actual v actual =
      if is_excluded s.globset s.exclude actual
      then and_then
          (call_tantivy (remove_document actual)
            (record v { index = add_excluded_file s.unicode v.index actual }))
          (λ w _. (submit_intent (submit_remove actual) w, ok tt))
      else (let (index, answer) =
            reindex_file s.unicode (parse_note_metadata v.files) v.index actual in
          and_then (record v { index = index }, answer)
            (λ w _.
              and_then (index_if_there actual w)
                (λ x _. (submit_intent (submit_upsert actual) x, ok tt))))

  unfoldable pub reindex : Vault → Text → Vault × Result (Unit {0})
  reindex v path = and_then (v, s.disk.resolve_existing v.files path) reindex_actual

  unfoldable pub write_note : Vault → Text → Text → Vault × Result (Unit {0})
  write_note v path content = and_then (write_file v path content) reindex

  unfoldable pub append_note : Vault → Text → Text → Vault × Result (Unit {0})
  append_note v path content = and_then (append_file v path content) reindex

  -- `create_note` of a path where there is no file
  abbrev pub create_new : Vault → Text → Text → Option Json → Vault × Result (Unit {0})
  create_new v path content none = write_note v path content
  create_new v path content (some (object fields)) =
      write_note v path (rebuild_content s.serde fields content)
  create_new v path content (some value) =
      (v, err (invalid_frontmatter path (json_type_name value)))

  unfoldable pub create_note : Vault → Text → Text → Option Json → Vault × Result (Unit {0})
  create_note v path content frontmatter =
      if file_exists v path
      then (v, err (already_exists path))
      else create_new v path content frontmatter

  -- The operations that read a note, change its text and write it.
  abbrev pub rewrite_note : (Text → Result Text) → Vault → Text → Vault × Result (Unit {0})
  rewrite_note change v path =
      and_then (v, read_file v path >>= change) (λ w content. write_note w path content)

  abbrev pub prepended : Text → Text → Text
  prepended content existing = elim (extract_raw_frontmatter existing) [
    | none ↦ content ++ existing
    | some (yaml, body_start) ↦ take body_start existing ++ content ++ drop body_start existing
  ]

  unfoldable pub prepend_note : Vault → Text → Text → Vault × Result (Unit {0})
  prepend_note v path content = rewrite_note (λ existing. ok (prepended content existing)) v path

  unfoldable pub set_note_field : Vault → Text → Text → Json → Vault × Result (Unit {0})
  set_note_field v path key value =
      rewrite_note (λ content. set_frontmatter_field s.serde content key value) v path

  unfoldable pub remove_note_field : Vault → Text → Text → Vault × Result (Unit {0})
  remove_note_field v path key =
      rewrite_note (λ content. remove_frontmatter_field s.serde content key) v path

  unfoldable pub delete_note : Vault → Text → Vault × Result (Unit {0})
  delete_note v path = and_then (delete_file v path) (λ w actual.
      and_then
        (call_tantivy (remove_document actual)
          (record w { index = remove_file s.unicode w.index actual }))
        (λ x _. (submit_intent (submit_remove actual) x, ok tt)))

  unfoldable pub moved_out : Text → Text → Vault → Vault × Result Text
  moved_out old new v =
      and_then
        (call_tantivy (remove_document old) (record v {
          index = add_excluded_file s.unicode (remove_file s.unicode v.index old) new;
        }))
        (λ w _. (submit_intent (submit_remove new) (submit_intent (submit_remove old) w), ok new))

  unfoldable pub moved_within : Text → Text → Vault → Vault × Result Text
  moved_within old new v =
      let (index, answer) = rename_file s.unicode (parse_note_metadata v.files) v.index old new in
      and_then (record v { index = index }, answer)
        (λ w _. and_then (call_tantivy (remove_document old) w) (λ x _.
          and_then (index_if_there new x) (λ y _.
            (submit_intent (submit_upsert new) (submit_intent (submit_remove old) y), ok new))))

  unfoldable pub move_note : Vault → Text → Text → Vault × Result Text
  move_note v from to = and_then (move_file v from to) (λ w (old, new).
      if is_excluded s.globset s.exclude new then moved_out old new w else moved_within old new w)
