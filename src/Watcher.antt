-- ===== src/Watcher.antt =====
-- src/vault/watcher.rs: what a file system event does to the index, in the build with embeddings. The
-- calls of the full-text index and of the embedding runtime are listed, in order; `succeeds` says
-- which calls of the former succeed. The lock of the index is not poisoned.
pub mod Reach
mod Examples
use obsidian_mcp_semantic_me.Base.{
  ℕ, zero, suc, leb, ◌&&◌, ◌||◌, ◌==◌, ◌+◌, Bool, true, false, Option, none, some, List, [], ◌∷◌,
  ◌++◌, map, Text, bytes, text_eq, rfind, take, drop, find, ends_with, lookup, if◌then◌else◌,
}
use obsidian_mcp_semantic_me.Error.{Result, ok, err, NoteMetadata}
use obsidian_mcp_semantic_me.Exclude.{Globset, ExcludeSet, is_excluded}
use obsidian_mcp_semantic_me.Wikilink.{Unicode, file_name, forward_slashes}
use obsidian_mcp_semantic_me.Index.{VaultIndex, reindex_file, remove_file, add_excluded_file}

abbrev lower : ℕ → ℕ
lower b = if leb 65 b && leb b 90 then b + 32 else b

abbrev pub to_ascii_lowercase : Text → Text
to_ascii_lowercase s = map lower s

abbrev first_part : Text → Option ℕ → Text
first_part path none = path
first_part path (some i) = take i path

-- The first component of a normalized path.
unfoldable pub is_obsidian_dir : Text → Bool
is_obsidian_dir relative =
    let name = first_part relative (find (bytes "/") relative) in
    text_eq name (bytes ".obsidian") || text_eq name (bytes ".obsidian-mcp")

abbrev after_dot : Text → Option ℕ → Option Text
after_dot name none = none
after_dot name (some zero) = none
after_dot name (some (suc i)) = some (drop (suc (suc i)) name)

-- `Path::extension`, of a path that ends in a name
unfoldable pub extension : Text → Option Text
extension path = after_dot (file_name path) (rfind (bytes ".") (file_name path))

-- `relative` is the normalized path under the root, if the path is under it.
unfoldable pub should_process_path : Option Text → Text → Bool
should_process_path none absolute = false
should_process_path (some relative) absolute =
    if is_obsidian_dir relative then false else elim (extension absolute) [
      | some ext ↦ text_eq (to_ascii_lowercase ext) (bytes "md")
      | none ↦ ends_with (bytes ".md") (to_ascii_lowercase absolute)
    ]

-- An event, and what the file system and the parser say when it is processed.
pub record Event : Type 0 where
  pub absolute : Text
  pub relative : Option Text
  pub exists : Bool
  pub parsed : Text → Result NoteMetadata

pub data Call : Type 0 where
  remove_document index_document submit_remove submit_upsert : Text → Call

pub record Outcome : Type 0 where
  pub index : VaultIndex
  pub calls : List Call
  pub tantivy_touched : Bool

module _ (u : Unicode) (g : Globset) (exclude : ExcludeSet) (succeeds : Option (Call → Bool))
    (has_runtime : Bool) where
  abbrev tantivy_calls : Option (Call → Bool) → Call → List Call
  tantivy_calls none call = []
  tantivy_calls (some p) call = call ∷ []

  abbrev touched : Option (Call → Bool) → Call → Bool
  touched none call = false
  touched (some p) call = p call

  -- The calls after the index has changed.
  abbrev pub outcome : VaultIndex → Call → Call → Outcome
  outcome idx document intent = record {
    index = idx;
    calls = tantivy_calls succeeds document ++ (if has_runtime then intent ∷ [] else []);
    tantivy_touched = touched succeeds document;
  }

  abbrev pub untouched : VaultIndex → Outcome
  untouched idx = record { index = idx; calls = []; tantivy_touched = false }

  -- The document is indexed if the note is there.
  abbrev if_there : Option NoteMetadata → Option (Call → Bool)
  if_there none = none
  if_there (some m) = succeeds

  abbrev pub reindexed : Text → VaultIndex → Outcome
  reindexed path idx =
      let indexing = if_there (lookup path idx.notes) in
      record {
        index = idx;
        calls =
            tantivy_calls indexing (index_document path)
            ++ (if has_runtime then submit_upsert path ∷ [] else []);
        tantivy_touched = touched indexing (index_document path);
      }

  abbrev pub after_reindex : Text → VaultIndex × Result (Unit {0}) → Outcome
  after_reindex path (next, err e) = untouched next
  after_reindex path (next, ok done) = reindexed path next

  unfoldable pub process_path : Event → Text → VaultIndex → Outcome
  process_path event path idx =
      if is_excluded g exclude (forward_slashes path)
      then outcome (if event.exists then add_excluded_file u idx path else remove_file u idx path)
          (remove_document path) (submit_remove path)
      else if event.exists
      then after_reindex path (reindex_file u event.parsed idx path)
      else outcome (remove_file u idx path) (remove_document path) (submit_remove path)

  unfoldable pub process_event : VaultIndex → Event → Outcome
  process_event idx event = elim event.relative [
    | none ↦ untouched idx
    | some path ↦
        if should_process_path (some path) event.absolute
        then process_path event path idx
        else untouched idx
  ]
