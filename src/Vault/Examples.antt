-- ===== src/Vault/Examples.antt =====
-- Runs of the operations on notes of src/vault/mod.rs.
use obsidian_mcp_semantic_me.Base.{
  List, Bool-cases, inl, ◌≡◌, refl, true, none, [], ◌∷◌, Text, bytes, lookup, contains_key,
  lookup-insert, text_eq_iff, arith, base_runs, inr, if◌then◌else◌,
}
use obsidian_mcp_semantic_me.Error.{Result, ok, err, note_not_found, NoteMetadata, null}
use obsidian_mcp_semantic_me.Vault.{
  parse_note_metadata, Disk, Vault, Setting, call_tantivy, submit_intent, read_file, file_exists,
  write_file, append_file, delete_file, move_file, reindex_actual, reindex, write_note, append_note,
  create_note, delete_note, moved_out, moved_within, move_note,
}
use obsidian_mcp_semantic_me.Exclude.{is_excluded}
use obsidian_mcp_semantic_me.Exclude.Examples.{simple}
use obsidian_mcp_semantic_me.Wikilink.Ascii.{ascii}
use obsidian_mcp_semantic_me.Vault.Told.{perform-AreReported}
use obsidian_mcp_semantic_me.Vault.Reported.{AreReported}
use obsidian_mcp_semantic_me.Index.{
  empty, untag, remove_all, remove_note_contributions, add_tags, drop_links, add_links,
  rebuild_from, stats_of, recompute_stats, update_backlinks_for_file, rebuild_backlinks, forget,
  store, reindex_file, rename_file, remove_file, add_excluded_file,
}
use obsidian_mcp_semantic_me.Watcher.{submit_upsert, submit_remove}
use obsidian_mcp_semantic_me.Vault.Synced.{IsCanonical, IsSynced}
use obsidian_mcp_semantic_me.Vault.Operations.{
  Operation, write, delete, move, perform, perform_all, perform_all-IsSynced,
}
use obsidian_mcp_semantic_me.Exclude.Examples
use obsidian_mcp_semantic_me.Wikilink.Ascii

runs : Unit {0}
unfolding base_runs Ascii.runs Examples.runs untag remove_all remove_note_contributions add_tags
    drop_links add_links rebuild_from stats_of recompute_stats update_backlinks_for_file
    rebuild_backlinks forget store reindex_file rename_file remove_file add_excluded_file
    call_tantivy submit_intent read_file file_exists write_file append_file delete_file move_file
    parse_note_metadata reindex_actual reindex write_note append_note create_note delete_note
    moved_out moved_within move_note perform perform_all
runs = tt

abbrev note_at : Text → Text → Result NoteMetadata
note_at path content = ok (record {
  path = path;
  title = content;
  tags = [];
  frontmatter = none;
  headings = [];
  links = [];
  block_refs = [];
  stat = record { size = 1; created = none; modified = none };
})

-- Every path is canonical, and every call succeeds.
abbrev disk : Disk
disk = record {
  resolve_existing =
      λ files path. if contains_key path files then ok path else err (note_not_found path);
  resolve_for_write = λ files path. ok path;
  written = λ path. ok tt;
  deleted = λ path. ok tt;
  renamed = λ old new. ok tt;
  parse = note_at;
}

abbrev setting : Setting
setting = record {
  disk = disk;
  unicode = ascii;
  globset = simple;
  exclude = record { set = bytes "x/**" ∷ []; patterns = bytes "x/**" ∷ [] };
  serde = record {
    from_str = λ t. inr null;
    to_string = λ j. inr (bytes "y");
    json_text = λ j. [];
  };
  tantivy = none;
  has_runtime = true;
}

abbrev a_path : Text
a_path = bytes "a.md"

abbrev b_path : Text
b_path = bytes "b.md"

abbrev no_files : Vault
no_files = record { files = []; index = empty; calls = [] }

abbrev steps : List Operation
steps =
    write a_path (bytes "hi")
    ∷ move a_path b_path
    ∷ move b_path (bytes "x/c.md")
    ∷ delete a_path
    ∷ []

disk-IsCanonical : IsCanonical disk
disk-IsCanonical files path actual content h =
    ground (arith, lookup-insert actual actual content files, text_eq_iff actual actual)

no_files-IsSynced : IsSynced setting no_files
unfolding lookup parse_note_metadata
no_files-IsSynced q = elim (Bool-cases (is_excluded setting.globset setting.exclude q)) [
  | inl e ↦ rw e refl
  | inr e ↦ rw e refl
]

perform_all-IsSynced_example : IsSynced setting (perform_all setting steps no_files)
perform_all-IsSynced_example =
    perform_all-IsSynced setting steps no_files disk-IsCanonical no_files-IsSynced

abbrev one_file : Vault
one_file = record { files = (a_path, bytes "hi") ∷ []; index = empty; calls = [] }

move_run : (perform setting (move a_path b_path) one_file).1 ≡ ok tt
unfolding runs
move_run = refl

files_run :
    ((perform_all setting steps no_files).files ≡ (bytes "x/c.md", bytes "hi") ∷ [])
    × ((perform setting (move a_path b_path) one_file).0.calls
        ≡ submit_remove a_path ∷ submit_upsert b_path ∷ [])
unfolding runs
files_run = (refl, refl)

perform-AreReported_example : AreReported one_file (perform setting (move a_path b_path) one_file).0
perform-AreReported_example =
    perform-AreReported setting (move a_path b_path) one_file refl disk-IsCanonical move_run
