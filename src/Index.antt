-- ===== src/Index.antt =====
-- src/vault/index.rs: the index of the vault in memory. `parse` stands for what
-- `parse_note_metadata` answers when an operation runs; a map and a set are lists without
-- repetitions, and iteration goes in their order. `u64` sums of sizes are not bounded.
pub mod Queries
pub mod Links
pub mod Backlinks
pub mod Reorder
pub mod TagLoops
pub mod Tags
pub mod Failure
pub mod Answers
mod Examples
use obsidian_mcp_semantic_me.Base.{
  ℕ, ◌+◌, Bool, true, false, not, ◌&&◌, ◌||◌, Option, none, some, List, [], ◌∷◌, ◌++◌, map, foldl,
  Text, bytes, text_eq, length, keep, any, is_empty, starts_with, Dict, lookup, insert, remove,
  contains_key, or_empty, member, set_insert, set_remove, if◌then◌else◌,
}
use obsidian_mcp_semantic_me.Error.{Result, ok, err, NoteMetadata, WikiLink, VaultStats}
use obsidian_mcp_semantic_me.Wikilink.{
  Unicode, LinkResolver, empty_resolver, add_path, remove_path, rename_path, resolve, is_resolved,
}

pub record VaultIndex : Type 0 where
  pub notes : Dict NoteMetadata
  pub tags : Dict (List Text)
  pub link_resolver : LinkResolver
  pub backlinks : Dict (List Text)
  pub stats : VaultStats
  pub non_md_file_count : ℕ
  pub non_md_bytes : ℕ
  pub excluded_note_paths : List Text

abbrev pub empty : VaultIndex
empty = record {
  notes = [];
  tags = [];
  link_resolver = empty_resolver;
  backlinks = [];
  stats = record {
    total_notes = 0;
    total_files = 0;
    total_tags = 0;
    total_links = 0;
    vault_size_bytes = 0;
    excluded_notes = 0;
  };
  non_md_file_count = 0;
  non_md_bytes = 0;
  excluded_note_paths = [];
}

abbrev pub is_empty_set : List Text → Bool
is_empty_set [] = true
is_empty_set (p ∷ ps) = false

-- The first loop of `remove_note_contributions`: the tags that are left with no path.
unfoldable pub untag :
    Text → List Text → Dict (List Text) → List Text → Dict (List Text) × List Text
untag path [] tags empties = (tags, empties)
untag path (t ∷ ts) tags empties = elim (lookup t tags) [
  | none ↦ untag path ts tags empties
  | some paths ↦
      let left = set_remove path paths in
      untag path ts (insert t left tags) (if is_empty_set left then empties ++ t ∷ [] else empties)
]

unfoldable pub remove_all {ℓ} : {V : Type ℓ} → List Text → Dict V → Dict V
remove_all [] m = m
remove_all (k ∷ ks) m = remove_all ks (remove k m)

unfoldable pub remove_note_contributions : Text → VaultIndex → VaultIndex
remove_note_contributions path idx = elim (lookup path idx.notes) [
  | none ↦ idx
  | some old_note ↦
      let (tags, empties) = untag path old_note.tags idx.tags [] in
      record idx { notes = remove path idx.notes; tags = remove_all empties tags }
]

-- `for tag in &metadata.tags { self.tags.entry(..).or_default().insert(path) }`
unfoldable pub add_tags : Text → List Text → Dict (List Text) → Dict (List Text)
add_tags path [] tags = tags
add_tags path (t ∷ ts) tags =
    add_tags path ts (insert t (set_insert path (or_empty (lookup t tags))) tags)

-- The three loops over links, for a resolver that answers as `res`. The first is the loop over
-- `old_links`, where a set that is left empty goes with its key.
abbrev pub put_sources : Text → List Text → Dict (List Text) → Dict (List Text)
put_sources resolved [] m = remove resolved m
put_sources resolved (p ∷ ps) m = insert resolved (p ∷ ps) m

abbrev pub unlink_source : Text → Text → Dict (List Text) → Dict (List Text)
unlink_source path resolved m = elim (lookup resolved m) [
  | none ↦ m
  | some sources ↦ put_sources resolved (set_remove path sources) m
]

abbrev pub link_source : Text → Text → Dict (List Text) → Dict (List Text)
link_source path resolved m = insert resolved (set_insert path (or_empty (lookup resolved m))) m

module _ (res : Text → Option Text) where
  -- `if link.target.is_empty() { continue; }`, and `if let Some(resolved) = resolve(..)`
  abbrev pub target_of : WikiLink → Option Text
  target_of link = if is_empty link.target then none else res link.target

  unfoldable pub drop_links : Text → List WikiLink → Dict (List Text) → Dict (List Text)
  drop_links path [] m = m
  drop_links path (link ∷ links) m = elim (target_of link) [
    | none ↦ drop_links path links m
    | some resolved ↦ drop_links path links (unlink_source path resolved m)
  ]

  unfoldable pub add_links : Text → List WikiLink → Dict (List Text) → Dict (List Text)
  add_links path [] m = m
  add_links path (link ∷ links) m = elim (target_of link) [
    | none ↦ add_links path links m
    | some resolved ↦ add_links path links (link_source path resolved m)
  ]

  unfoldable pub rebuild_from : Dict NoteMetadata → Dict (List Text) → Dict (List Text)
  rebuild_from [] m = m
  rebuild_from ((source, note) ∷ notes) m = rebuild_from notes (add_links source note.links m)

abbrev pub links_of : Option NoteMetadata → List WikiLink
links_of none = []
links_of (some note) = note.links

abbrev pub old_links_of : Option NoteMetadata → Option (List WikiLink)
old_links_of none = none
old_links_of (some note) = some note.links

abbrev pub total_size : Dict NoteMetadata → ℕ
total_size [] = 0
total_size ((path, note) ∷ notes) = note.stat.size + total_size notes

abbrev pub count_links : Dict NoteMetadata → ℕ
count_links [] = 0
count_links ((path, note) ∷ notes) = length note.links + count_links notes

unfoldable pub stats_of : VaultIndex → VaultStats
stats_of idx = record {
  total_notes = length idx.notes;
  total_files = length idx.notes + idx.non_md_file_count;
  total_tags = length idx.tags;
  total_links = count_links idx.notes;
  vault_size_bytes = total_size idx.notes + idx.non_md_bytes;
  excluded_notes = length idx.excluded_note_paths;
}

unfoldable pub recompute_stats : VaultIndex → VaultIndex
recompute_stats idx = record idx { stats = stats_of idx }

module _ (u : Unicode) where
  unfoldable pub update_backlinks_for_file : Text → Option (List WikiLink) → VaultIndex → VaultIndex
  update_backlinks_for_file path old_links idx =
      let res = resolve u idx.link_resolver in
      record idx {
        backlinks =
            add_links res path (links_of (lookup path idx.notes))
              (drop_links res path (or_empty old_links) idx.backlinks);
      }

  unfoldable pub rebuild_backlinks : VaultIndex → VaultIndex
  rebuild_backlinks idx = record idx {
    backlinks = rebuild_from (resolve u idx.link_resolver) idx.notes [];
  }

  -- `reindex_file`, up to the call of `parse_note_metadata`
  unfoldable pub forget : Text → VaultIndex → VaultIndex
  forget path idx =
      let cleared =
        remove_note_contributions path
          (record idx { excluded_note_paths = set_remove path idx.excluded_note_paths }) in
      record cleared { link_resolver = remove_path u cleared.link_resolver path }

  -- and what follows it
  unfoldable pub store : Text → NoteMetadata → VaultIndex → VaultIndex
  store path metadata idx = record idx {
    tags = add_tags path metadata.tags idx.tags;
    link_resolver = add_path u idx.link_resolver path;
    notes = insert path metadata idx.notes;
  }

  module _ (parse : Text → Result NoteMetadata) where
    -- The index as the call leaves it, and its answer.
    unfoldable pub reindex_file : VaultIndex → Text → VaultIndex × Result (Unit {0})
    reindex_file idx path =
        let was_existing = contains_key path idx.notes in
        let old_links = old_links_of (lookup path idx.notes) in
        let forgotten = forget path idx in
        elim (parse path) [
          | err e ↦ (forgotten, err e)
          | ok metadata ↦
              let stored = store path metadata forgotten in
              let linked =
                if was_existing
                then update_backlinks_for_file path old_links stored
                else rebuild_backlinks stored in
              (recompute_stats linked, ok tt)
        ]

    unfoldable pub rename_file : VaultIndex → Text → Text → VaultIndex × Result (Unit {0})
    rename_file idx old new =
        let cleared =
          remove_note_contributions old
            (record idx { excluded_note_paths = set_remove old idx.excluded_note_paths }) in
        let moved = record cleared {
          link_resolver = rename_path u cleared.link_resolver old new;
          backlinks = remove old cleared.backlinks;
        } in
        elim (parse new) [
          | err e ↦ (moved, err e)
          | ok metadata ↦
              let stored = record moved {
                tags = add_tags new metadata.tags moved.tags;
                notes = insert new metadata moved.notes;
              } in
              (recompute_stats (rebuild_backlinks stored), ok tt)
        ]

  unfoldable pub remove_file : VaultIndex → Text → VaultIndex
  remove_file idx path =
      let forgotten = forget path idx in
      recompute_stats
        (rebuild_backlinks (record forgotten { backlinks = remove path forgotten.backlinks }))

  unfoldable pub add_excluded_file : VaultIndex → Text → VaultIndex
  add_excluded_file idx path =
      let cleared = remove_note_contributions path idx in
      let hidden = record cleared {
        link_resolver = remove_path u cleared.link_resolver path;
        backlinks = remove path cleared.backlinks;
        excluded_note_paths = set_insert path cleared.excluded_note_paths;
      } in
      recompute_stats (rebuild_backlinks hidden)
