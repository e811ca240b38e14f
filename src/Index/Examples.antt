-- ===== src/Index/Examples.antt =====
-- Runs of the index on two small notes.
use obsidian_mcp_semantic_me.Base.{
  remove, true, some, lookup, ◌↔◌, Any, ◌+◌, ◌≡◌, refl, inl, none, List, [], ◌∷◌, Text, bytes,
  length, base_runs,
}
use obsidian_mcp_semantic_me.Error.{Result, ok, err, other, WikiLink, NoteMetadata}
use obsidian_mcp_semantic_me.Wikilink.{empty_resolver, remove_path}
use obsidian_mcp_semantic_me.Wikilink.Ascii
use obsidian_mcp_semantic_me.Wikilink.Ascii.{ascii}
use obsidian_mcp_semantic_me.Wikilink.Abstract.{Represents}
use obsidian_mcp_semantic_me.Wikilink.Refines.{
  empty_resolver-Represents, add_path-Represents, remove_path-Represents,
}
use obsidian_mcp_semantic_me.Index.{
  VaultIndex, empty, untag, remove_all, remove_note_contributions, add_tags, drop_links, add_links,
  rebuild_from, stats_of, recompute_stats, update_backlinks_for_file, rebuild_backlinks, forget,
  store, reindex_file, rename_file, remove_file, add_excluded_file,
}
use obsidian_mcp_semantic_me.Index.Queries.{
  broken_links, notes_at, notes_with_tag, backlinks_to, paths_under, notes_with_tag_prefix,
  orphan_notes,
}
use obsidian_mcp_semantic_me.Index.Backlinks.{IsLinked, reindex_file-IsLinked, rename_file-IsLinked}
use obsidian_mcp_semantic_me.Index.Tags.{IsTagged, reindex_file-IsTagged}
use obsidian_mcp_semantic_me.Index.Answers.{backlinks_to-IsLinked}
use obsidian_mcp_semantic_me.Index.Links.{is_linked}
use obsidian_mcp_semantic_me.Wikilink.{resolve}
use obsidian_mcp_semantic_me.Index.Tags.{remove_file-IsTagged}
use obsidian_mcp_semantic_me.Index.Failure.{reindex_file-stale}

runs : Unit {0}
unfolding base_runs Ascii.runs untag remove_all remove_note_contributions add_tags drop_links
    add_links rebuild_from stats_of recompute_stats update_backlinks_for_file rebuild_backlinks
    forget store reindex_file rename_file remove_file add_excluded_file broken_links notes_at
    notes_with_tag backlinks_to paths_under notes_with_tag_prefix orphan_notes
runs = tt

abbrev link_to : Text → WikiLink
link_to target = record {
  raw = target;
  target = target;
  heading = none;
  block_ref = none;
  alias = none;
  line = 0;
}

abbrev note_at : Text → List Text → List WikiLink → NoteMetadata
note_at path tags links = record {
  path = path;
  title = path;
  tags = tags;
  frontmatter = none;
  headings = [];
  links = links;
  block_refs = [];
  stat = record { size = 10; created = none; modified = none };
}

abbrev a_path : Text
a_path = bytes "a.md"

abbrev b_path : Text
b_path = bytes "b.md"

abbrev a_note : NoteMetadata
a_note = note_at a_path (bytes "inbox" ∷ []) (link_to (bytes "b") ∷ [])

abbrev a_edited : NoteMetadata
a_edited = note_at a_path (bytes "done/today" ∷ []) (link_to (bytes "gone") ∷ [])

abbrev parse_as : NoteMetadata → Text → Result NoteMetadata
parse_as note path = ok note

abbrev parse_none : Text → Result NoteMetadata
parse_none path = err (other path)

abbrev one : VaultIndex
one = (reindex_file ascii (parse_as a_note) empty a_path).0

abbrev two : VaultIndex
two = (reindex_file ascii (parse_as (note_at b_path [] [])) one b_path).0

abbrev edited : VaultIndex
edited = (reindex_file ascii (parse_as a_edited) two a_path).0

queries_run :
    (backlinks_to two b_path ≡ a_note ∷ [])
    × (backlinks_to edited b_path ≡ [])
    × (notes_with_tag two (bytes "inbox") ≡ a_note ∷ [])
    × (notes_with_tag edited (bytes "inbox") ≡ [])
    × (notes_with_tag_prefix edited (bytes "done") ≡ a_edited ∷ [])
    × (broken_links ascii edited ≡ (a_path, link_to (bytes "gone")) ∷ [])
    × (orphan_notes edited ≡ note_at b_path [] [] ∷ [])
    × (edited.stats.total_notes ≡ 2)
unfolding runs
queries_run = (refl, refl, refl, refl, refl, refl, refl, refl)

empty-IsLinked : IsLinked ascii empty
unfolding runs
empty-IsLinked s t = refl

empty-IsTagged : IsTagged empty
unfolding runs
empty-IsTagged = record { listed = λ s t. refl; alive = λ t. cc }

one-IsLinked : IsLinked ascii one
unfolding runs
one-IsLinked =
    reindex_file-IsLinked ascii (parse_as a_note) empty [] a_path a_note refl tt empty-IsLinked
      (empty_resolver-Represents ascii) (λ e. cc)

one-Represents : Represents ascii one.link_resolver (a_path ∷ [])
unfolding runs
one-Represents =
    add_path-Represents ascii (remove_path ascii empty_resolver a_path) [] a_path
      (remove_path-Represents ascii empty_resolver [] a_path refl (empty_resolver-Represents ascii))

reindex_file-IsLinked_example : IsLinked ascii (reindex_file ascii (parse_as a_edited) one a_path).0
unfolding runs
reindex_file-IsLinked_example =
    reindex_file-IsLinked ascii (parse_as a_edited) one (a_path ∷ []) a_path a_edited refl
      (refl, tt) one-IsLinked one-Represents (λ e. (inl (refl, refl), refl))

rename_file-IsLinked_example :
    IsLinked ascii (rename_file ascii (parse_as a_note) one a_path b_path).0
unfolding runs
rename_file-IsLinked_example =
    rename_file-IsLinked ascii (parse_as a_note) one a_path b_path a_note refl (refl, tt)

one-IsTagged : IsTagged one
one-IsTagged = reindex_file-IsTagged ascii (parse_as a_note) empty a_path empty-IsTagged

reindex_file-IsTagged_example : IsTagged (reindex_file ascii parse_none one a_path).0
reindex_file-IsTagged_example = reindex_file-IsTagged ascii parse_none one a_path one-IsTagged

reindex_file-stale_example :
    ((reindex_file ascii parse_none one a_path).1 ≡ err (other a_path))
    × ((reindex_file ascii parse_none one a_path).0.notes ≡ remove a_path one.notes)
    × ((reindex_file ascii parse_none one a_path).0.backlinks ≡ one.backlinks)
    × ((reindex_file ascii parse_none one a_path).0.stats ≡ one.stats)
    × ((reindex_file ascii parse_none one a_path).0.stats.total_notes
        ≡ length (reindex_file ascii parse_none one a_path).0.notes + 1)
unfolding runs
reindex_file-stale_example =
    reindex_file-stale ascii parse_none one a_path a_note (other a_path) refl (refl, tt) refl refl

backlinks_to-IsLinked_example : (Any (λ n. n ≡ a_note) (backlinks_to one b_path)) ↔ (
    (s : Text) × (lookup s one.notes ≡ some a_note)
    × (is_linked (resolve ascii one.link_resolver) one.notes s b_path ≡ true))
backlinks_to-IsLinked_example = backlinks_to-IsLinked ascii one b_path a_note one-IsLinked

remove_file-IsTagged_example : IsTagged (remove_file ascii one a_path)
remove_file-IsTagged_example = remove_file-IsTagged ascii one a_path one-IsTagged
