-- ===== src/Watcher/Examples.antt =====
-- Runs of src/vault/watcher.rs.
use obsidian_mcp_semantic_me.Base.{◌≡◌, refl, true, false, none, some, [], ◌∷◌, bytes, base_runs}
use obsidian_mcp_semantic_me.Error.{err, other}
use obsidian_mcp_semantic_me.Exclude.{ExcludeSet, is_excluded, is_empty_set}
use obsidian_mcp_semantic_me.Exclude.Examples.{simple}
use obsidian_mcp_semantic_me.Wikilink.{file_name, forward_slashes}
use obsidian_mcp_semantic_me.Wikilink.Ascii.{ascii}
use obsidian_mcp_semantic_me.Index.{empty}
use obsidian_mcp_semantic_me.Index.Tags.{IsTagged}
use obsidian_mcp_semantic_me.Watcher.{
  Event, submit_remove, is_obsidian_dir, extension, should_process_path, process_path,
  process_event,
}
use obsidian_mcp_semantic_me.Watcher.Reach.{processed, started, then_step, Reachable-IsTagged}

runs : Unit {0}
unfolding base_runs is_excluded is_empty_set file_name forward_slashes is_obsidian_dir extension
    should_process_path process_path process_event
runs = tt

abbrev no_globs : ExcludeSet
no_globs = record { set = []; patterns = [] }

abbrev removed : Event
removed = record {
  absolute = bytes "/v/d/A.MD";
  relative = some (bytes "d/A.MD");
  exists = false;
  parsed = λ path. err (other path);
}

watcher_runs :
    (should_process_path (some (bytes "d/A.MD")) (bytes "/v/d/A.MD") ≡ true)
    × (should_process_path (some (bytes ".obsidian/a.md")) (bytes "/v/.obsidian/a.md") ≡ false)
    × (should_process_path (some (bytes "a.txt")) (bytes "/v/a.txt") ≡ false)
    × (should_process_path (some (bytes ".md")) (bytes "/v/.md") ≡ true)
    × ((process_event ascii simple no_globs none true empty removed).calls
        ≡ submit_remove (bytes "d/A.MD") ∷ [])
unfolding runs
watcher_runs = (refl, refl, refl, refl, refl)

empty-IsTagged : IsTagged empty
unfolding runs
empty-IsTagged = record { listed = λ s t. refl; alive = λ t. cc }

Reachable-IsTagged_example :
    IsTagged (process_event ascii simple no_globs none true empty removed).index
Reachable-IsTagged_example =
    Reachable-IsTagged ascii simple no_globs none true empty-IsTagged
      (then_step started (processed empty removed))
