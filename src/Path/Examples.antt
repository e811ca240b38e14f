-- ===== src/Path/Examples.antt =====
-- Runs of src/vault/path.rs.
use obsidian_mcp_semantic_me.Base.{All, ◌↔◌, ◌≡◌, refl, List, [], ◌∷◌, bytes, base_runs}
use obsidian_mcp_semantic_me.Error.{ok, err, outside_vault}
use obsidian_mcp_semantic_me.Path.{
  Component, normal, cur_dir, parent_dir, root_dir, pop, normalize_from, forward_slash_path,
  normalize_relative, strip_root, relative_from_absolute,
}
use obsidian_mcp_semantic_me.Path.Depth.{IsRelative, StaysBelow}
use obsidian_mcp_semantic_me.Path.Normal.{read_back, normalize_relative-StaysBelow}

runs : Unit {0}
unfolding base_runs pop normalize_from forward_slash_path normalize_relative strip_root
    relative_from_absolute
runs = tt

abbrev up_and_down : List Component
up_and_down =
    normal (bytes "a") ∷ cur_dir ∷ parent_dir ∷ normal (bytes "b") ∷ normal (bytes "c.md") ∷ []

-- The last run is on a name of Unix with backslashes in it: what comes out climbs out of the vault.
path_runs :
    (normalize_relative (bytes "a/./../b/c.md") up_and_down ≡ ok (bytes "b/c.md"))
    × (normalize_relative (bytes "../b") (parent_dir ∷ normal (bytes "b") ∷ [])
        ≡ err (outside_vault (bytes "../b")))
    × (relative_from_absolute
          (bytes "/v/a")
          (bytes "a")
          (root_dir ∷ normal (bytes "v") ∷ [])
          (root_dir ∷ normal (bytes "v") ∷ normal (bytes "a") ∷ [])
        ≡ ok (bytes "a"))
    × (normalize_relative (bytes "..\\b") (normal (bytes "..\\b") ∷ []) ≡ ok (bytes "../b"))
unfolding runs
path_runs = (refl, refl, refl, refl)

normalize_relative-StaysBelow_example :
    (normalize_relative (bytes "a/./../b/c.md") up_and_down ≡ ok (bytes "b/c.md")) ↔ (
      All IsRelative up_and_down
      × StaysBelow 0 up_and_down
      × (bytes "b/c.md" ≡ forward_slash_path (read_back up_and_down).1))
normalize_relative-StaysBelow_example =
    normalize_relative-StaysBelow (bytes "a/./../b/c.md") up_and_down (bytes "b/c.md")

read_back_run : read_back up_and_down ≡ (0, bytes "b" ∷ bytes "c.md" ∷ [])
unfolding read_back
read_back_run = refl
