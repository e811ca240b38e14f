-- ===== src/Wikilink/Examples.antt =====
-- Runs of the resolver on ASCII paths.
use obsidian_mcp_semantic_me.Base.{
  ◌≡◌, ◌≢◌, refl, inl, none, some, List, [], ◌∷◌, ◌++◌, Text, bytes,
}
use obsidian_mcp_semantic_me.Wikilink.{
  LinkResolver, remove_path, rename_path, build_link_resolver, resolve, resolve_candidates,
}
use obsidian_mcp_semantic_me.Wikilink.Ascii.{ascii, runs}
use obsidian_mcp_semantic_me.Wikilink.Abstract.{resolve_in, candidates_in, others}
use obsidian_mcp_semantic_me.Wikilink.Refines.{
  build_link_resolver-Represents, build_link_resolver-resolve, remove_path-resolve,
  rename_path-resolve,
}
use obsidian_mcp_semantic_me.Wikilink.Collision.{remove_path-loses_twin}

abbrev paths : List Text
paths = bytes "Notes/A.md" ∷ bytes "Other/a.md" ∷ bytes "B.md" ∷ []

abbrev built : LinkResolver
built = build_link_resolver ascii paths

resolve_runs :
    (resolve ascii built (bytes "b") ≡ some (bytes "B.md"))
    × (resolve ascii built (bytes "A") ≡ none)
    × (resolve ascii built (bytes "notes\\a.MD") ≡ some (bytes "Notes/A.md"))
    × (resolve ascii (remove_path ascii built (bytes "Other/a.md")) (bytes "A")
        ≡ some (bytes "Notes/A.md"))
unfolding runs
resolve_runs = (refl, refl, refl, refl)

build_link_resolver-resolve_example :
    (resolve ascii built (bytes "b") ≡ resolve_in ascii paths (bytes "b"))
    × (resolve_candidates ascii built (bytes "b") ≡ candidates_in ascii paths (bytes "b"))
build_link_resolver-resolve_example = build_link_resolver-resolve ascii paths (bytes "b")

remove_path-resolve_example :
    resolve ascii (remove_path ascii built (bytes "Other/a.md")) (bytes "A")
    ≡ resolve_in ascii (others (bytes "Other/a.md") paths) (bytes "A")
unfolding runs
remove_path-resolve_example =
    remove_path-resolve ascii built paths (bytes "Other/a.md") (bytes "A")
      (build_link_resolver-Represents ascii paths) refl

rename_path-resolve_example :
    resolve ascii (rename_path ascii built (bytes "B.md") (bytes "C.md")) (bytes "c")
    ≡ resolve_in ascii (others (bytes "B.md") paths ++ bytes "C.md" ∷ []) (bytes "c")
unfolding runs
rename_path-resolve_example =
    rename_path-resolve ascii built paths (bytes "B.md") (bytes "C.md") (bytes "c")
      (build_link_resolver-Represents ascii paths) refl

abbrev twins : List Text
twins = bytes "d/A.md" ∷ bytes "d/a.md" ∷ []

remove_path-loses_twin_example :
    (resolve ascii
        (remove_path ascii (build_link_resolver ascii twins) (bytes "d/A.md"))
        (bytes "d/a")
      ≡ none)
    × (resolve_in ascii (others (bytes "d/A.md") twins) (bytes "d/a") ≢ none)
unfolding runs
remove_path-loses_twin_example =
    remove_path-loses_twin ascii (build_link_resolver ascii twins) twins (bytes "d/A.md")
      (bytes "d/a.md") (bytes "d/a") refl refl refl (inl refl)
