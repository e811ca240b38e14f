-- ===== src/Scope/Examples.antt =====
-- Runs of src/vault/scope.rs, with the globs of the runs of src/vault/exclude.rs.
use obsidian_mcp_semantic_me.Base.{
  text_eq_iff, inl, inr, Bool-cases, Bool-cases, arith, member, lookup, ℕ, ◌≡◌, refl, ◌↔◌, true,
  false, List, [], ◌∷◌, Text, bytes, text_eq, contains_key, Dict, insert_sorted, if◌then◌else◌,
}
use obsidian_mcp_semantic_me.Error.{ok, err}
use obsidian_mcp_semantic_me.Exclude.Examples
use obsidian_mcp_semantic_me.Exclude.Examples.{simple, simple_match}
use obsidian_mcp_semantic_me.Scope.{
  Scope, ScopeSet, RawScope, entry_or_default, header_of, open_block, add_entry, scan_scope_line,
  scan_lines, scan_sources, parse_sources, resolve_each, resolve_into, resolve_scope, compile_scope,
  build_from, build_scopes, contains, is_known, require, narrow, patterns, circular, empty_name,
}
use obsidian_mcp_semantic_me.Scope.Reach.{Includes, same}
use obsidian_mcp_semantic_me.Scope.Cycles.{IsRank, resolve_scope-total, resolve_into-acyclic}
use obsidian_mcp_semantic_me.Scope.Build.{Matches, build_scopes-contains}

runs : Unit {0}
unfolding Examples.runs insert_sorted entry_or_default header_of open_block add_entry
    scan_scope_line scan_lines scan_sources parse_sources resolve_each resolve_into compile_scope
    build_from build_scopes contains is_known require narrow patterns
runs = tt

abbrev file : Text
file = bytes "[work]\nWork/\n+ shared\n\n# more\n[shared]\nNotes/\n"

abbrev raw_scopes : Dict RawScope
raw_scopes =
    (bytes "shared", record { patterns = bytes "Notes/" ∷ []; references = [] })
    ∷ (bytes "work", record { patterns = bytes "Work/" ∷ []; references = bytes "shared" ∷ [] })
    ∷ []

abbrev scope_of : List Text → Scope
scope_of globs = record { patterns = globs; globs = record { set = globs; patterns = globs } }

abbrev built_scope : Scope
built_scope = record {
  patterns = bytes "Notes/**" ∷ bytes "Work/**" ∷ [];
  globs = record {
    set = bytes "Work/**" ∷ bytes "Notes/**" ∷ [];
    patterns = bytes "Work/**" ∷ bytes "Notes/**" ∷ [];
  };
}

abbrev built : ScopeSet
built = record {
  scopes = (bytes "shared", scope_of (bytes "Notes/**" ∷ [])) ∷ (bytes "work", built_scope) ∷ [];
}

abbrev looped : Dict RawScope
looped =
    (bytes "a", record { patterns = []; references = bytes "b" ∷ [] })
    ∷ (bytes "b", record { patterns = []; references = bytes "a" ∷ [] })
    ∷ []

scope_runs :
    (parse_sources (file ∷ []) ≡ ok raw_scopes)
    × (build_scopes simple (file ∷ []) ≡ ok built)
    × (contains simple built (bytes "work") (bytes "Notes/a.md") ≡ true)
    × (contains simple built (bytes "shared") (bytes "Work/a.md") ≡ false)
    × (resolve_scope looped (bytes "a") ≡ err (circular (bytes "a" ∷ bytes "b" ∷ bytes "a" ∷ [])))
    × (parse_sources (bytes "[ ]" ∷ []) ≡ err empty_name)
unfolding runs
scope_runs = (refl, refl, refl, refl, refl, refl)

build_scopes-contains_example :
    (raw : Dict RawScope) × (parse_sources (file ∷ []) ≡ ok raw)
    × (contains_key (bytes "work") built.scopes ≡ contains_key (bytes "work") raw)
    × ((contains simple built (bytes "work") (bytes "Notes/a.md") ≡ true)
        ↔ Matches simple_match raw (bytes "work") (bytes "Notes/a.md"))
unfolding runs
build_scopes-contains_example =
    build_scopes-contains simple simple_match (file ∷ []) built (bytes "work") (bytes "Notes/a.md")
      (λ globs path. refl) refl refl

resolve_into-acyclic_example : ¬ Includes raw_scopes (bytes "work") (bytes "shared")
unfolding runs
resolve_into-acyclic_example =
    resolve_into-acyclic raw_scopes 17 (bytes "work")
      (record { patterns = bytes "Work/" ∷ []; references = bytes "shared" ∷ [] }) (bytes "shared")
      [] [] (bytes "Work/" ∷ bytes "Notes/" ∷ []) same refl refl refl

abbrev nested : Dict RawScope
nested =
    (bytes "a", record { patterns = []; references = bytes "b" ∷ [] })
    ∷ (bytes "b", record { patterns = bytes "n/" ∷ []; references = [] })
    ∷ []

abbrev rank : Text → ℕ
rank name = if text_eq (bytes "a") name then 1 else 0

nested-IsRank : IsRank nested rank
unfolding lookup member
nested-IsRank = record {
  defined = λ name reference scope found m. elim (Bool-cases (text_eq (bytes "a") name)) [
    | inl e ↦ (
      record { patterns = bytes "n/" ∷ []; references = [] },
      ground (arith, text_eq_iff (bytes "b") reference, text_eq_iff (bytes "a") reference),
    )
    | inr e ↦ absurd (ground (arith, Bool-cases (text_eq (bytes "b") name)))
  ];
  below = λ name reference scope found m. elim (Bool-cases (text_eq (bytes "a") name)) [
    | inl e ↦ ground (arith, text_eq_iff (bytes "b") reference, text_eq_iff (bytes "a") reference)
    | inr e ↦ absurd (ground (arith, Bool-cases (text_eq (bytes "b") name)))
  ];
}

resolve_scope-total_example : (result : List Text) × (resolve_scope nested (bytes "a") ≡ ok result)
unfolding runs
resolve_scope-total_example =
    resolve_scope-total nested rank (bytes "a")
      (record { patterns = []; references = bytes "b" ∷ [] }) nested-IsRank refl (omega arith)
