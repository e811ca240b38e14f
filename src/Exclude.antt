-- ===== src/Exclude.antt =====
-- src/vault/exclude.rs: the glob patterns that leave paths out of the index. The crate globset is
-- a parameter, and so is the reading of a file; a compiled set is the list of its globs.
pub mod Patterns
pub mod Examples
use obsidian_mcp_semantic_me.Base.{
  Bool, true, false, Option, none, some, List, [], ◌∷◌, ◌++◌, map, Text, bytes, text_eq, trim,
  trim_start, is_empty, starts_with, strip_suffix, lines, sort_dedup, if◌then◌else◌,
}
use obsidian_mcp_semantic_me.Error.{VaultError, other, Result, ok, err, ◌>>=◌}

-- What `Glob::new` and `GlobSetBuilder::build` refuse, with the message, and what a set matches.
pub record Globset : Type 0 where
  pub glob_error : Text → Option Text
  pub set_error : List Text → Option Text
  pub is_match : List Text → Text → Bool

pub record ExcludeSet : Type 0 where
  pub set : List Text
  pub patterns : List Text

abbrev no_patterns : List Text → Bool
no_patterns [] = true
no_patterns (p ∷ ps) = false

-- `ExcludeSet::is_empty`
unfoldable pub is_empty_set : ExcludeSet → Bool
is_empty_set set = no_patterns set.patterns

abbrev slash_or_same : Text → Option Text → Text
slash_or_same trimmed none = trimmed
slash_or_same trimmed (some prefix) = prefix ++ bytes "/**"

-- The pattern that is compiled for a line; none for a blank one.
unfoldable pub normalized : Text → Option Text
normalized raw =
    let trimmed = trim raw in
    if is_empty trimmed
    then none
    else some (slash_or_same trimmed (strip_suffix (bytes "/") trimmed))

unfoldable pub invalid_glob : Text → Text → VaultError
invalid_glob raw e = other (bytes "invalid glob pattern '" ++ trim raw ++ bytes "': " ++ e)

unfoldable pub set_compile : Text → VaultError
set_compile e = other (bytes "glob set compile: " ++ e)

module _ (g : Globset) where
  -- The loop of `compile`, on the patterns accepted so far.
  unfoldable pub accept_all : Bool → List Text → List Text → Result (List Text)
  accept_all strict [] accepted = ok accepted
  accept_all strict (raw ∷ patterns) accepted = elim (normalized raw) [
    | none ↦ accept_all strict patterns accepted
    | some pattern ↦ elim (g.glob_error pattern) [
      | none ↦ accept_all strict patterns (accepted ++ pattern ∷ [])
      | some e ↦ elim strict [
        | true ↦ err (invalid_glob raw e)
        | false ↦ accept_all strict patterns accepted
      ]
    ]
  ]

  unfoldable pub build_set : List Text → Result ExcludeSet
  build_set accepted = elim (g.set_error accepted) [
    | some e ↦ err (set_compile e)
    | none ↦ ok (record { set = accepted; patterns = accepted })
  ]

  unfoldable pub compile : List Text → Bool → Result ExcludeSet
  compile patterns strict = accept_all strict patterns [] >>= build_set

  unfoldable pub build : List Text → Result ExcludeSet
  build patterns = compile patterns false

  unfoldable pub build_strict : List Text → Result ExcludeSet
  build_strict patterns = compile patterns true

  unfoldable pub is_excluded : ExcludeSet → Text → Bool
  is_excluded set path = if is_empty_set set then false else g.is_match set.set path

-- A line of an ignore file: the pattern it holds, if it holds one.
unfoldable pub ignore_line : Text → Option Text
ignore_line line =
    if starts_with (bytes "#") (trim_start line)
    then none
    else if is_empty (trim line)
    then none
    else some (trim line)

unfoldable pub filter_lines : List Text → List Text
filter_lines [] = []
filter_lines (line ∷ rest) = elim (ignore_line line) [
  | none ↦ filter_lines rest
  | some pattern ↦ pattern ∷ filter_lines rest
]

unfoldable pub parse_ignore_lines : Text → List Text
parse_ignore_lines content = filter_lines (lines content)

abbrev pub patterns_of : Option Text → List Text
patterns_of none = []
patterns_of (some content) = parse_ignore_lines content

-- `read` gives the file `ignore` of a directory, if it can be read.
unfoldable pub load_ignore_patterns : (Text → Option Text) → Text → Text → List Text
load_ignore_patterns read mcp_home mcp_data = sort_dedup (
    patterns_of (read mcp_home)
    ++ (if text_eq mcp_data mcp_home then [] else patterns_of (read mcp_data)))
