-- ===== src/Scope.antt =====
-- src/vault/scope.rs: the named scopes of a vault. A `BTreeMap` is an association list in the
-- order of its keys; a set of paths is a list. The globs are those of src/vault/exclude.rs.
pub mod Reach
pub mod Cycles
pub mod Build
pub mod Blocks
mod Examples
use obsidian_mcp_semantic_me.Base.{
  ℕ, zero, suc, leb, Bool, true, false, ◌||◌, Option, none, some, List, [], ◌∷◌, ◌++◌, map, length,
  keep, Text, bytes, text_eq, trim, is_empty, starts_with, strip_prefix, strip_suffix, lines, join,
  member, Dict, lookup, contains_key, sort_dedup, insert_sorted, if◌then◌else◌,
}
use obsidian_mcp_semantic_me.Error.{VaultError, other, unknown_scope, Result, ok, err, ◌>>=◌}
use obsidian_mcp_semantic_me.Exclude.{Globset, ExcludeSet, build_strict, is_excluded}

abbrev pub all_scope : Text
all_scope = bytes "all"

abbrev pub max_reference_depth : ℕ
max_reference_depth = 16

pub record Scope : Type 0 where
  pub patterns : List Text
  pub globs : ExcludeSet

pub record ScopeSet : Type 0 where
  pub scopes : Dict Scope

pub record RawScope : Type 0 where
  pub patterns : List Text
  pub references : List Text

abbrev em_dash : Text
em_dash = 0xe2 ∷ 0x80 ∷ 0x94 ∷ []

abbrev pub keys {ℓ} : {V : Type ℓ} → Dict V → List Text
keys [] = []
keys ((k, v) ∷ m) = k ∷ keys m

-- The messages.
unfoldable pub empty_name : VaultError
empty_name = other (bytes "scopes file has a block with an empty name: []")

unfoldable pub reserved_name : VaultError
reserved_name = other (
    bytes "scopes file defines '["
    ++ all_scope
    ++ bytes "]', which is reserved: '"
    ++ all_scope
    ++ bytes "' always means every indexed note and cannot be narrowed")

unfoldable pub before_block : Text → VaultError
before_block trimmed = other (
    bytes "scopes file has '"
    ++ trimmed
    ++ bytes "' before any [name] block "
    ++ em_dash
    ++ bytes " every pattern must belong to a scope")

unfoldable pub empty_reference : Text → VaultError
empty_reference name =
    other (bytes "scope '" ++ name ++ bytes "' has a '+' with no scope name after it")

unfoldable pub circular : List Text → VaultError
circular visiting =
    other (bytes "scopes file has a circular include: " ++ join (bytes " -> ") visiting)

unfoldable pub too_deep : Text → VaultError
too_deep name = other (bytes "scope '" ++ name ++ bytes "' nests '+' includes more than 16 deep")

unfoldable pub never_defined : Text → Dict RawScope → VaultError
never_defined name raw = other (
    bytes "scope '"
    ++ name
    ++ bytes "' is included with '+"
    ++ name
    ++ bytes "' but is never defined (defined scopes: "
    ++ join (bytes ", ") (keys raw)
    ++ bytes ")")

unfoldable pub matches_nothing : Text → VaultError
matches_nothing name = other (
    bytes "scope '"
    ++ name
    ++ bytes
        "' matches no paths: it has no patterns of its own and none of the scopes it includes do either")

-- `raw.entry(name).or_default()`
abbrev entry_of : Option RawScope → RawScope
entry_of none = record { patterns = []; references = [] }
entry_of (some scope) = scope

unfoldable pub entry_or_default : Text → Dict RawScope → RawScope
entry_or_default name raw = entry_of (lookup name raw)

-- `strip_prefix('[').and_then(|rest| rest.strip_suffix(']'))`
unfoldable pub header_of : Text → Option Text
header_of trimmed = elim (strip_prefix (bytes "[") trimmed) [
  | none ↦ none
  | some rest ↦ strip_suffix (bytes "]") rest
]

unfoldable pub open_block : Text → Dict RawScope → Result (Dict RawScope × Option Text)
open_block name raw =
    if is_empty name
    then err empty_name
    else if text_eq name all_scope
    then err reserved_name
    else ok (insert_sorted name (entry_or_default name raw) raw, some name)

-- A line `+other` or a pattern, in the block of `name`.
unfoldable pub add_entry : Text → Text → Dict RawScope → Result (Dict RawScope)
add_entry name trimmed raw =
    let entry = entry_or_default name raw in
    elim (strip_prefix (bytes "+") trimmed) [
      | some rest ↦
          if is_empty (trim rest)
          then err (empty_reference name)
          else ok (
              insert_sorted name (record entry { references = entry.references ++ trim rest ∷ [] })
                raw)
      | none ↦
          ok (insert_sorted name (record entry { patterns = entry.patterns ++ trimmed ∷ [] }) raw)
    ]

-- One turn of the loop over the lines, on the blocks so far and the current one.
unfoldable pub scan_scope_line :
    Dict RawScope → Option Text → Text → Result (Dict RawScope × Option Text)
scan_scope_line raw current line =
    let trimmed = trim line in
    if is_empty trimmed || starts_with (bytes "#") trimmed
    then ok (raw, current)
    else elim (header_of trimmed) [
      | some header ↦ open_block (trim header) raw
      | none ↦ elim current [
        | none ↦ err (before_block trimmed)
        | some name ↦ add_entry name trimmed raw >>= λ raw2. ok (raw2, some name)
      ]
    ]

unfoldable pub scan_lines : List Text → Dict RawScope → Option Text → Result (Dict RawScope)
scan_lines [] raw current = ok raw
scan_lines (line ∷ rest) raw current =
    scan_scope_line raw current line >>= λ p. scan_lines rest p.0 p.1

unfoldable pub scan_sources : List Text → Dict RawScope → Result (Dict RawScope)
scan_sources [] raw = ok raw
scan_sources (source ∷ sources) raw = scan_lines (lines source) raw none >>= scan_sources sources

unfoldable pub parse_sources : List Text → Result (Dict RawScope)
parse_sources sources = scan_sources sources []

-- The loop over the references of a scope, for a call `step` on one of them.
unfoldable pub resolve_each :
    (Text → List Text → Result (List Text)) → List Text → List Text → Result (List Text)
resolve_each step [] out = ok out
resolve_each step (reference ∷ references) out = step reference out >>= resolve_each step references

-- `out` is an accumulator; a call that succeeds leaves `visiting` as it was, so it is an argument.
-- The fuel is not what ends the recursion: the depth is.
unfoldable pub resolve_into : ℕ → Dict RawScope → List Text → Text → List Text → Result (List Text)
resolve_into zero raw visiting name out = err (too_deep name)
resolve_into (suc fuel) raw visiting name out =
    if member name visiting
    then err (circular (visiting ++ name ∷ []))
    else if leb max_reference_depth (length visiting)
    then err (too_deep name)
    else elim (lookup name raw) [
      | none ↦ err (never_defined name raw)
      | some scope ↦
          resolve_each (resolve_into fuel raw (visiting ++ name ∷ [])) scope.references
            (out ++ scope.patterns)
    ]

-- The call in `build`.
abbrev pub resolve_scope : Dict RawScope → Text → Result (List Text)
resolve_scope raw name = resolve_into (suc max_reference_depth) raw [] name []

module _ (g : Globset) where
  unfoldable pub compile_scope : Text → List Text → Result Scope
  compile_scope name written = elim written [
    | [] ↦ err (matches_nothing name)
    | p ∷ ps ↦ build_strict g (p ∷ ps) >>= λ globs.
        ok (record { patterns = sort_dedup globs.patterns; globs = globs })
  ]

  -- The loop over the names.
  unfoldable pub build_from : Dict RawScope → List Text → Dict Scope → Result (Dict Scope)
  build_from raw [] scopes = ok scopes
  build_from raw (name ∷ names) scopes =
      (resolve_scope raw name >>= compile_scope name) >>= λ scope.
      build_from raw names (insert_sorted name scope scopes)

  -- `ScopeSet::build`
  unfoldable pub build_scopes : List Text → Result ScopeSet
  build_scopes sources = parse_sources sources >>= λ raw.
      build_from raw (keys raw) [] >>= λ scopes. ok (record { scopes = scopes })

  unfoldable pub contains : ScopeSet → Text → Text → Bool
  contains set name path = if text_eq name all_scope then true else elim (lookup name set.scopes) [
    | none ↦ false
    | some scope ↦ is_excluded g scope.globs path
  ]

abbrev pub names : ScopeSet → List Text
names set = keys set.scopes

unfoldable pub is_known : ScopeSet → Text → Bool
is_known set name = text_eq name all_scope || contains_key name set.scopes

unfoldable pub patterns : ScopeSet → Text → Option (List Text)
patterns set name = elim (lookup name set.scopes) [ none ↦ none | some scope ↦ some scope.patterns ]

unfoldable pub require : ScopeSet → Text → Result (Unit {0})
require set name =
    if is_known set name
    then ok tt
    else err (unknown_scope name (join (bytes ", ") (all_scope ∷ names set)))

unfoldable pub narrow : Globset → ScopeSet → Text → List Text → Result (List Text)
narrow g set name paths = require set name >>= λ _.
    ok (if text_eq name all_scope then paths else keep (contains g set name) paths)

abbrev one_or_none : Option Text → List Text
one_or_none none = []
one_or_none (some content) = content ∷ []

-- `read` gives the file `scopes` of a directory, if it can be read.
unfoldable pub load_scope_sources : (Text → Option Text) → Text → Text → List Text
load_scope_sources read mcp_home mcp_data =
    one_or_none (read mcp_home)
    ++ (if text_eq mcp_data mcp_home then [] else one_or_none (read mcp_data))
