-- ===== src/Exclude/Examples.antt =====
-- Runs of src/vault/exclude.rs with a small kind of globs: a text, or a prefix and `**`.
use obsidian_mcp_semantic_me.Base.{
  ◌≡◌, refl, Bool, true, false, Option, none, some, List, [], ◌∷◌, Text, bytes, text_eq, any,
  has_byte, strip_suffix, starts_with, base_runs, sort_dedup, insert_text, text_lt, if◌then◌else◌,
}
use obsidian_mcp_semantic_me.Error.{ok}
use obsidian_mcp_semantic_me.Exclude.{
  Globset, ExcludeSet, normalized, accept_all, build_set, compile, build, build_strict, is_excluded,
  is_empty_set, ignore_line, filter_lines, parse_ignore_lines, load_ignore_patterns,
}

unfoldable pub runs : Unit {0}
unfolding base_runs sort_dedup insert_text text_lt normalized accept_all build_set compile build
    build_strict is_excluded is_empty_set ignore_line filter_lines parse_ignore_lines
    load_ignore_patterns
runs = tt

abbrev pub simple_match : Text → Text → Bool
simple_match glob path = elim (strip_suffix (bytes "**") glob) [
  | none ↦ text_eq glob path
  | some prefix ↦ starts_with prefix path
]

abbrev pub simple : Globset
simple = record {
  glob_error = λ p. if has_byte b'[' p then some (bytes "unclosed") else none;
  set_error = λ set. none;
  is_match = λ set path. any (λ p. simple_match p path) set;
}

abbrev lines_given : List Text
lines_given = bytes " Notes/ " ∷ bytes "" ∷ bytes "[a" ∷ bytes "b.md" ∷ []

abbrev built : ExcludeSet
built = record {
  set = bytes "Notes/**" ∷ bytes "b.md" ∷ [];
  patterns = bytes "Notes/**" ∷ bytes "b.md" ∷ [];
}

abbrev read : Text → Option Text
read dir =
    if text_eq dir (bytes "h") then some (bytes "# no\n b \na\n\n") else some (bytes "c\r\na")

exclude_runs :
    (build simple lines_given ≡ ok built)
    × (is_excluded simple built (bytes "Notes/a.md") ≡ true)
    × (is_excluded simple built (bytes "a.md") ≡ false)
    × (load_ignore_patterns read (bytes "h") (bytes "d") ≡ bytes "a" ∷ bytes "b" ∷ bytes "c" ∷ [])
unfolding runs
exclude_runs = (refl, refl, refl, refl)

abbrev good_lines : List Text
good_lines = bytes " Notes/ " ∷ bytes "" ∷ bytes "b.md" ∷ []
