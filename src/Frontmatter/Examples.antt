-- ===== src/Frontmatter/Examples.antt =====
-- Runs of src/vault/frontmatter.rs, with a small kind of YAML: the field `t`, `x` or `y`.
use obsidian_mcp_semantic_me.Base.{
  ◌≡◌, refl, inr, none, some, [], ◌∷◌, Text, bytes, text_eq, text_lt, base_runs, if◌then◌else◌,
}
use obsidian_mcp_semantic_me.Error.{ok, string, object, Fields, end, field}
use obsidian_mcp_semantic_me.Frontmatter.{
  Serde, find_close, after_open, extract_raw_frontmatter, get_body, get, set_field, remove_field,
  json_type_name, parse_yaml, parse_frontmatter, strings_of, string_list, extract_string_list,
  extract_frontmatter_tags, serialized, rebuild_content, set_frontmatter_field,
  remove_frontmatter_field, yaml_error, not_mapping,
}
use obsidian_mcp_semantic_me.Frontmatter.Lines.{no_line, add_line}
use obsidian_mcp_semantic_me.Frontmatter.Delimiters.{
  IsExtracted, extract_raw_frontmatter-IsExtracted,
}
use obsidian_mcp_semantic_me.Frontmatter.RoundTrip.{IsPrinted, set_frontmatter_field-parse}

runs : Unit {0}
unfolding base_runs text_lt find_close after_open extract_raw_frontmatter get_body get set_field
    remove_field json_type_name parse_yaml parse_frontmatter strings_of string_list
    extract_string_list serialized rebuild_content set_frontmatter_field remove_frontmatter_field
    yaml_error not_mapping
runs = tt

abbrev t_is : Text → Fields
t_is s = field (bytes "t") (string s) end

abbrev simple : Serde
simple = record {
  from_str = λ s. inr (object (t_is (if text_eq s (bytes "t: x\n") then bytes "x" else bytes "y")));
  to_string = λ v. inr (bytes "t: x\n");
  json_text = λ v. bytes "";
}

abbrev content : Text
content = bytes "---\r\nt: y\n---\nbody\n---\n"

frontmatter_runs :
    (extract_raw_frontmatter content ≡ some (bytes "t: y\n", 14))
    × (get_body content ≡ bytes "body\n---\n")
    × (extract_raw_frontmatter (bytes "---\nt: y\n") ≡ none)
    × (extract_raw_frontmatter (bytes "--- \nt: y\n---\n") ≡ none)
    × (extract_frontmatter_tags simple (object (field (bytes "tags") (string (bytes "a, b,")) end))
        ≡ bytes "a" ∷ bytes "b" ∷ [])
    × (set_frontmatter_field simple content (bytes "t") (string (bytes "x"))
        ≡ ok (bytes "---\nt: x\n---\nbody\n---\n"))
    × (remove_frontmatter_field simple content (bytes "t") ≡ ok (bytes "body\n---\n"))
    × (remove_frontmatter_field simple content (bytes "u") ≡ ok content)
unfolding runs
frontmatter_runs = (refl, refl, refl, refl, refl, refl, refl, refl)

extract_raw_frontmatter-IsExtracted_example : IsExtracted content (extract_raw_frontmatter content)
extract_raw_frontmatter-IsExtracted_example = extract_raw_frontmatter-IsExtracted content

printed : IsPrinted simple (set_field (bytes "t") (string (bytes "x")) (t_is (bytes "y")))
unfolding runs
printed = record {
  yaml = bytes "t: x\n";
  printed = refl;
  fenceless = add_line (bytes "t: x") [] refl refl no_line;
  not_blank = refl;
  read = refl;
}

set_frontmatter_field-parse_example :
    (note : Text) × (set_frontmatter_field simple content (bytes "t") (string (bytes "x"))
      ≡ ok note)
    × (parse_frontmatter simple note
        ≡ ok (some (object (set_field (bytes "t") (string (bytes "x")) (t_is (bytes "y"))))))
    × (get_body note ≡ get_body content)
unfolding runs
set_frontmatter_field-parse_example =
    set_frontmatter_field-parse simple content (bytes "t") (string (bytes "x")) (t_is (bytes "y"))
      refl printed
