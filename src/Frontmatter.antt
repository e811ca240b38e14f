-- ===== src/Frontmatter.antt =====
-- src/vault/frontmatter.rs: the frontmatter of a note. The crates serde_yaml and serde_json are a
-- parameter; a JSON object is the list of its fields in the order of their names.
pub mod Lines
pub mod Delimiters
pub mod RoundTrip
mod Examples
use obsidian_mcp_semantic_me.Base.{
  ℕ, zero, suc, ◌+◌, Bool, true, false, not, Option, none, some, List, [], ◌∷◌, ◌++◌, ◌⊎◌, inl, inr,
  length, take, drop, keep, map, slice, Text, bytes, text_eq, text_lt, starts_with, find, trim,
  trim_end_matches, is_empty, split, if◌then◌else◌,
}
use obsidian_mcp_semantic_me.Error.{
  VaultError, other, Result, ok, err, ◌>>=◌, Json, null, bool, number, string, array, object, Items,
  nil, cons, Fields, end, field,
}

-- `serde_yaml::from_str` and `to_string`, with the text of an error, and `Value::to_string`.
pub record Serde : Type 0 where
  pub from_str : Text → Text ⊎ Json
  pub to_string : Json → Text ⊎ Text
  pub json_text : Json → Text

abbrev pub fence : Text
fence = bytes "---"

abbrev pub is_fence : Text → Bool
is_fence line = text_eq (trim_end_matches b'\r' line) fence

-- The loop over the lines of `rest` from `pos` on, where it stands at `remaining`: where the
-- closing fence starts and where the line after it does.
unfoldable pub find_close : ℕ → Text → ℕ → Option (ℕ × ℕ)
find_close zero remaining pos = none
find_close (suc fuel) remaining pos = elim (find (bytes "\n") remaining) [
  | none ↦ if is_fence remaining then some (pos, pos + length remaining) else none
  | some line_end ↦
      let later = find_close fuel (drop (suc line_end) remaining) (pos + suc line_end) in
      if is_fence (take line_end remaining) then some (pos, pos + suc line_end) else later
]

unfoldable pub after_open : Text → Option ℕ
after_open content =
    if starts_with (bytes "---\n") content
    then some 4
    else if starts_with (bytes "---\r\n") content
    then some 5
    else none

abbrev pub found_at : Text → ℕ → Option (ℕ × ℕ) → Option (Text × ℕ)
found_at content start none = none
found_at content start (some (pos, next)) = some (slice content start (start + pos), start + next)

unfoldable pub extract_raw_frontmatter : Text → Option (Text × ℕ)
extract_raw_frontmatter content = elim (after_open content) [
  | none ↦ none
  | some start ↦
      let rest = drop start content in
      found_at content start (find_close (suc (length rest)) rest 0)
]

unfoldable pub get_body : Text → Text
get_body content = elim (extract_raw_frontmatter content) [
  | none ↦ content
  | some (yaml, body_start) ↦ drop body_start content
]

-- `serde_json::Map`
unfoldable pub get : Text → Fields → Option Json
get key end = none
get key (field k v rest) = if text_eq k key then some v else get key rest

unfoldable pub set_field : Text → Json → Fields → Fields
set_field key value end = field key value end
set_field key value (field k v rest) =
    if text_eq k key
    then field k value rest
    else if text_lt key k
    then field key value (field k v rest)
    else field k v (set_field key value rest)

unfoldable pub remove_field : Text → Fields → Fields
remove_field key end = end
remove_field key (field k v rest) =
    if text_eq k key then remove_field key rest else field k v (remove_field key rest)

abbrev pub is_end : Fields → Bool
is_end end = true
is_end (field k v rest) = false

unfoldable pub json_type_name : Json → Text
json_type_name null = bytes "null"
json_type_name (bool b) = bytes "boolean"
json_type_name (number n) = bytes "number"
json_type_name (string s) = bytes "string"
json_type_name (array items) = bytes "array"
json_type_name (object fields) = bytes "object"

-- A value that is not a mapping counts as an empty one; a later branch of the source that would
-- refuse it is never reached.
abbrev pub mapping_of : Json → Json
mapping_of (object fields) = object fields
mapping_of null = object end
mapping_of (bool b) = object end
mapping_of (number n) = object end
mapping_of (string s) = object end
mapping_of (array items) = object end

unfoldable pub yaml_error : Text → VaultError
yaml_error e = other (bytes "Frontmatter YAML parse error: " ++ e)

unfoldable pub not_mapping : VaultError
not_mapping = other (bytes "Frontmatter is not a YAML mapping")

abbrev pub as_object : Json → Result Fields
as_object (object fields) = ok fields
as_object null = err not_mapping
as_object (bool b) = err not_mapping
as_object (number n) = err not_mapping
as_object (string s) = err not_mapping
as_object (array items) = err not_mapping

module _ (serde : Serde) where
  unfoldable pub parse_yaml : Text → Result (Option Json)
  parse_yaml yaml =
      if is_empty (trim yaml) then ok (some (object end)) else elim (serde.from_str yaml) [
        | inl e ↦ err (yaml_error e)
        | inr value ↦ ok (some (mapping_of value))
      ]

  unfoldable pub parse_frontmatter : Text → Result (Option Json)
  parse_frontmatter content = elim (extract_raw_frontmatter content) [
    | none ↦ ok none
    | some (yaml, body_start) ↦ parse_yaml yaml
  ]

  -- The items of an array that are not null.
  unfoldable pub strings_of : Items → List Text
  strings_of nil = []
  strings_of (cons (string s) items) = s ∷ strings_of items
  strings_of (cons null items) = strings_of items
  strings_of (cons (bool b) items) = serde.json_text (bool b) ∷ strings_of items
  strings_of (cons (number n) items) = serde.json_text (number n) ∷ strings_of items
  strings_of (cons (array xs) items) = serde.json_text (array xs) ∷ strings_of items
  strings_of (cons (object fields) items) = serde.json_text (object fields) ∷ strings_of items

  unfoldable pub string_list : Json → List Text
  string_list (array items) = strings_of items
  string_list (string s) = keep (λ part. not (is_empty part)) (map trim (split (bytes ",") s))
  string_list null = []
  string_list (bool b) = []
  string_list (number n) = []
  string_list (object fields) = []

  -- `frontmatter.get(key)`, on a value that is not an object too
  unfoldable pub extract_string_list : Json → Text → List Text
  extract_string_list (object fields) key = elim (get key fields) [
    | none ↦ []
    | some v ↦ string_list v
  ]
  extract_string_list null key = []
  extract_string_list (bool b) key = []
  extract_string_list (number n) key = []
  extract_string_list (string s) key = []
  extract_string_list (array items) key = []

  abbrev pub extract_frontmatter_tags : Json → List Text
  extract_frontmatter_tags frontmatter = extract_string_list frontmatter (bytes "tags")

  abbrev pub extract_aliases : Json → List Text
  extract_aliases frontmatter = extract_string_list frontmatter (bytes "aliases")

  unfoldable pub serialized : Fields → Text → Text
  serialized fields body = elim (serde.to_string (object fields)) [
    | inl e ↦ body
    | inr yaml ↦ bytes "---\n" ++ yaml ++ bytes "---\n" ++ body
  ]

  -- `rebuild_content(Some(..), body)`, of an object
  unfoldable pub rebuild_content : Fields → Text → Text
  rebuild_content fields body = if is_end fields then body else serialized fields body

  abbrev pub fields_or_empty : Option Json → Result Fields
  fields_or_empty none = ok end
  fields_or_empty (some fm) = as_object fm

  unfoldable pub set_frontmatter_field : Text → Text → Json → Result Text
  set_frontmatter_field content key value =
      parse_frontmatter content >>= fields_or_empty >>= λ fields.
      ok (rebuild_content (set_field key value fields) (get_body content))

  abbrev pub without_field : Text → Text → Fields → Text
  without_field content key fields = elim (get key fields) [
    | none ↦ content
    | some v ↦ rebuild_content (remove_field key fields) (get_body content)
  ]

  abbrev pub remove_from : Text → Text → Option Json → Result Text
  remove_from content key none = ok content
  remove_from content key (some fm) =
      as_object fm >>= λ fields. ok (without_field content key fields)

  unfoldable pub remove_frontmatter_field : Text → Text → Result Text
  remove_frontmatter_field content key = parse_frontmatter content >>= remove_from content key
