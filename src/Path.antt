-- ===== src/Path.antt =====
-- src/vault/path.rs: vault-relative paths. A path is the list of its components, as
-- `Path::components` of the standard library gives them.
pub mod Depth
pub mod Normal
mod Examples
use obsidian_mcp_semantic_me.Base.{
  ℕ, suc, ◌+◌, Bool, true, false, Option, none, some, List, [], ◌∷◌, ◌++◌, map, reverse, Text,
  bytes, text_eq, join, if◌then◌else◌, ◌==◌,
}
use obsidian_mcp_semantic_me.Error.{VaultError, outside_vault, invalid_path, Result, ok, err, ◌>>=◌}

pub data Component : Type 0 where
  normal : Text → Component
  cur_dir parent_dir root_dir : Component
  prefix : Text → Component

-- `PathBuf::pop` of a list of names: none if there is none.
unfoldable pub pop : List Text → Option (List Text)
pop [] = none
pop (c ∷ []) = some []
pop (c ∷ d ∷ names) = elim (pop (d ∷ names)) [ none ↦ none | some rest ↦ some (c ∷ rest) ]

abbrev pub absolute_path : Text → VaultError
absolute_path shown = invalid_path (bytes "absolute paths not allowed: " ++ shown)

-- The loop over the components, on the names so far; `shown` is the text of the whole path.
unfoldable pub normalize_from : Text → List Component → List Text → Result (List Text)
normalize_from shown [] names = ok names
normalize_from shown (normal c ∷ path) names = normalize_from shown path (names ++ c ∷ [])
normalize_from shown (cur_dir ∷ path) names = normalize_from shown path names
normalize_from shown (parent_dir ∷ path) names = elim (pop names) [
  | none ↦ err (outside_vault shown)
  | some rest ↦ normalize_from shown path rest
]
normalize_from shown (root_dir ∷ path) names = err (absolute_path shown)
normalize_from shown (prefix p ∷ path) names = err (absolute_path shown)

-- `forward_slash_path`, of the path with these names
unfoldable pub forward_slash_path : List Text → Text
forward_slash_path names = map (λ b. if b == b'\\' then b'/' else b) (join (bytes "/") names)

unfoldable pub normalize_relative : Text → List Component → Result Text
normalize_relative shown path =
    normalize_from shown path [] >>= λ names. ok (forward_slash_path names)

-- `strip_prefix` of a path.
unfoldable pub strip_root : List Component → List Component → Option (List Component)
strip_root [] path = some path
strip_root (r ∷ root) [] = none
strip_root (r ∷ root) (c ∷ path) = if same_component r c then strip_root root path else none
  where
    same_component : Component → Component → Bool
    same_component (normal a) (normal b) = text_eq a b
    same_component cur_dir cur_dir = true
    same_component parent_dir parent_dir = true
    same_component root_dir root_dir = true
    same_component (prefix a) (prefix b) = text_eq a b
    same_component _ _ = false

-- `shown` is the text of the rest of the path, `full` that of the whole.
unfoldable pub relative_from_absolute : Text → Text → List Component → List Component → Result Text
relative_from_absolute full shown root path = elim (strip_root root path) [
  | none ↦ err (outside_vault full)
  | some rest ↦ normalize_relative shown rest
]
