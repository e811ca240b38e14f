-- ===== src/Wikilink.antt =====
-- src/vault/wikilink.rs: the resolver of wikilink targets. A vault-relative path is normalised, so
-- that it is its text. The Unicode normal form (the crate unicode-normalization) and the Unicode
-- table of `to_lowercase` are a parameter.
pub mod Abstract
pub mod Refines
pub mod Collision
pub mod Ascii
mod Examples
use obsidian_mcp_semantic_me.Base.{
  ℕ, suc, ◌+◌, Bool, true, false, not, Option, none, some, List, [], ◌∷◌, ◌++◌, map, foldl, Text,
  bytes, text_eq, keep, is_empty, has_byte, strip_suffix, rfind, drop, Dict, lookup, insert, remove,
  or_empty, if◌then◌else◌, ◌==◌,
}

pub record Unicode : Type 0 where
  pub nfc : Text → Text
  pub to_lowercase : Text → Text

-- `replace('\\', "/")`
unfoldable pub forward_slashes : Text → Text
forward_slashes s = map (λ b. if b == b'\\' then b'/' else b) s

-- `Path::file_name`, with `unwrap_or_default`, of a normalised path.
abbrev after_slash : Text → Option ℕ → Text
after_slash path none = path
after_slash path (some i) = drop (suc i) path

unfoldable pub file_name : Text → Text
file_name path = after_slash path (rfind (bytes "/") path)

pub record LinkResolver : Type 0 where
  pub by_stem : Dict (List Text)
  pub by_path : Dict Text

abbrev pub empty_resolver : LinkResolver
empty_resolver = record { by_stem = []; by_path = [] }

abbrev or_text : Option Text → Text → Text
or_text none s = s
or_text (some t) s = t

-- `paths.retain(|p| p != path)`, and the entry goes with its last path
abbrev pub retain_others : Text → List Text → List Text
retain_others path paths = keep (λ q. not (text_eq q path)) paths

abbrev pub drop_empty : Text → List Text → Dict (List Text) → Dict (List Text)
drop_empty stem [] m = remove stem m
drop_empty stem (p ∷ paths) m = insert stem (p ∷ paths) m

-- `match … .as_slice() { [single] => Some(..), _ => None }`
abbrev pub single : List Text → Option Text
single [] = none
single (p ∷ []) = some p
single (p ∷ q ∷ paths) = none

abbrev pub single_of : Option (List Text) → Option Text
single_of none = none
single_of (some paths) = single paths

abbrev pub to_list : Option Text → List Text
to_list none = []
to_list (some p) = p ∷ []

module _ (u : Unicode) where
  open u use {nfc, to_lowercase}

  unfoldable pub lookup_key_without_md : Text → Text
  lookup_key_without_md s =
      let lower = to_lowercase (nfc s) in or_text (strip_suffix (bytes ".md") lower) lower

  unfoldable pub normalize_target : Text → Text
  normalize_target target = lookup_key_without_md (forward_slashes target)

  unfoldable pub path_key : Text → Text
  path_key path = lookup_key_without_md (forward_slashes path)

  unfoldable pub stem_key : Text → Text
  stem_key path = lookup_key_without_md (file_name path)

  -- `LinkResolver::insert`, and so `add_path`
  unfoldable pub add_path : LinkResolver → Text → LinkResolver
  add_path r path = record {
    by_stem =
        insert (stem_key path) (or_empty (lookup (stem_key path) r.by_stem) ++ path ∷ []) r.by_stem;
    by_path = insert (path_key path) path r.by_path;
  }

  unfoldable pub without_stem : Text → Dict (List Text) → Dict (List Text)
  without_stem path m = elim (lookup (stem_key path) m) [
    | none ↦ m
    | some paths ↦ drop_empty (stem_key path) (retain_others path paths) m
  ]

  unfoldable pub remove_path : LinkResolver → Text → LinkResolver
  remove_path r path = record {
    by_stem = without_stem path r.by_stem;
    by_path = remove (path_key path) r.by_path;
  }

  unfoldable pub rename_path : LinkResolver → Text → Text → LinkResolver
  rename_path r old new = add_path (remove_path r old) new

  unfoldable pub build_link_resolver : List Text → LinkResolver
  build_link_resolver note_paths = foldl add_path empty_resolver note_paths

  unfoldable pub resolve : LinkResolver → Text → Option Text
  resolve r target =
      let normalized = normalize_target target in
      if is_empty normalized
      then none
      else if has_byte b'/' normalized
      then lookup normalized r.by_path
      else single_of (lookup normalized r.by_stem)

  unfoldable pub resolve_candidates : LinkResolver → Text → List Text
  resolve_candidates r target =
      let normalized = normalize_target target in
      if is_empty normalized
      then []
      else if has_byte b'/' normalized
      then to_list (lookup normalized r.by_path)
      else or_empty (lookup normalized r.by_stem)

  unfoldable pub is_resolved : LinkResolver → Text → Bool
  is_resolved r target = elim (resolve r target) [ none ↦ false | some p ↦ true ]
