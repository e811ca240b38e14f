-- ===== src/Wikilink/Abstract.antt =====
-- What the resolver promises, stated over the list of the note paths alone.
use obsidian_mcp_semantic_me.Base.{
  ◌≡◌, refl, Bool, false, not, Option, none, some, List, [], ◌∷◌, ◌++◌, arith, Text, text_eq,
  text_eq_iff, keep, is_empty, has_byte, lookup, or_empty, if◌then◌else◌,
}
use obsidian_mcp_semantic_me.Wikilink.{
  Unicode, LinkResolver, normalize_target, path_key, stem_key, single, to_list,
}

-- The last of the paths that passes the test.
abbrev pub last_with : (Text → Bool) → List Text → Option Text
last_with p [] = none
last_with p (x ∷ xs) = elim (last_with p xs) [
  | some y ↦ some y
  | none ↦ if p x then some x else none
]

module _ (u : Unicode) where
  abbrev pub has_stem : Text → Text → Bool
  has_stem key path = text_eq (stem_key u path) key

  abbrev pub has_path : Text → Text → Bool
  has_path key path = text_eq (path_key u path) key

  -- A target with a slash names the path with its key, the last one if several have it; a target
  -- without one names the only path whose file name has its key.
  unfoldable pub resolve_in : List Text → Text → Option Text
  resolve_in paths target =
      let key = normalize_target u target in
      if is_empty key
      then none
      else if has_byte b'/' key
      then last_with (has_path key) paths
      else single (keep (has_stem key) paths)

  unfoldable pub candidates_in : List Text → Text → List Text
  candidates_in paths target =
      let key = normalize_target u target in
      if is_empty key
      then []
      else if has_byte b'/' key
      then to_list (last_with (has_path key) paths)
      else keep (has_stem key) paths

  -- The tables hold these paths.
  pub record Represents (r : LinkResolver) (paths : List Text) : Type 0 where
    pub stems : (k : Text) → or_empty (lookup k r.by_stem) ≡ keep (has_stem k) paths
    pub full : (k : Text) → lookup k r.by_path ≡ last_with (has_path k) paths

-- The paths other than this one.
abbrev pub others : Text → List Text → List Text
others path paths = keep (λ q. not (text_eq q path)) paths

module _ (p : Text → Bool) where
  pub keep-concat :
      (xs : List Text) (x : Text)
      → keep p (xs ++ x ∷ []) ≡ keep p xs ++ (if p x then x ∷ [] else [])
  keep-concat [] x = ground arith
  keep-concat (y ∷ xs) x = ground (arith, keep-concat xs x)

  pub last_with-concat :
      (xs : List Text) (x : Text)
      → last_with p (xs ++ x ∷ []) ≡ (if p x then some x else last_with p xs)
  last_with-concat [] x = ground arith
  last_with-concat (y ∷ xs) x = ground (arith, last_with-concat xs x)

  pub keep-others :
      (path : Text) (xs : List Text) → keep p (others path xs) ≡ others path (keep p xs)
  keep-others path [] = refl
  keep-others path (y ∷ xs) = ground (arith, keep-others path xs)

  pub keep-others_ne :
      (path : Text) (xs : List Text) → p path ≡ false → others path (keep p xs) ≡ keep p xs
  keep-others_ne path [] h = refl
  keep-others_ne path (y ∷ xs) h = ground (arith, keep-others_ne path xs h, text_eq_iff y path)

  -- Removing a path that fails the test changes nothing that the test finds.
  pub last_with-others :
      (path : Text) (xs : List Text)
      → p path ≡ false
      → last_with p (others path xs) ≡ last_with p xs
  last_with-others path [] h = refl
  last_with-others path (y ∷ xs) h = ground (arith, last_with-others path xs h, text_eq_iff y path)
