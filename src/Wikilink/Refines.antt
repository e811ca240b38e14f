-- ===== src/Wikilink/Refines.antt =====
-- src/vault/wikilink.rs: the two tables implement the abstract resolver.
use obsidian_mcp_semantic_me.Base.{
  ◌≡◌, refl, ap, ◌∙◌, sym, inl, inr, Option, none, some, List, [], ◌∷◌, ◌++◌, arith, foldl,
  append-nil, append_assoc, Text, text_eq, text_eq_iff, keep, lookup, lookup-insert, lookup-remove,
  or_empty, if◌then◌else◌, Bool-cases, Option-cases,
}
use obsidian_mcp_semantic_me.Wikilink.{
  Unicode, LinkResolver, empty_resolver, normalize_target, path_key, stem_key, single, single_of,
  to_list, add_path, drop_empty, without_stem, remove_path, rename_path, build_link_resolver,
  resolve, resolve_candidates,
}
use obsidian_mcp_semantic_me.Wikilink.Abstract.{
  last_with, has_stem, has_path, resolve_in, candidates_in, Represents, others, keep-concat,
  last_with-concat, keep-others, keep-others_ne, last_with-others,
}

single_of-or_empty : (o : Option (List Text)) → single_of o ≡ single (or_empty o)
single_of-or_empty none = refl
single_of-or_empty (some paths) = refl

module _ (u : Unicode) where
  -- No other path of the list has the key of `path`.
  abbrev pub HasNoTwin : Text → List Text → Type 0
  HasNoTwin path paths = last_with (has_path u (path_key u path)) (others path paths) ≡ none

  pub empty_resolver-Represents : Represents u empty_resolver []
  unfolding lookup
  empty_resolver-Represents = record { stems = λ k. refl; full = λ k. refl }

  pub add_path-Represents :
      (r : LinkResolver) (paths : List Text) (path : Text)
      → Represents u r paths
      → Represents u (add_path u r path) (paths ++ path ∷ [])
  unfolding add_path
  add_path-Represents r paths path h = record {
    stems = λ k. ground (
      arith,
      lookup-insert (stem_key u path) k (or_empty (lookup (stem_key u path) r.by_stem) ++ path ∷ [])
          r.by_stem,
      h.stems k,
      h.stems (stem_key u path),
      keep-concat (has_stem u k) paths path,
      text_eq_iff (stem_key u path) k,
      append-nil (keep (has_stem u k) paths),
    );
    full = λ k. ground (
      arith,
      lookup-insert (path_key u path) k path r.by_path,
      h.full k,
      last_with-concat (has_path u k) paths path,
    );
  }

  or_empty-drop_empty :
      (stem k : Text) (rest : List Text) (m : List (Text × List Text))
      → or_empty (lookup k (drop_empty stem rest m))
        ≡ (if text_eq stem k then rest else or_empty (lookup k m))
  or_empty-drop_empty stem k [] m = ground (arith, lookup-remove stem k m)
  or_empty-drop_empty stem k (p ∷ rest) m = ground (arith, lookup-insert stem k (p ∷ rest) m)

  or_empty-without_stem :
      (path k : Text) (m : List (Text × List Text))
      → or_empty (lookup k (without_stem u path m)) ≡ (
          if text_eq (stem_key u path) k
          then others path (or_empty (lookup (stem_key u path) m))
          else or_empty (lookup k m))
  unfolding without_stem
  or_empty-without_stem path k m = elim (Option-cases (lookup (stem_key u path) m)) [
    | inl e ↦ rw (e, without_stem) (ground (arith, text_eq_iff (stem_key u path) k))
    | inr (paths, e) ↦
        rw (e, without_stem) (or_empty-drop_empty (stem_key u path) k (others path paths) m)
  ]

  pub remove_path-Represents :
      (r : LinkResolver) (paths : List Text) (path : Text)
      → HasNoTwin path paths
      → Represents u r paths
      → Represents u (remove_path u r path) (others path paths)
  unfolding remove_path
  remove_path-Represents r paths path alone h = record {
    stems = λ k. elim (Bool-cases (text_eq (stem_key u path) k)) [
      | inl e ↦
          let same : stem_key u path ≡ k = (text_eq_iff (stem_key u path) k).0 e in
          ground (
            arith,
            or_empty-without_stem path k r.by_stem,
            ap (others path) (h.stems (stem_key u path)),
            keep-others (has_stem u k) path paths,
          )
      | inr e ↦ ground (
        arith,
        or_empty-without_stem path k r.by_stem,
        h.stems k,
        keep-others (has_stem u k) path paths,
        keep-others_ne (has_stem u k) path paths e,
      )
    ];
    full = λ k. elim (Bool-cases (text_eq (path_key u path) k)) [
      | inl e ↦
          let same : path_key u path ≡ k = (text_eq_iff (path_key u path) k).0 e in
          rw (lookup-remove (path_key u path) k r.by_path, e) (sym (rw same at alone))
      | inr e ↦
          rw (lookup-remove (path_key u path) k r.by_path, e)
            (h.full k ∙ sym (last_with-others (has_path u k) path paths e))
    ];
  }

  pub rename_path-Represents :
      (r : LinkResolver) (paths : List Text) (old new : Text)
      → HasNoTwin old paths
      → Represents u r paths
      → Represents u (rename_path u r old new) (others old paths ++ new ∷ [])
  unfolding rename_path
  rename_path-Represents r paths old new alone h =
      add_path-Represents (remove_path u r old) (others old paths) new
        (remove_path-Represents r paths old alone h)

  build_from :
      (r : LinkResolver) (before paths : List Text)
      → Represents u r before
      → Represents u (foldl (add_path u) r paths) (before ++ paths)
  build_from r before [] h = rw (append-nil before) h
  build_from r before (p ∷ paths) h =
      rw (← append_assoc before (p ∷ []) paths)
        (build_from (add_path u r p) (before ++ p ∷ []) paths (add_path-Represents r before p h))

  pub build_link_resolver-Represents :
      (paths : List Text) → Represents u (build_link_resolver u paths) paths
  unfolding build_link_resolver
  build_link_resolver-Represents paths =
      build_from empty_resolver [] paths empty_resolver-Represents

  -- On every target, a resolver whose tables hold the paths answers as the abstract one.
  pub resolve-Represents :
      (r : LinkResolver) (paths : List Text) (target : Text)
      → Represents u r paths
      → resolve u r target ≡ resolve_in u paths target
  unfolding resolve resolve_in
  resolve-Represents r paths target h =
      let key = normalize_target u target in
      ground (arith, h.full key, single_of-or_empty (lookup key r.by_stem), ap single (h.stems key))

  pub resolve_candidates-Represents :
      (r : LinkResolver) (paths : List Text) (target : Text)
      → Represents u r paths
      → resolve_candidates u r target ≡ candidates_in u paths target
  unfolding resolve_candidates candidates_in
  resolve_candidates-Represents r paths target h =
      let key = normalize_target u target in ground (arith, ap to_list (h.full key), h.stems key)

-- The resolver that is built from a list of paths answers every target, with one path or with the
-- candidates, as the description over that list says: by the whole key where it has a slash, and
-- else by the key of the file name, if only one path has it.
pub build_link_resolver-resolve :
    (u : Unicode) (paths : List Text) (target : Text)
    → (resolve u (build_link_resolver u paths) target ≡ resolve_in u paths target)
      × (resolve_candidates u (build_link_resolver u paths) target ≡ candidates_in u paths target)
build_link_resolver-resolve u paths target = (
  resolve-Represents u _ paths target (build_link_resolver-Represents u paths),
  resolve_candidates-Represents u _ paths target (build_link_resolver-Represents u paths),
)

-- Where no other path has the key of `old`, a resolver whose tables hold `paths` answers after the
-- rename as one for the other paths with the new one behind them.
pub rename_path-resolve :
    (u : Unicode) (r : LinkResolver) (paths : List Text) (old new target : Text)
    → Represents u r paths
    → HasNoTwin u old paths
    → resolve u (rename_path u r old new) target
      ≡ resolve_in u (others old paths ++ new ∷ []) target
rename_path-resolve u r paths old new target h alone =
    resolve-Represents u _ _ target (rename_path-Represents u r paths old new alone h)

-- Where no other path has the key of `path`, a resolver whose tables hold `paths` answers after the
-- removal as one for the other paths.
pub remove_path-resolve :
    (u : Unicode) (r : LinkResolver) (paths : List Text) (path target : Text)
    → Represents u r paths
    → HasNoTwin u path paths
    → resolve u (remove_path u r path) target ≡ resolve_in u (others path paths) target
remove_path-resolve u r paths path target h alone =
    resolve-Represents u _ _ target (remove_path-Represents u r paths path alone h)
