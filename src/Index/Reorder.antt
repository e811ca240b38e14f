-- ===== src/Index/Reorder.antt =====
-- src/vault/wikilink.rs: `remove_path` and then `add_path` of one path move it to the end of the
-- tables, and no target resolves to another path. `reindex_file` relies on this.
use obsidian_mcp_semantic_me.Base.{
  ◌≡◌, ◌≢◌, refl, ap, ◌∙◌, sym, ◌⊎◌, inl, inr, Bool, true, none, some, List, [], ◌∷◌, ◌++◌, arith,
  Text, text_eq, text_eq_iff, keep, Bool-cases, append-nil,
}
use obsidian_mcp_semantic_me.Wikilink.{
  Unicode, LinkResolver, path_key, stem_key, single, add_path, remove_path, resolve,
  normalize_target,
}
use obsidian_mcp_semantic_me.Wikilink.Abstract.{
  last_with, has_stem, has_path, resolve_in, Represents, others, keep-concat, last_with-concat,
  keep-others, keep-others_ne, last_with-others,
}
use obsidian_mcp_semantic_me.Wikilink.Refines.{
  HasNoTwin, add_path-Represents, remove_path-Represents, resolve-Represents,
}

abbrev pub OccursOnce : Text → List Text → Type 0
OccursOnce p [] = ⊥
OccursOnce p (q ∷ xs) = ((q ≡ p) × (others p xs ≡ xs)) ⊎ ((q ≢ p) × OccursOnce p xs)

single-concat : (q p : Text) (xs : List Text) → single (q ∷ (xs ++ p ∷ [])) ≡ none
single-concat q p [] = refl
single-concat q p (x ∷ xs) = refl

single-move :
    (p : Text) (xs : List Text) → OccursOnce p xs → single (others p xs ++ p ∷ []) ≡ single xs
single-move p [] h = absurd h
single-move p (q ∷ []) (inl (e, gone)) = ground (arith, text_eq_iff q p)
single-move p (q ∷ x ∷ xs) (inl (e, gone)) =
    ground (arith, text_eq_iff q p, gone, single-concat x p xs)
single-move p (q ∷ []) (inr (ne, h)) = absurd h
single-move p (q ∷ x ∷ xs) (inr (ne, h)) =
    ground (arith, text_eq_iff q p, single-concat q p (others p (x ∷ xs)))

module _ (f : Text → Bool) where
  keep-OccursOnce :
      (p : Text) (xs : List Text) → f p ≡ true → OccursOnce p xs → OccursOnce p (keep f xs)
  keep-OccursOnce p [] good h = absurd h
  keep-OccursOnce p (q ∷ xs) good (inl (e, gone)) =
      let same : f q ≡ true = ap f e ∙ good in
      rw same (inl (e, sym (keep-others f p xs) ∙ ap (keep f) gone))
  keep-OccursOnce p (q ∷ xs) good (inr (ne, h)) = elim (Bool-cases (f q)) [
    | inl e ↦ rw e (inr (ne, keep-OccursOnce p xs good h))
    | inr e ↦ rw e (keep-OccursOnce p xs good h)
  ]

  last_with-OccursOnce :
      (p : Text) (xs : List Text)
      → f p ≡ true
      → OccursOnce p xs
      → last_with f (others p xs) ≡ none
      → last_with f xs ≡ some p
  last_with-OccursOnce p [] good h alone = absurd h
  last_with-OccursOnce p (q ∷ xs) good (inl (e, gone)) alone =
      let same : f q ≡ true = ap f e ∙ good in
      ground (arith, text_eq_iff q p, ap (last_with f) gone)
  last_with-OccursOnce p (q ∷ xs) good (inr (ne, h)) alone =
      ground (arith, text_eq_iff q p, last_with-OccursOnce p xs good h)

module _ (u : Unicode) where
  resolve_in-move :
      (paths : List Text) (p target : Text)
      → OccursOnce p paths
      → HasNoTwin u p paths
      → resolve_in u (others p paths ++ p ∷ []) target ≡ resolve_in u paths target
  unfolding resolve_in
  resolve_in-move paths p target once alone =
      let key = normalize_target u target in ground (arith, full key, stem key)
    where
      full :
          (k : Text)
          → last_with (has_path u k) (others p paths ++ p ∷ []) ≡ last_with (has_path u k) paths
      full k = elim (Bool-cases (text_eq (path_key u p) k)) [
        | inl e ↦
            let same : path_key u p ≡ k = (text_eq_iff (path_key u p) k).0 e in
            ground (
              arith,
              last_with-concat (has_path u k) (others p paths) p,
              last_with-OccursOnce (has_path u k) p paths e once (rw (← same) alone),
            )
        | inr e ↦ ground (
          arith,
          last_with-concat (has_path u k) (others p paths) p,
          last_with-others (has_path u k) p paths e,
        )
      ]

      stem :
          (k : Text)
          → single (keep (has_stem u k) (others p paths ++ p ∷ []))
            ≡ single (keep (has_stem u k) paths)
      stem k = elim (Bool-cases (text_eq (stem_key u p) k)) [
        | inl e ↦
            rw
              (keep-concat (has_stem u k) (others p paths) p, keep-others (has_stem u k) p paths, e)
              (single-move p (keep (has_stem u k) paths)
                (keep-OccursOnce (has_stem u k) p paths e once))
        | inr e ↦
            rw
              (keep-concat (has_stem u k) (others p paths) p, keep-others (has_stem u k) p paths, e)
              (rw append-nil (ap single (keep-others_ne (has_stem u k) p paths e)))
      ]

  -- The resolver answers every target as before.
  pub resolve-move :
      (r : LinkResolver) (paths : List Text) (p target : Text)
      → Represents u r paths
      → OccursOnce p paths
      → HasNoTwin u p paths
      → resolve u (add_path u (remove_path u r p) p) target ≡ resolve u r target
  resolve-move r paths p target h once alone =
      resolve-Represents u _ _ target
        (add_path-Represents u _ (others p paths) p (remove_path-Represents u r paths p alone h))
      ∙ resolve_in-move paths p target once alone
      ∙ sym (resolve-Represents u r paths target h)
