-- ===== src/Path/Normal.antt =====
-- src/vault/path.rs: which paths `normalize_relative` takes, by the numbers of names and of `..` in
-- front of each place of the path, and which names come out.
use obsidian_mcp_semantic_me.Base.{
  take-nil, ap, ◌∙◌, ◌-◌, append_assoc, append-nil, subst, sym, ℕ, zero, suc, ◌≤◌, ◌≡◌, refl, inl,
  inr, ◌↔◌, List, [], ◌∷◌, ◌++◌, arith, Text, Option-cases, length, take, All,
}
use obsidian_mcp_semantic_me.Error.{◌>>=◌, ok, Result-cases}
use obsidian_mcp_semantic_me.Path.{
  Component, normal, cur_dir, parent_dir, root_dir, prefix, pop, normalize_from, forward_slash_path,
  normalize_relative,
}
use obsidian_mcp_semantic_me.Path.Depth.{
  downs, ups, IsRelative, StaysBelow, pop-some, length-snoc, pop-length, take_all, take-snoc,
  pop-none, StaysBelow-nil, StaysBelow-normal, StaysBelow-cur_dir, one_up, StaysBelow-parent_dir,
}

-- The path read from its end, with the number of `..` that have taken back no name yet, and the names
-- that none takes back: a `..` takes back the last name in front of it that is still there.
abbrev pub step_back : Text → ℕ × List Text → ℕ × List Text
step_back c (zero, kept) = (zero, c ∷ kept)
step_back c (suc climbs, kept) = (climbs, kept)

unfoldable pub read_back : List Component → ℕ × List Text
read_back [] = (0, [])
read_back (normal c ∷ path) = step_back c (read_back path)
read_back (parent_dir ∷ path) = (suc (read_back path).0, (read_back path).1)
read_back (_ ∷ path) = read_back path

module _ (shown : Text) where
  normalize_from-StaysBelow :
      (path : List Component) (names result : List Text)
      → normalize_from shown path names ≡ ok result
      → All IsRelative path × StaysBelow (length names) path
  unfolding normalize_from downs ups
  normalize_from-StaysBelow [] names result h = (tt, StaysBelow-nil (length names))
  normalize_from-StaysBelow (normal c ∷ path) names result h =
      let (relative, stays) = normalize_from-StaysBelow path (names ++ c ∷ []) result h in
      (
        (tt, relative),
        (StaysBelow-normal (length names) c path).0
            (subst (λ d. StaysBelow d path) (length-snoc names c) stays),
      )
  normalize_from-StaysBelow (cur_dir ∷ path) names result h =
      let (relative, stays) = normalize_from-StaysBelow path names result h in
      ((tt, relative), StaysBelow-cur_dir (length names) path stays)
  normalize_from-StaysBelow (parent_dir ∷ path) names result h = elim (Option-cases (pop names)) [
    | inl e ↦ absurd (ground arith)
    | inr (rest, e) ↦
        let (relative, stays) = normalize_from-StaysBelow path rest result (ground arith) in
        let deeper = pop-length names rest e in
        (
          (tt, relative),
          subst (λ d. StaysBelow d (parent_dir ∷ path)) (sym deeper)
              ((StaysBelow-parent_dir (length rest) path).0 stays),
        )
  ]
  normalize_from-StaysBelow (root_dir ∷ path) names result h = absurd (ground arith)
  normalize_from-StaysBelow (prefix p ∷ path) names result h = absurd (ground arith)

  -- The names in front that the `..` of the path leave, and behind them those of the path.
  record IsRead (path : List Component) (names : List Text) : Type 0 where
    enough : (read_back path).0 ≤ length names
    result :
        normalize_from shown path names
        ≡ ok (take (length names - (read_back path).0) names ++ (read_back path).1)

  IsRead-normal :
      (c : Text) (path : List Component) (names : List Text)
      → IsRead path (names ++ c ∷ [])
      → IsRead (normal c ∷ path) names
  unfolding read_back normalize_from
  IsRead-normal c path names h = go (read_back path) refl
    where
      go : (back : ℕ × List Text) → read_back path ≡ back → IsRead (normal c ∷ path) names
      go (zero, kept) e = record {
        enough = rw e (omega arith);
        result =
            h.result
            ∙ ap ok (
                ap (λ b. take (length (names ++ c ∷ []) - b.0) (names ++ c ∷ []) ++ b.1) e
                ∙ ap (λ l. l ++ kept) (take_all (names ++ c ∷ []))
                ∙ append_assoc names (c ∷ []) kept
                ∙ sym (ap (λ l. l ++ (c ∷ kept)) (take_all names))
                ∙ sym (ap (λ b. take (length names - b.0) names ++ b.1) (ap (step_back c) e)));
      }
      go (suc climbs, kept) e =
          let low : suc climbs ≤ length (names ++ c ∷ []) =
            subst (λ b. b.0 ≤ length (names ++ c ∷ [])) e h.enough in
          let size = length-snoc names c in
          let less : length (names ++ c ∷ []) - suc climbs ≡ length names - climbs = omega arith in
          record {
            enough = rw e (omega arith);
            result =
                h.result
                ∙ ap ok (
                    ap (λ b. take (length (names ++ c ∷ []) - b.0) (names ++ c ∷ []) ++ b.1) e
                    ∙ ap (λ n. take n (names ++ c ∷ []) ++ kept) less
                    ∙ ap (λ l. l ++ kept) (take-snoc (length names - climbs) names c (omega arith))
                    ∙ sym (ap (λ b. take (length names - b.0) names ++ b.1) (ap (step_back c) e)));
          }

  StaysBelow-normalize_from :
      (path : List Component) (names : List Text)
      → All IsRelative path
      → StaysBelow (length names) path
      → IsRead path names
  unfolding normalize_from read_back ups downs
  StaysBelow-normalize_from [] names relative stays = record {
    enough = omega arith;
    result = ap ok (sym (append-nil (take (length names - 0) names) ∙ take_all names));
  }
  StaysBelow-normalize_from (normal c ∷ path) names (_, relative) stays =
      IsRead-normal c path names (
        StaysBelow-normalize_from path (names ++ c ∷ []) relative (
          subst (λ d. StaysBelow d path) (sym (length-snoc names c))
            ((StaysBelow-normal (length names) c path).1 stays)))
  StaysBelow-normalize_from (cur_dir ∷ path) names (_, relative) stays =
      let h = StaysBelow-normalize_from path names relative (λ n. stays (suc n)) in
      record { enough = h.enough; result = h.result }
  StaysBelow-normalize_from (parent_dir ∷ path) names (_, relative) stays =
      elim (Option-cases (pop names)) [
        | inl e ↦
            let none_left = pop-none names e in
            let up = one_up path (length names) stays in absurd (omega arith)
        | inr (rest, e) ↦
            let deeper = pop-length names rest e in
            let (c, split) = pop-some names rest e in
            let h = StaysBelow-normalize_from path rest relative (
              (StaysBelow-parent_dir (length rest) path).1
                (subst (λ d. StaysBelow d (parent_dir ∷ path)) deeper stays)) in
            let left = length rest - (read_back path).0 in
            let less : length names - suc (read_back path).0 ≡ left = omega (arith, h.enough) in
            let same : take (length names - suc (read_back path).0) names ≡ take left rest =
              ap (λ n. take n names) less
              ∙ ap (take left) split
              ∙ take-snoc left rest c (omega arith) in
            record {
              enough = omega (arith, h.enough);
              result =
                  rw (normalize_from, e)
                    (h.result ∙ ap (λ l. ok (l ++ (read_back path).1)) (sym same));
            }
      ]
  StaysBelow-normalize_from (root_dir ∷ path) names (never, _) stays = elim never [ ]
  StaysBelow-normalize_from (prefix p ∷ path) names (never, _) stays = elim never [ ]

normalize_relative-read_back :
    (shown : Text) (path : List Component)
    → All IsRelative path
    → StaysBelow 0 path
    → normalize_relative shown path ≡ ok (forward_slash_path (read_back path).1)
unfolding normalize_relative
normalize_relative-read_back shown path relative stays =
    let h = StaysBelow-normalize_from shown path [] relative stays in
    ap (λ r. r >>= λ names. ok (forward_slash_path names)) h.result
    ∙ ap (λ l. ok (forward_slash_path (l ++ (read_back path).1))) (take-nil _)

normalize_relative-IsRelative :
    (shown : Text) (path : List Component) (result : Text)
    → normalize_relative shown path ≡ ok result
    → All IsRelative path × StaysBelow 0 path
unfolding normalize_relative
normalize_relative-IsRelative shown path result h =
    elim (Result-cases (normalize_from shown path [])) [
      | inl (names, found) ↦ normalize_from-StaysBelow shown path [] names found
      | inr (e, failed) ↦ absurd (ground arith)
    ]

-- A path is taken exactly if none of its components is a root or a prefix, and no beginning of it has
-- more `..` than names. What comes out are then the names that no `..` takes back, joined by slashes,
-- with each backslash made a slash.
pub normalize_relative-StaysBelow :
    (shown : Text) (path : List Component) (result : Text)
    → (normalize_relative shown path ≡ ok result)
      ↔ (All IsRelative path × StaysBelow 0 path × (result ≡ forward_slash_path (read_back path).1))
normalize_relative-StaysBelow shown path result = (
  λ h.
      let (relative, stays) = normalize_relative-IsRelative shown path result h in
      let made = normalize_relative-read_back shown path relative stays in
      (relative, stays, cc (h, made)),
  λ (relative, stays, same).
      normalize_relative-read_back shown path relative stays ∙ ap ok (sym same),
)
