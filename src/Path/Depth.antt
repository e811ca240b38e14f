-- ===== src/Path/Depth.antt =====
-- src/vault/path.rs: how far down a path leads, counted, and what popping a name off a list leaves.
use obsidian_mcp_semantic_me.Base.{
  ap, ◌∙◌, ◌-◌, ℕ, zero, suc, ◌+◌, ◌≤◌, ◌≡◌, refl, inl, inr, ◌↔◌, some, List, [], ◌∷◌, ◌++◌, arith,
  Text, Option-cases, none, length, length-append, take,
}
use obsidian_mcp_semantic_me.Path.{Component, normal, cur_dir, parent_dir, root_dir, prefix, pop}

-- How many components of a path are names, and how many are `..`.
unfoldable pub downs : List Component → ℕ
downs [] = 0
downs (normal c ∷ path) = suc (downs path)
downs (_ ∷ path) = downs path

unfoldable pub ups : List Component → ℕ
ups [] = 0
ups (parent_dir ∷ path) = suc (ups path)
ups (_ ∷ path) = ups path

abbrev pub IsRelative : Component → Type 0
IsRelative root_dir = ⊥
IsRelative (prefix p) = ⊥
IsRelative _ = Unit {0}

-- From so many names down, no beginning of the path has more `..` than there are names.
abbrev pub StaysBelow : ℕ → List Component → Type 0
StaysBelow depth path = (n : ℕ) → ups (take n path) ≤ depth + downs (take n path)

pub pop-some :
    (names rest : List Text) → pop names ≡ some rest → (c : Text) × (names ≡ rest ++ c ∷ [])
unfolding pop
pop-some [] rest h = absurd (ground arith)
pop-some (c ∷ []) rest h = let same : rest ≡ [] = ground arith in (c, rw same refl)
pop-some (c ∷ d ∷ names) rest h = elim (Option-cases (pop (d ∷ names))) [
  | inl e ↦ absurd (ground arith)
  | inr (more, e) ↦
      let same : rest ≡ c ∷ more = ground arith in
      let (last, split) = pop-some (d ∷ names) more e in (last, rw same (ap (λ l. c ∷ l) split))
]

pub length-snoc : (names : List Text) (c : Text) → length (names ++ c ∷ []) ≡ suc (length names)
length-snoc names c = omega (arith, length-append names (c ∷ []))

pub pop-length : (names rest : List Text) → pop names ≡ some rest → length names ≡ suc (length rest)
pop-length names rest e =
    let (c, split) = pop-some names rest e in ap length split ∙ length-snoc rest c

pub take_all : (names : List Text) → take (length names - 0) names ≡ names
take_all [] = refl
take_all (c ∷ names) =
    let same : suc (length names) - 0 ≡ suc (length names - 0) = omega arith in
    ap (λ n. take n (c ∷ names)) same ∙ ap (λ l. c ∷ l) (take_all names)

pub take-snoc :
    (n : ℕ) (names : List Text) (c : Text)
    → n ≤ length names
    → take n (names ++ c ∷ []) ≡ take n names
take-snoc zero names c h = refl
take-snoc (suc n) [] c h = absurd (omega arith)
take-snoc (suc n) (d ∷ names) c h = ap (λ l. d ∷ l) (take-snoc n names c (omega arith))

pub pop-none : (names : List Text) → pop names ≡ none → length names ≡ 0
unfolding pop
pop-none [] h = refl
pop-none (c ∷ []) h = absurd (ground arith)
pop-none (c ∷ d ∷ names) h = elim (Option-cases (pop (d ∷ names))) [
  | inl e ↦ let shorter = pop-none (d ∷ names) e in absurd (omega arith)
  | inr (more, e) ↦ absurd (ground arith)
]

pub StaysBelow-nil : (depth : ℕ) → StaysBelow depth []
unfolding ups downs
StaysBelow-nil depth zero = omega arith
StaysBelow-nil depth (suc n) = omega arith

pub StaysBelow-normal :
    (depth : ℕ) (c : Text) (path : List Component)
    → StaysBelow (suc depth) path ↔ StaysBelow depth (normal c ∷ path)
unfolding ups downs
StaysBelow-normal depth c path = (into, λ h n. let more = h (suc n) in omega arith)
  where
    into : StaysBelow (suc depth) path → StaysBelow depth (normal c ∷ path)
    into h zero = omega arith
    into h (suc n) = let less = h n in omega arith

pub StaysBelow-cur_dir :
    (depth : ℕ) (path : List Component) → StaysBelow depth path → StaysBelow depth (cur_dir ∷ path)
unfolding ups downs
StaysBelow-cur_dir depth path h zero = omega arith
StaysBelow-cur_dir depth path h (suc n) = h n

pub one_up : (path : List Component) (depth : ℕ) → StaysBelow depth (parent_dir ∷ path) → 1 ≤ depth
unfolding ups downs
one_up path depth h = let up = h 1 in omega arith

pub StaysBelow-parent_dir :
    (depth : ℕ) (path : List Component)
    → StaysBelow depth path ↔ StaysBelow (suc depth) (parent_dir ∷ path)
unfolding ups downs
StaysBelow-parent_dir depth path = (into, λ h n. let more = h (suc n) in omega arith)
  where
    into : StaysBelow depth path → StaysBelow (suc depth) (parent_dir ∷ path)
    into h zero = omega arith
    into h (suc n) = let less = h n in omega arith
