-- ===== src/Exclude/Patterns.antt =====
-- src/vault/exclude.rs: which patterns a compiled set holds, and what it matches.
use obsidian_mcp_semantic_me.Base.{
  List-cases, ◌≡◌, refl, ap, ◌∙◌, sym, inl, inr, Bool, true, false, ◌||◌, Option, none, some, List,
  [], ◌∷◌, ◌++◌, append-nil, append_assoc, arith, Text, text_eq, text_eq_iff, any, member,
  member-append, IsAscending, sort_dedup-IsAscending, member-sort_dedup, Option-cases, Bool-cases,
}
use obsidian_mcp_semantic_me.Error.{ok, Result-cases, ◌>>=◌}
use obsidian_mcp_semantic_me.Exclude.{
  Globset, ExcludeSet, normalized, accept_all, build_set, compile, build, build_strict, is_excluded,
  is_empty_set, patterns_of, load_ignore_patterns,
}

-- The globs that a list of patterns stands for: those of the lines that are not blank.
abbrev pub globs_of : List Text → List Text
globs_of [] = []
globs_of (raw ∷ patterns) = elim (normalized raw) [
  | none ↦ globs_of patterns
  | some pattern ↦ pattern ∷ globs_of patterns
]

module _ (g : Globset) where
  abbrev pub valid_globs : List Text → List Text
  valid_globs [] = []
  valid_globs (pattern ∷ patterns) = elim (g.glob_error pattern) [
    | none ↦ pattern ∷ valid_globs patterns
    | some e ↦ valid_globs patterns
  ]

  accept_all-lenient :
      (patterns accepted : List Text)
      → accept_all g false patterns accepted ≡ ok (accepted ++ valid_globs (globs_of patterns))
  unfolding accept_all
  accept_all-lenient [] accepted = ap ok (sym (append-nil accepted))
  accept_all-lenient (raw ∷ patterns) accepted = elim (Option-cases (normalized raw)) [
    | inl e ↦ rw (e, accept_all, globs_of) (accept_all-lenient patterns accepted)
    | inr (pattern, e) ↦ elim (Option-cases (g.glob_error pattern)) [
      | inl v ↦
          rw (e, v, accept_all, globs_of, valid_globs)
            (accept_all-lenient patterns (accepted ++ pattern ∷ [])
              ∙ ap ok (append_assoc accepted (pattern ∷ []) (valid_globs (globs_of patterns))))
      | inr (m, v) ↦
          rw (e, v, accept_all, globs_of, valid_globs) (accept_all-lenient patterns accepted)
    ]
  ]

  -- A strict run that succeeds accepts every glob, and a lenient one would have done the same.
  accept_all-strict :
      (patterns accepted result : List Text)
      → accept_all g true patterns accepted ≡ ok result
      → (result ≡ accepted ++ globs_of patterns)
        × (valid_globs (globs_of patterns) ≡ globs_of patterns)
  unfolding accept_all
  accept_all-strict [] accepted result h = (cc (append-nil accepted), refl)
  accept_all-strict (raw ∷ patterns) accepted result h = elim (Option-cases (normalized raw)) [
    | inl e ↦
        let h1 : accept_all g true patterns accepted ≡ ok result = ground arith in
        rw (e, globs_of) (accept_all-strict patterns accepted result h1)
    | inr (pattern, e) ↦ elim (Option-cases (g.glob_error pattern)) [
      | inl v ↦
          let h1 : accept_all g true patterns (accepted ++ pattern ∷ []) ≡ ok result =
            ground arith in
          let (k, l) = accept_all-strict patterns (accepted ++ pattern ∷ []) result h1 in
          rw (e, v, globs_of, valid_globs)
            (
              k ∙ append_assoc accepted (pattern ∷ []) (globs_of patterns),
              ap (λ ps. pattern ∷ ps) l,
            )
      | inr (m, v) ↦ absurd (ground arith)
    ]
  ]

-- The patterns of the ignore files are in ascending order, each once, and are those of the file in
-- the one directory and, where it is another one, of the file in the other.
pub load_ignore_patterns-IsAscending :
    (read : Text → Option Text) (home data_dir pattern : Text)
    → IsAscending (load_ignore_patterns read home data_dir)
      × (member pattern (load_ignore_patterns read home data_dir) ≡ (
          member pattern (patterns_of (read home)) || member pattern (patterns_of (read data_dir))))
unfolding load_ignore_patterns member
load_ignore_patterns-IsAscending read home data_dir pattern = (
  sort_dedup-IsAscending _,
  (elim (Bool-cases (text_eq data_dir home)) [
    | inl e ↦ ground (
      arith,
      text_eq_iff data_dir home,
      member-sort_dedup pattern (patterns_of (read home) ++ []),
      member-append pattern (patterns_of (read home)) [],
    )
    | inr e ↦ ground (
      arith,
      member-sort_dedup pattern (patterns_of (read home) ++ patterns_of (read data_dir)),
      member-append pattern (patterns_of (read home)) (patterns_of (read data_dir)),
    )
  ]),
)

module _ (g : Globset) where
  build_set-patterns :
      (accepted : List Text) (s : ExcludeSet)
      → build_set g accepted ≡ ok s
      → (s.set ≡ accepted) × (s.patterns ≡ accepted)
  unfolding build_set
  build_set-patterns accepted s h = elim (Option-cases (g.set_error accepted)) [
    | inl e ↦ (ground arith, ground arith)
    | inr (m, e) ↦ absurd (ground arith)
  ]

  -- `build` compiles exactly the globs of the lines that are not blank and whose glob is valid: its
  -- only error is that of the set as a whole.
  pub build-patterns :
      (patterns : List Text) → build g patterns ≡ build_set g (valid_globs g (globs_of patterns))
  unfolding build compile
  build-patterns patterns = rw (accept_all-lenient g patterns [], ◌>>=◌) refl

  -- If `build_strict` gives a set, then the set holds the glob of every line that is not blank, and
  -- `build` gives the same set.
  pub build_strict-patterns :
      (patterns : List Text) (s : ExcludeSet)
      → build_strict g patterns ≡ ok s
      → (s.set ≡ globs_of patterns) × (s.patterns ≡ globs_of patterns) × (build g patterns ≡ ok s)
  unfolding build_strict compile
  build_strict-patterns patterns s h = elim (Result-cases (accept_all g true patterns [])) [
    | inl (accepted, e) ↦
        let (k, l) = accept_all-strict g patterns [] accepted e in
        let built : build_set g accepted ≡ ok s = ground arith in
        let (m, n) = build_set-patterns accepted s built in
        (m ∙ k, n ∙ k, rw (build-patterns patterns, l) (cc))
    | inr (m, e) ↦ absurd (ground arith)
  ]

-- Where a set matches what one of its globs matches, a set that `build` or `build_strict` gives
-- excludes exactly the paths that one of its patterns matches.
pub is_excluded-any :
    (g : Globset) (glob_match : Text → Text → Bool) (s : ExcludeSet) (path : Text)
    → ((set : List Text) → g.is_match set path ≡ any (λ p. glob_match p path) set)
    → s.set ≡ s.patterns
    → is_excluded g s path ≡ any (λ p. glob_match p path) s.patterns
unfolding is_excluded is_empty_set
is_excluded-any g glob_match s path matches same =
    ground (arith, matches s.set, List-cases s.patterns)
