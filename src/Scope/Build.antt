-- ===== src/Scope/Build.antt =====
-- src/vault/scope.rs: which paths the compiled scopes of a vault contain.
use obsidian_mcp_semantic_me.Base.{
  ◌≡◌, refl, sym, ◌∙◌, ap, inl, inr, ◌⊎◌, ◌↔◌, Bool, true, false, some, List, [], ◌∷◌, arith, any,
  Text, text_eq, text_eq_iff, member, Dict, lookup, contains_key, insert_sorted,
  lookup-insert_sorted, Option-cases, Bool-cases, List-cases,
}
use obsidian_mcp_semantic_me.Error.{ok, ◌>>=◌, Result-cases}
use obsidian_mcp_semantic_me.Exclude.{Globset, normalized, build_strict, is_excluded}
use obsidian_mcp_semantic_me.Exclude.Patterns.{globs_of, build_strict-patterns, is_excluded-any}
use obsidian_mcp_semantic_me.Scope.{
  Scope, ScopeSet, RawScope, resolve_scope, compile_scope, build_from, build_scopes, parse_sources,
  keys, contains, all_scope,
}
use obsidian_mcp_semantic_me.Scope.Reach.{
  Covers, own, included, resolve_into-only, resolve_into-Covers,
}

-- A scope matches a path if one of the patterns that it covers does.
pub record Matches (glob_match : Text → Text → Bool) (raw : Dict RawScope) (name path : Text)
    : Type 0 where
  pub pattern : Text
  pub glob : Text
  pub covered : Covers raw pattern name
  pub compiled : normalized pattern ≡ some glob
  pub matched : glob_match glob path ≡ true

member-keys {ℓ} :
    {V : Type ℓ} (name : Text) (m : Dict V) → member name (keys m) ≡ contains_key name m
unfolding member lookup
member-keys name [] = refl
member-keys name ((k, v) ∷ m) = ground (arith, member-keys name m)

-- What one turn of the loop of `build` puts in.
record IsCompiled (g : Globset) (raw : Dict RawScope) (name : Text) (scope : Scope) : Type 0 where
  written : List Text
  resolved : resolve_scope raw name ≡ ok written
  strict : build_strict g written ≡ ok scope.globs

build_scope-IsCompiled :
    (g : Globset) (raw : Dict RawScope) (name : Text) (scope : Scope)
    → (resolve_scope raw name >>= compile_scope g name) ≡ ok scope
    → IsCompiled g raw name scope
unfolding compile_scope
build_scope-IsCompiled g raw name scope h = elim (Result-cases (resolve_scope raw name)) [
  | inr (m, e) ↦ absurd (ground arith)
  | inl (written, e) ↦ elim (List-cases written) [
    | inl n ↦ absurd (ground arith)
    | inr (p, ps, n) ↦ elim (Result-cases (build_strict g (p ∷ ps))) [
      | inr (m, f) ↦ absurd (ground arith)
      | inl (globs, f) ↦ record { written = written; resolved = e; strict = ground arith }
    ]
  ]
]

module _ (g : Globset) (raw : Dict RawScope) where
  build_from-cons :
      (name : Text) (names : List Text) (scopes final : Dict Scope)
      → build_from g raw (name ∷ names) scopes ≡ ok final
      → (scope : Scope) × IsCompiled g raw name scope
        × (build_from g raw names (insert_sorted name scope scopes) ≡ ok final)
  unfolding build_from
  build_from-cons name names scopes final h =
      elim (Result-cases (resolve_scope raw name >>= compile_scope g name)) [
        | inr (m, e) ↦ absurd (ground arith)
        | inl (scope, e) ↦ (scope, build_scope-IsCompiled g raw name scope e, ground arith)
      ]

  -- A name that is left out keeps what it had; one that is gone through has its scope.
  build_from-lookup :
      (names : List Text) (scopes final : Dict Scope) (name : Text)
      → build_from g raw names scopes ≡ ok final
      → ((member name names ≡ false) × (lookup name final ≡ lookup name scopes))
        ⊎ ((member name names ≡ true)
            × ((scope : Scope) × (lookup name final ≡ some scope) × IsCompiled g raw name scope))
  unfolding build_from member
  build_from-lookup [] scopes final name h = inl (refl, ground arith)
  build_from-lookup (q ∷ names) scopes final name h =
      let (scope, compiled, rest) = build_from-cons q names scopes final h in
      elim (build_from-lookup names (insert_sorted q scope scopes) final name rest) [
        | inr (m, found) ↦ inr (ground arith, found)
        | inl (m, kept) ↦ elim (Bool-cases (text_eq q name)) [
          | inl e ↦
              let same : q ≡ name = ground (arith, text_eq_iff q name) in
              inr (
                ground arith,
                (
                  scope,
                  ground (arith, lookup-insert_sorted q name scope scopes),
                  rw (sym same) compiled,
                ),
              )
          | inr e ↦ inl (ground arith, ground (arith, lookup-insert_sorted q name scope scopes))
        ]
      ]

module _ (f : Text → Bool) where
  any-globs_of :
      (written : List Text)
      → any f (globs_of written) ≡ true
      → (p q : Text) × (member p written ≡ true) × (normalized p ≡ some q) × (f q ≡ true)
  unfolding member
  any-globs_of [] h = absurd (ground arith)
  any-globs_of (p ∷ written) h = elim (Option-cases (normalized p)) [
    | inl e ↦
        let (r, q, m, n, k) = any-globs_of written (ground arith) in (r, q, ground arith, n, k)
    | inr (q, e) ↦ elim (Bool-cases (f q)) [
      | inl k ↦ (p, q, ground (arith, text_eq_iff p p), e, k)
      | inr k ↦
          let (r, s, m, n, l) = any-globs_of written (ground arith) in (r, s, ground arith, n, l)
    ]
  ]

  globs_of-any :
      (written : List Text) (p q : Text)
      → member p written ≡ true
      → normalized p ≡ some q
      → f q ≡ true
      → any f (globs_of written) ≡ true
  unfolding member
  globs_of-any [] p q m n k = absurd (ground arith)
  globs_of-any (r ∷ written) p q m n k = elim (Bool-cases (text_eq r p)) [
    | inl e ↦ ground (arith, text_eq_iff r p)
    | inr e ↦
        let later = globs_of-any written p q (ground arith) n k in
        ground (arith, Option-cases (normalized r))
  ]

module _ (g : Globset) (glob_match : Text → Text → Bool)
    (matches : (set : List Text) (path : Text)
      → g.is_match set path ≡ any (λ p. glob_match p path) set) where
  is_excluded-Matches :
      (raw : Dict RawScope) (name path : Text) (scope : Scope)
      → IsCompiled g raw name scope
      → (is_excluded g scope.globs path ≡ true) ↔ Matches glob_match raw name path
  unfolding member
  is_excluded-Matches raw name path scope compiled =
      let (in_set, in_patterns, _) =
        build_strict-patterns g compiled.written scope.globs compiled.strict in
      let verdict =
        is_excluded-any g glob_match scope.globs path (λ set. matches set path)
          (in_set ∙ sym in_patterns) in
      let hit : is_excluded g scope.globs path
          ≡ any (λ p. glob_match p path) (globs_of compiled.written) =
        verdict ∙ ap (λ ps. any (λ p. glob_match p path) ps) in_patterns in
      (
        (λ h.
            let (p, q, m, n, k) =
              any-globs_of (λ p. glob_match p path) compiled.written (sym hit ∙ h) in
            record {
              pattern = p;
              glob = q;
              compiled = n;
              matched = k;
              covered =
                  elim (resolve_into-only raw p 17 [] name [] compiled.written compiled.resolved
                    m) [ inl a ↦ absurd (ground arith) | inr c ↦ c ];
            }),
        (λ m.
            hit
            ∙ globs_of-any (λ p. glob_match p path) compiled.written m.pattern m.glob
                (resolve_into-Covers raw m.pattern 17 [] [] compiled.written m.covered
                  compiled.resolved)
                m.compiled m.matched),
      )

Covers-defined :
    {raw : Dict RawScope} {pattern name : Text}
    → Covers raw pattern name
    → (scope : RawScope) × (lookup name raw ≡ some scope)
Covers-defined (own scope found m) = (scope, found)
Covers-defined (included scope r found m c) = (scope, found)

module _ (g : Globset) (glob_match : Text → Text → Bool)
    (matches : (set : List Text) (path : Text)
      → g.is_match set path ≡ any (λ p. glob_match p path) set) where
  build_from-contains :
      (raw : Dict RawScope) (scopes : Dict Scope) (name path : Text)
      → build_from g raw (keys raw) [] ≡ ok scopes
      → text_eq name all_scope ≡ false
      → (contains_key name scopes ≡ contains_key name raw)
        × ((contains g (record { scopes = scopes }) name path ≡ true)
            ↔ Matches glob_match raw name path)
  unfolding contains lookup
  build_from-contains raw scopes name path h other_name =
      elim (build_from-lookup g raw (keys raw) [] scopes name h) [
        | inl (m, kept) ↦ (
          ground (arith, member-keys name raw),
          (
            (λ k. absurd (ground arith)),
            (λ c.
                let (scope, found) = Covers-defined c.covered in
                absurd (ground (arith, member-keys name raw))),
          ),
        )
        | inr (m, (scope, found, compiled)) ↦
            let (to, from) =
              is_excluded-Matches g glob_match matches raw name path scope compiled in
            (
              ground (arith, member-keys name raw),
              ((λ k. to (ground arith)), (λ c. let k = from c in ground arith)),
            )
      ]

-- If the scopes of a vault are built, then the files were read into blocks, the names are those of
-- the blocks, and a scope other than `all` contains exactly the paths that match
-- a pattern of its block or of one that it reaches through `+` references. The matching of a set of
-- globs is assumed to be that of one of the globs.
pub build_scopes-contains :
    (g : Globset) (glob_match : Text → Text → Bool) (sources : List Text) (set : ScopeSet)
    (name path : Text)
    → ((globs : List Text) (path : Text)
        → g.is_match globs path ≡ any (λ p. glob_match p path) globs)
    → build_scopes g sources ≡ ok set
    → text_eq name all_scope ≡ false
    → (raw : Dict RawScope) × (parse_sources sources ≡ ok raw)
      × (contains_key name set.scopes ≡ contains_key name raw)
      × ((contains g set name path ≡ true) ↔ Matches glob_match raw name path)
unfolding build_scopes
build_scopes-contains g glob_match sources set name path matches h n =
    elim (Result-cases (parse_sources sources)) [
      | inr (m, e) ↦ absurd (ground arith)
      | inl (raw, e) ↦ elim (Result-cases (build_from g raw (keys raw) [])) [
        | inr (m, f) ↦ absurd (ground arith)
        | inl (scopes, f) ↦
            let same : set ≡ record { scopes = scopes } = ground arith in
            let (known, inside) =
              build_from-contains g glob_match matches raw scopes name path f n in
            (raw, e, rw same known, rw same inside)
      ]
    ]
