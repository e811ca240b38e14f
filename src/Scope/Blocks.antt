-- ===== src/Scope/Blocks.antt =====
-- src/vault/scope.rs: what the blocks that `parse_sources` reads are, and `narrow`.
use obsidian_mcp_semantic_me.Base.{
  ◌≡◌, refl, sym, inl, inr, Bool, true, false, ◌||◌, Option, none, some, List, [], ◌∷◌, ◌++◌, arith,
  All, All-append, keep, Text, bytes, text_eq, text_eq_iff, is_empty, trim, starts_with,
  strip_prefix, lines, join, Dict, lookup, insert_sorted, lookup-insert_sorted, if◌then◌else◌,
  Option-cases, Bool-cases,
}
use obsidian_mcp_semantic_me.Error.{unknown_scope, ok, err, Result-cases}
use obsidian_mcp_semantic_me.Exclude.{Globset}
use obsidian_mcp_semantic_me.Scope.{
  ScopeSet, RawScope, entry_or_default, header_of, open_block, add_entry, scan_scope_line,
  scan_lines, scan_sources, parse_sources, all_scope, contains, is_known, require, narrow, names,
}

abbrev pub IsNonempty : Text → Type 0
IsNonempty s = is_empty s ≡ false

-- The name of a block is not empty and not `all`.
abbrev pub IsName : Text → Type 0
IsName name = (is_empty name ≡ false) × (text_eq name all_scope ≡ false)

-- No pattern and no reference of a block is empty.
pub record IsFilled (scope : RawScope) : Type 0 where
  pub patterns_filled : All IsNonempty scope.patterns
  pub references_filled : All IsNonempty scope.references

pub record IsBlock (name : Text) (scope : RawScope) : Type 0 where
  pub named : IsName name
  pub filled : IsFilled scope

abbrev pub AreBlocks : Dict RawScope → Type 0
AreBlocks raw = (name : Text) (scope : RawScope) → lookup name raw ≡ some scope → IsBlock name scope

entry_or_default-IsFilled :
    (name : Text) (raw : Dict RawScope) → AreBlocks raw → IsFilled (entry_or_default name raw)
unfolding entry_or_default
entry_or_default-IsFilled name raw h = elim (Option-cases (lookup name raw)) [
  | inl e ↦ rw (e, entry_or_default) (record { patterns_filled = tt; references_filled = tt })
  | inr (scope, e) ↦ rw (e, entry_or_default) ((h name scope e).filled)
]

insert_sorted-AreBlocks :
    (name : Text) (scope : RawScope) (raw : Dict RawScope)
    → IsBlock name scope
    → AreBlocks raw
    → AreBlocks (insert_sorted name scope raw)
insert_sorted-AreBlocks name scope raw block h other found k =
    elim (Bool-cases (text_eq name other)) [
      | inl e ↦
          let same : name ≡ other = ground (arith, text_eq_iff name other) in
          let same_scope : scope ≡ found =
            ground (arith, lookup-insert_sorted name other scope raw) in
          rw (sym same, sym same_scope) block
      | inr e ↦ h other found (ground (arith, lookup-insert_sorted name other scope raw))
    ]

abbrev IsCurrent : Option Text → Type 0
IsCurrent none = Unit {0}
IsCurrent (some name) = IsName name

IsCurrent-some :
    (current : Option Text) (name : Text) → current ≡ some name → IsCurrent current → IsName name
IsCurrent-some none name h c = absurd (ground arith)
IsCurrent-some (some q) name h c = let same : q ≡ name = ground arith in rw (sym same) c

open_block-AreBlocks :
    (name : Text) (raw : Dict RawScope) (p : Dict RawScope × Option Text)
    → AreBlocks raw
    → open_block name raw ≡ ok p
    → AreBlocks p.0 × IsCurrent p.1
unfolding open_block
open_block-AreBlocks name raw p h e = elim (Bool-cases (is_empty name)) [
  | inl m ↦ absurd (ground arith)
  | inr m ↦ elim (Bool-cases (text_eq name all_scope)) [
    | inl a ↦ absurd (ground arith)
    | inr a ↦
        let same : p ≡ (insert_sorted name (entry_or_default name raw) raw, some name) =
          ground arith in
        rw same (
          insert_sorted-AreBlocks name (entry_or_default name raw) raw
              (record { named = (m, a); filled = entry_or_default-IsFilled name raw h }) h,
          (m, a),
        )
  ]
]

add_entry-AreBlocks :
    (name trimmed : Text) (raw result : Dict RawScope)
    → is_empty trimmed ≡ false
    → IsName name
    → AreBlocks raw
    → add_entry name trimmed raw ≡ ok result
    → AreBlocks result
unfolding add_entry
add_entry-AreBlocks name trimmed raw result m n h e =
    let entry = entry_or_default name raw in
    let filled = entry_or_default-IsFilled name raw h in
    elim (Option-cases (strip_prefix (bytes "+") trimmed)) [
      | inl k ↦
          let same : result
              ≡ insert_sorted name (record entry { patterns = entry.patterns ++ trimmed ∷ [] })
                  raw =
            ground arith in
          rw same (
            insert_sorted-AreBlocks name _ raw
              (record {
                named = n;
                filled = record {
                  patterns_filled =
                      All-append IsNonempty entry.patterns (trimmed ∷ []) filled.patterns_filled
                        (m, tt);
                  references_filled = filled.references_filled;
                };
              })
              h)
      | inr (rest, k) ↦ elim (Bool-cases (is_empty (trim rest))) [
        | inl b ↦ absurd (ground arith)
        | inr b ↦
            let same : result
                ≡ insert_sorted name
                    (record entry { references = entry.references ++ trim rest ∷ [] }) raw =
              ground arith in
            rw same (
              insert_sorted-AreBlocks name _ raw
                (record {
                  named = n;
                  filled = record {
                    patterns_filled = filled.patterns_filled;
                    references_filled =
                        All-append IsNonempty entry.references (trim rest ∷ [])
                          filled.references_filled (b, tt);
                  };
                })
                h)
      ]
    ]

scan_scope_line-AreBlocks :
    (raw : Dict RawScope) (current : Option Text) (line : Text) (p : Dict RawScope × Option Text)
    → AreBlocks raw
    → IsCurrent current
    → scan_scope_line raw current line ≡ ok p
    → AreBlocks p.0 × IsCurrent p.1
unfolding scan_scope_line
scan_scope_line-AreBlocks raw current line p h c e =
    elim (Bool-cases (is_empty (trim line) || starts_with (bytes "#") (trim line))) [
      | inl skip ↦ let same : p ≡ (raw, current) = ground arith in rw same (h, c)
      | inr used ↦ elim (Option-cases (header_of (trim line))) [
        | inr (header, k) ↦ open_block-AreBlocks (trim header) raw p h (ground arith)
        | inl k ↦ elim (Option-cases current) [
          | inl d ↦ absurd (ground arith)
          | inr (name, d) ↦ elim (Result-cases (add_entry name (trim line) raw)) [
            | inr (m, f) ↦ absurd (ground arith)
            | inl (raw2, f) ↦
                let same : p ≡ (raw2, some name) = ground arith in
                let named : IsName name = IsCurrent-some current name d c in
                rw same
                  (add_entry-AreBlocks name (trim line) raw raw2 (ground arith) named h f, named)
          ]
        ]
      ]
    ]

scan_lines-AreBlocks :
    (rest : List Text) (raw : Dict RawScope) (current : Option Text) (result : Dict RawScope)
    → AreBlocks raw
    → IsCurrent current
    → scan_lines rest raw current ≡ ok result
    → AreBlocks result
unfolding scan_lines
scan_lines-AreBlocks [] raw current result h c e =
    let same : result ≡ raw = ground arith in rw same h
scan_lines-AreBlocks (line ∷ rest) raw current result h c e =
    elim (Result-cases (scan_scope_line raw current line)) [
      | inr (m, f) ↦ absurd (ground arith)
      | inl (p, f) ↦
          let (k, d) = scan_scope_line-AreBlocks raw current line p h c f in
          scan_lines-AreBlocks rest p.0 p.1 result k d (ground arith)
    ]

scan_sources-AreBlocks :
    (sources : List Text) (raw result : Dict RawScope)
    → AreBlocks raw
    → scan_sources sources raw ≡ ok result
    → AreBlocks result
unfolding scan_sources
scan_sources-AreBlocks [] raw result h e = let same : result ≡ raw = ground arith in rw same h
scan_sources-AreBlocks (source ∷ sources) raw result h e =
    elim (Result-cases (scan_lines (lines source) raw none)) [
      | inr (m, f) ↦ absurd (ground arith)
      | inl (next, f) ↦
          scan_sources-AreBlocks sources next result
            (scan_lines-AreBlocks (lines source) raw none next h tt f) (ground arith)
    ]

-- If the files are read, then no block is named `all` or has an empty name, and no pattern and no
-- reference of a block is empty.
pub parse_sources-AreBlocks :
    (sources : List Text) (raw : Dict RawScope) → parse_sources sources ≡ ok raw → AreBlocks raw
unfolding parse_sources lookup
parse_sources-AreBlocks sources raw e =
    scan_sources-AreBlocks sources [] raw (λ name scope k. absurd (ground arith)) e

keep-all {ℓ} : {A : Type ℓ} (p : A → Bool) (xs : List A) → ((x : A) → p x ≡ true) → keep p xs ≡ xs
keep-all p [] h = refl
keep-all p (x ∷ xs) h = ground (arith, h x, keep-all p xs h)

-- `narrow` keeps exactly the paths that the scope contains, also for `all`; for a name that is not
-- known it gives the error that lists the known ones.
pub narrow-contains :
    (g : Globset) (set : ScopeSet) (name : Text) (paths : List Text)
    → narrow g set name paths ≡ (
        if is_known set name
        then ok (keep (contains g set name) paths)
        else err (unknown_scope name (join (bytes ", ") (all_scope ∷ names set))))
unfolding narrow require contains is_known
narrow-contains g set name paths = elim (Bool-cases (text_eq name all_scope)) [
  | inl e ↦
      let whole : keep (contains g set name) paths ≡ paths =
        keep-all (contains g set name) paths (λ path. ground arith) in
      ground arith
  | inr e ↦ ground arith
]
