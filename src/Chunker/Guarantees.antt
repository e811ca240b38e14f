-- ===== src/Chunker/Guarantees.antt =====
-- src/vault/chunker.rs: what `chunk_note` guarantees.
use obsidian_mcp_semantic_me.Base.{IsUtf8, IsSpaced, IsUtf8-IsSpaced}
use obsidian_mcp_semantic_me.Base.{
  ℕ, suc, ◌-◌, ◌≤◌, ◌<◌, ◌≡◌, refl, is_char_boundary, inl, inr, ◌⊎◌, not, List, [], ◌∷◌, arith,
  Text, length, slice, length-slice, trim, is_empty, if_rule, Bool-cases, All, Any, true, false,
}
use obsidian_mcp_semantic_me.Chunker.Sections.{Section, sections, is_blank_section}
use obsidian_mcp_semantic_me.Chunker.Windows.{ChunkConfig}
use obsidian_mcp_semantic_me.Chunker.Tiling.{sections-tile}
use obsidian_mcp_semantic_me.Chunker.Packing.{
  Holds, IsInside-IsSpread, Tiles-Holds, sections-IsSpread, packed_sections-IsSpread,
  packed_sections-Holds,
}
use obsidian_mcp_semantic_me.Chunker.Coverage.{Returns, Shows, IsSeen, Fits, chunk_loop-Returns}
use obsidian_mcp_semantic_me.Chunker.{
  Chunk, Run, done, panicked, out_of_fuel, chunk_loop, chunk_section, chunk_sections, reindex,
  chunk_note, walk_of,
}

Returns-map :
    {P Q : List Chunk → Type 0} (r : Run)
    → ((cs : List Chunk) → P cs → Q cs)
    → Returns P r
    → Returns Q r
Returns-map panicked f h = h
Returns-map out_of_fuel f h = h
Returns-map (done cs) f h = f cs h

module _ (config : ChunkConfig) (body : Text) (p : ℕ) (spaced : IsSpaced body)
    (enough : 2 ≤ config.target) where
  -- All chunks fit, and the byte at `p` is seen if it lay in one of the sections.
  record IsPost (Before : Type 0) (chunks : List Chunk) : Type 0 where
    fit : All (Fits config) chunks
    seen : Before → IsSeen body p chunks

  blank-IsSeen :
      (s : Section) (chunks : List Chunk)
      → s.start ≤ s.end
      → is_empty (trim (slice body s.start s.end)) ≡ true
      → Holds p s
      → IsSeen body p chunks
  blank-IsSeen s chunks le blank (low, high) =
      inr (s.start, s.end - s.start, low, omega arith, blank)

  chunk_section-IsPost :
      (Before : Type 0) (s : Section) (chunks : List Chunk)
      → s.start ≤ s.end
      → s.end ≤ length body
      → IsPost Before chunks
      → Returns (IsPost (Before ⊎ Holds p s)) (chunk_section config body s chunks)
  unfolding chunk_section is_char_boundary
  chunk_section-IsPost Before s chunks le inside h =
      let raw = slice body s.start s.end in
      if_rule (Returns (IsPost (Before ⊎ Holds p s))) (is_empty (trim raw))
        (λ blank. record {
          fit = h.fit;
          seen = λ b. elim b [
            | inl before ↦ h.seen before
            | inr here ↦ blank-IsSeen s chunks le blank here
          ];
        })
        λ _.
          Returns-map (chunk_loop config s raw (suc (length raw)) 0 chunks)
            (λ cs d. record {
              fit = d.fit;
              seen = λ b. elim b [
                | inl before ↦ d.kept before
                | inr (low, high) ↦
                    d.reached low (omega (arith, length-slice body s.start s.end le inside))
              ];
            })
            (chunk_loop-Returns config body p s Before le inside spaced enough (suc (length raw)) 0
              chunks (omega arith) (omega arith) refl
              (record { fit = h.fit; kept = h.seen; reached = λ low high. absurd (omega arith) }))

  chunk_sections-IsPost :
      (Before : Type 0) (walk : List Section) (chunks : List Chunk)
      → All (λ s. (s.start ≤ s.end) × (s.end ≤ length body)) walk
      → IsPost Before chunks
      → Returns (IsPost (Before ⊎ Any (Holds p) walk)) (chunk_sections config body walk chunks)
  unfolding chunk_sections
  chunk_sections-IsPost Before [] chunks inside h = record {
    fit = h.fit;
    seen = λ b. elim b [ inl before ↦ h.seen before | inr x ↦ absurd x ];
  }
  chunk_sections-IsPost Before (s ∷ walk) chunks ((le, inside), more) h =
      go (chunk_section config body s chunks) (chunk_section-IsPost Before s chunks le inside h)
        (λ cs. chunk_sections-IsPost (Before ⊎ Holds p s) walk cs more)
    where
      go :
          (r : Run)
          → Returns (IsPost (Before ⊎ Holds p s)) r
          → ((cs : List Chunk)
              → IsPost (Before ⊎ Holds p s) cs
              → Returns
                  (IsPost ((Before ⊎ Holds p s) ⊎ Any (Holds p) walk))
                  (chunk_sections config body walk cs))
          → Returns (IsPost (Before ⊎ Any (Holds p) (s ∷ walk))) (elim r [
            | panicked ↦ panicked
            | out_of_fuel ↦ out_of_fuel
            | done cs ↦ chunk_sections config body walk cs
          ])
      go panicked k rest = k
      go out_of_fuel k rest = k
      go (done cs) k rest =
          Returns-map (chunk_sections config body walk cs)
            (λ ds d. record {
              fit = d.fit;
              seen = λ b. elim b [
                | inl before ↦ d.seen (inl (inl before))
                | inr (inl here) ↦ d.seen (inl (inr here))
                | inr (inr later) ↦ d.seen (inr later)
              ];
            })
            (rest cs k)

  Fits-reindex : (i : ℕ) (cs : List Chunk) → All (Fits config) cs → All (Fits config) (reindex i cs)
  unfolding reindex
  Fits-reindex i [] h = tt
  Fits-reindex i (c ∷ cs) (f, h) = (f, Fits-reindex (suc i) cs h)

  IsSeen-reindex : (i : ℕ) (cs : List Chunk) → IsSeen body p cs → IsSeen body p (reindex i cs)
  unfolding reindex
  IsSeen-reindex i cs (inr blank) = inr blank
  IsSeen-reindex i cs (inl h) = inl (go i cs h)
    where
      go : (i : ℕ) (cs : List Chunk) → Any (Shows body p) cs → Any (Shows body p) (reindex i cs)
      go i [] h = elim h [ ]
      go i (c ∷ cs) (inl h) = inl h
      go i (c ∷ cs) (inr h) = inr (go (suc i) cs h)

  walk_of-inside : All (λ s. (s.start ≤ s.end) × (s.end ≤ length body)) (walk_of config body)
  walk_of-inside =
      if_rule (All (λ s. (s.start ≤ s.end) × (s.end ≤ length body))) config.packing
        (λ _. IsInside-IsSpread 0 (length body) _ (packed_sections-IsSpread body config.target))
        (λ _. IsInside-IsSpread 0 (length body) _ (sections-IsSpread body))

  Blank-IsSeen :
      (l : List Section) (chunks : List Chunk)
      → All (λ s. (s.start ≤ s.end) × (s.end ≤ length body)) l
      → Any (λ s. Holds p s × (not (is_blank_section body s) ≡ false)) l
      → IsSeen body p chunks
  Blank-IsSeen [] chunks inside h = elim h [ ]
  Blank-IsSeen (s ∷ l) chunks ((le, _), inside) (inl (here, blank)) =
      blank-IsSeen s chunks le (ground arith) here
  Blank-IsSeen (s ∷ l) chunks (_, inside) (inr h) = Blank-IsSeen l chunks inside h

  walk_of-IsSeen :
      (chunks : List Chunk)
      → p < length body
      → (Any (Holds p) (walk_of config body) → IsSeen body p chunks)
      → IsSeen body p chunks
  walk_of-IsSeen chunks high h = elim (Bool-cases config.packing) [
    | inl packing ↦ elim (packed_sections-Holds body config.target p high) [
      | inl found ↦ h (rw packing found)
      | inr blank ↦
          Blank-IsSeen (sections body) chunks
            (IsInside-IsSpread 0 (length body) _ (sections-IsSpread body)) blank
    ]
    | inr plain ↦ h (
        rw plain
          (Tiles-Holds 0 (length body) p (sections body) (sections-tile body) (omega arith) high))
  ]

  chunk_note-Returns :
      Returns
        (λ cs. All (Fits config) cs × (p < length body → IsSeen body p cs))
        (chunk_note body config)
  unfolding chunk_note
  chunk_note-Returns = go (chunk_sections config body (walk_of config body) []) (
      chunk_sections-IsPost ⊥ (walk_of config body) [] walk_of-inside
        (record { fit = tt; seen = λ x. absurd x }))
    where
      go :
          (r : Run)
          → Returns (IsPost (⊥ ⊎ Any (Holds p) (walk_of config body))) r
          → Returns
              (λ cs. All (Fits config) cs × (p < length body → IsSeen body p cs))
              (elim r [
                | panicked ↦ panicked
                | out_of_fuel ↦ out_of_fuel
                | done cs ↦ done (reindex 0 cs)
              ])
      go panicked h = h
      go out_of_fuel h = h
      go (done cs) h = (
        Fits-reindex 0 cs h.fit,
        λ high. IsSeen-reindex 0 cs (walk_of-IsSeen cs high (λ found. h.seen (inr found))),
      )

Returns-done :
    {P : List Chunk → Type 0} (r : Run) → Returns P r → (cs : List Chunk) × (r ≡ done cs) × P cs
Returns-done panicked h = absurd h
Returns-done out_of_fuel h = absurd h
Returns-done (done cs) h = (cs, refl, h)

-- For a body in UTF-8 and a target of two bytes at least, whatever the overlap and with or without
-- packing, `chunk_note` returns: its loop ends, and no slice is inside a character. No chunk that it
-- returns is blank or longer than `hard_max`.
pub chunk_note_total :
    (body : Text) (config : ChunkConfig)
    → IsUtf8 body
    → 2 ≤ config.target
    → (cs : List Chunk) × (chunk_note body config ≡ done cs) × All (Fits config) cs
chunk_note_total body config u enough =
    let (cs, e, (fit, _)) =
      Returns-done (chunk_note body config)
        (chunk_note-Returns config body 0 (IsUtf8-IsSpaced body u) enough) in
    (cs, e, fit)

-- For a body in UTF-8 and a target of two bytes at least, `chunk_note` returns, and each byte of the
-- body is in a window whose trimmed text is a chunk of the result, with the start of the window as its
-- offset, or in a window of nothing but whitespace.
pub chunk_note_covers :
    (body : Text) (config : ChunkConfig) (p : ℕ)
    → IsUtf8 body
    → 2 ≤ config.target
    → p < length body
    → (cs : List Chunk) × (chunk_note body config ≡ done cs) × IsSeen body p cs
chunk_note_covers body config p u enough h =
    let (cs, e, (_, seen)) =
      Returns-done (chunk_note body config)
        (chunk_note-Returns config body p (IsUtf8-IsSpaced body u) enough) in
    (cs, e, seen h)
