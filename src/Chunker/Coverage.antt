-- ===== src/Chunker/Coverage.antt =====
-- src/vault/chunker.rs: the loop of `chunk_note`, on a body of whole characters and with a target of two
-- bytes at least: it returns, and what it has then gone through is in a chunk or in a blank window.
use obsidian_mcp_semantic_me.Base.{
  not, ◌&&◌, is_char_boundary, IsSpaced, IsSpaced-drop, IsSpaced-slice, boundary-drop,
}
use obsidian_mcp_semantic_me.Base.{
  ℕ, zero, suc, ◌+◌, ◌-◌, ◌≤◌, ◌<◌, ◌≡◌, ap, inl, inr, ◌⊎◌, List, ◌++◌, arith, Text, length, take,
  drop, slice, length-take, length-drop, length-slice, take-drop-slice, trim, length-trim, is_empty,
  leb, ltb, if_rule, Bool-cases, All, Any, All-append, Any-append_left, Any-append_right, true,
  false,
}
use obsidian_mcp_semantic_me.Chunker.Sections.{Section}
use obsidian_mcp_semantic_me.Chunker.Windows.{ChunkConfig, hard_max, window, next_cursor}
use obsidian_mcp_semantic_me.Chunker.Progress.{
  window_bounds, window-le-hard_max, next_cursor_bounds, window-boundary, next_cursor-boundary,
}
use obsidian_mcp_semantic_me.Chunker.{
  Chunk, Run, done, panicked, out_of_fuel, push_piece, chunk_loop,
}

-- One statement of what a call returns, for the proofs: a value, and it is good.
abbrev pub Returns : (List Chunk → Type 0) → Run → Type 0
Returns P (done cs) = P cs
Returns P panicked = ⊥
Returns P out_of_fuel = ⊥

-- The chunk is the trimmed text of a window of the body that holds the byte at `p`.
abbrev pub Shows : Text → ℕ → Chunk → Type 0
Shows body p c =
    (len : ℕ) × (c.offset ≤ p)
    × (p < c.offset + len)
    × (c.text ≡ trim (take len (drop c.offset body)))

-- A window of nothing but whitespace holds the byte at `p`.
abbrev pub IsBlankAt : Text → ℕ → Type 0
IsBlankAt body p =
    (a : ℕ) × (len : ℕ) × (a ≤ p)
    × (p < a + len)
    × (is_empty (trim (take len (drop a body))) ≡ true)

abbrev pub IsSeen : Text → ℕ → List Chunk → Type 0
IsSeen body p chunks = Any (Shows body p) chunks ⊎ IsBlankAt body p

-- Not blank, and within the ceiling where the target is not 0.
abbrev pub Fits : ChunkConfig → Chunk → Type 0
Fits config c = (is_empty c.text ≡ false) × (0 < config.target → length c.text ≤ hard_max config)

module _ (config : ChunkConfig) (body : Text) (p : ℕ) where
  IsSeen-append : (chunks more : List Chunk) → IsSeen body p chunks → IsSeen body p (chunks ++ more)
  IsSeen-append chunks more (inl h) = inl (Any-append_left (Shows body p) chunks more h)
  IsSeen-append chunks more (inr h) = inr h

  module _ (section : Section) where
    IsSeen-push_piece :
        (cursor : ℕ) (piece : Text) (chunks : List Chunk)
        → IsSeen body p chunks
        → IsSeen body p (push_piece section cursor piece chunks)
    unfolding push_piece
    IsSeen-push_piece cursor piece chunks h =
        if_rule (IsSeen body p) (is_empty (trim piece)) (λ _. h) (λ _. IsSeen-append chunks _ h)

    Fits-push_piece :
        (cursor : ℕ) (piece : Text) (chunks : List Chunk)
        → (0 < config.target → length piece ≤ hard_max config)
        → All (Fits config) chunks
        → All (Fits config) (push_piece section cursor piece chunks)
    unfolding push_piece
    Fits-push_piece cursor piece chunks short h =
        if_rule (All (Fits config)) (is_empty (trim piece)) (λ _. h)
          λ e.
            All-append (Fits config) chunks _ h
              ((e, λ pos. omega (arith, short pos, length-trim piece)), tt)

    push_piece-shows :
        (cursor w : ℕ) (piece : Text) (chunks : List Chunk)
        → piece ≡ take w (drop (section.start + cursor) body)
        → section.start + cursor ≤ p
        → p < section.start + cursor + w
        → IsSeen body p (push_piece section cursor piece chunks)
    unfolding push_piece
    push_piece-shows cursor w piece chunks same low high =
        if_rule (IsSeen body p) (is_empty (trim piece))
          (λ e. inr (section.start + cursor, w, low, high, rw (← same) e))
          λ e. inl (Any-append_right (Shows body p) chunks _ (inl (w, low, high, ap trim same)))

    module _ (Before : Type 0) (fits : section.start ≤ section.end)
        (inside : section.end ≤ length body) (spaced : IsSpaced body)
        (enough : 2 ≤ config.target) where
      abbrev pub raw : Text
      raw = slice body section.start section.end

      pub record IsDone (chunks : List Chunk) (upto : ℕ) : Type 0 where
        pub fit : All (Fits config) chunks
        pub kept : Before → IsSeen body p chunks
        pub reached : section.start ≤ p → p < section.start + upto → IsSeen body p chunks

      IsDone-push_piece :
          (cursor w : ℕ) (chunks : List Chunk)
          → cursor + w ≤ length raw
          → (0 < config.target → w ≤ hard_max config)
          → IsDone chunks cursor
          → IsDone (push_piece section cursor (take w (drop cursor raw)) chunks) (cursor + w)
      IsDone-push_piece cursor w chunks room short h =
          let piece = take w (drop cursor raw) in
          let span : length raw ≡ section.end - section.start =
            length-slice body section.start section.end fits inside in
          record {
            fit =
                Fits-push_piece cursor piece chunks
                  (λ pos. omega (arith, short pos, length-take w (drop cursor raw))) h.fit;
            kept = λ b. IsSeen-push_piece cursor piece chunks (h.kept b);
            reached = λ low high. elim (Bool-cases (ltb p (section.start + cursor))) [
              | inl early ↦ IsSeen-push_piece cursor piece chunks (h.reached low (ground arith))
              | inr late ↦
                  push_piece-shows cursor w piece chunks
                    (take-drop-slice w cursor section.start section.end body (omega arith))
                    (ground arith) (omega arith)
            ];
          }

      IsDone-le : (chunks : List Chunk) (a b : ℕ) → b ≤ a → IsDone chunks a → IsDone chunks b
      IsDone-le chunks a b le h = record {
        fit = h.fit;
        kept = h.kept;
        reached = λ low high. h.reached low (omega arith);
      }

      -- With enough fuel the loop returns, and has then gone through the whole section.
      pub chunk_loop-Returns :
          (fuel cursor : ℕ) (chunks : List Chunk)
          → cursor ≤ length raw
          → length raw < cursor + fuel
          → is_char_boundary raw cursor ≡ true
          → IsDone chunks cursor
          → Returns
              (λ cs. IsDone cs (length raw))
              (chunk_loop config section raw fuel cursor chunks)
      unfolding chunk_loop
      chunk_loop-Returns zero cursor chunks le h at d = absurd (omega arith)
      chunk_loop-Returns (suc fuel) cursor chunks le h at d =
          let remaining = drop cursor raw in
          let w = window config remaining in
          let pushed = push_piece section cursor (take w remaining) chunks in
          let left : length remaining ≡ length raw - cursor = length-drop cursor raw in
          let Good = Returns (λ cs. IsDone cs (length raw)) in
          let ends : is_char_boundary remaining w ≡ true =
            window-boundary config remaining enough
              (IsSpaced-drop cursor raw (IsSpaced-slice body section.start section.end spaced)) in
          if_rule Good (leb (length raw) cursor)
            (λ over. IsDone-le chunks cursor (length raw) (ground arith) d)
            λ more.
              let (some_left, room) = window_bounds config remaining (ground arith) in
              let next : IsDone pushed (cursor + w) =
                IsDone-push_piece cursor w chunks (ground arith)
                  (window-le-hard_max config remaining) d in
              let (forward, back) = next_cursor_bounds config raw cursor w some_left in
              let next_at =
                next_cursor-boundary config raw cursor w some_left
                  (boundary-drop cursor w raw some_left le ends) in
              if_rule Good (not (is_char_boundary raw cursor && is_char_boundary remaining w))
                (λ inside_char. absurd (ground arith))
                λ whole.
                  if_rule Good (leb (length raw) (cursor + w))
                    (λ over. IsDone-le pushed (cursor + w) (length raw) (ground arith) next)
                    λ within.
                      chunk_loop-Returns fuel (next_cursor config raw cursor w) pushed
                        (ground arith) (omega arith) next_at
                        (IsDone-le pushed (cursor + w) (next_cursor config raw cursor w) back next)
