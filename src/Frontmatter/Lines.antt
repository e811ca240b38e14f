-- ===== src/Frontmatter/Lines.antt =====
-- src/vault/frontmatter.rs: the loop that looks for the closing fence.
use obsidian_mcp_semantic_me.Base.{
  length-drop, length-take, if_rule, ℕ, zero, suc, ◌+◌, ◌≤◌, ◌≡◌, refl, sym, ap, ◌∙◌, inl, inr,
  true, false, Option, none, some, [], ◌∷◌, ◌++◌, arith, length, take, drop, append_assoc,
  append-nil, length-append, Text, bytes, starts_with, has_byte, find, Option-cases,
}
use obsidian_mcp_semantic_me.Frontmatter.{is_fence, find_close}

-- `yaml` is made of whole lines, none of which is a fence.
pub data HasNoFence : Text → Type 0 where
  no_line : HasNoFence []
  add_line :
      (line rest : Text)
      → has_byte b'\n' line ≡ false
      → is_fence line ≡ false
      → HasNoFence rest
      → HasNoFence (line ++ b'\n' ∷ rest)

-- The first newline: what is before it has none.
pub find-newline :
    (s : Text) (i : ℕ)
    → find (bytes "\n") s ≡ some i
    → (s ≡ take i s ++ b'\n' ∷ drop (suc i) s)
      × (has_byte b'\n' (take i s) ≡ false)
      × (suc i ≤ length s)
unfolding find starts_with has_byte
find-newline [] i h = absurd (ground arith)
find-newline (b ∷ s) zero h = ground (arith, Option-cases (find (bytes "\n") s))
find-newline (b ∷ s) (suc i) h =
    let e : find (bytes "\n") s ≡ some i = ground (arith, Option-cases (find (bytes "\n") s)) in
    let (k, l, m) = find-newline s i e in (ap (λ t. b ∷ t) k, ground arith, omega arith)

pub find-append :
    (line rest : Text)
    → has_byte b'\n' line ≡ false
    → find (bytes "\n") (line ++ b'\n' ∷ rest) ≡ some (length line)
unfolding find starts_with has_byte
find-append [] rest h = refl
find-append (b ∷ line) rest h = ground (arith, find-append line rest)

pub find-none : (s : Text) → find (bytes "\n") s ≡ none → has_byte b'\n' s ≡ false
unfolding find starts_with has_byte
find-none [] h = refl
find-none (b ∷ s) h = ground (arith, find-none s, Option-cases (find (bytes "\n") s))

-- A closing line: with its newline, or the last one of the text.
pub data IsClosing : Text → Text → Type 0 where
  with_newline : (line back : Text) → is_fence line ≡ true → IsClosing (line ++ b'\n' ∷ []) back
  last_line : (line : Text) → is_fence line ≡ true → IsClosing line []

pub record IsCut (remaining : Text) (pos p q : ℕ) : Type 0 where
  pub front : Text
  pub closing : Text
  pub back : Text
  pub whole : remaining ≡ front ++ (closing ++ back)
  pub starts : p ≡ pos + length front
  pub ends : q ≡ p + length closing
  pub fenceless : HasNoFence front
  pub closes : IsClosing closing back

-- No line of `remaining` is a fence.
pub record IsOpen (remaining : Text) : Type 0 where
  pub front : Text
  pub last : Text
  pub whole : remaining ≡ front ++ last
  pub fenceless : HasNoFence front
  pub last_is_line : has_byte b'\n' last ≡ false
  pub no_fence : is_fence last ≡ false

abbrev pub IsFindClose : Text → ℕ → Option (ℕ × ℕ) → Type 0
IsFindClose remaining pos none = IsOpen remaining
IsFindClose remaining pos (some (p, q)) = IsCut remaining pos p q

add_line-IsFindClose :
    (line rest remaining : Text) (pos next : ℕ) (found : Option (ℕ × ℕ))
    → remaining ≡ line ++ b'\n' ∷ rest
    → next ≡ pos + suc (length line)
    → has_byte b'\n' line ≡ false
    → is_fence line ≡ false
    → IsFindClose rest next found
    → IsFindClose remaining pos found
add_line-IsFindClose line rest remaining pos next none w e m n h = record {
  front = line ++ b'\n' ∷ h.front;
  last = h.last;
  whole =
      w ∙ ap (λ t. line ++ b'\n' ∷ t) h.whole ∙ sym (append_assoc line (b'\n' ∷ h.front) h.last);
  fenceless = add_line line h.front m n h.fenceless;
  last_is_line = h.last_is_line;
  no_fence = h.no_fence;
}
add_line-IsFindClose line rest remaining pos next (some (p, q)) w e m n h = record {
  front = line ++ b'\n' ∷ h.front;
  closing = h.closing;
  back = h.back;
  whole =
      w
      ∙ ap (λ t. line ++ b'\n' ∷ t) h.whole
      ∙ sym (append_assoc line (b'\n' ∷ h.front) (h.closing ++ h.back));
  starts = (let s = h.starts in ground (arith, length-append line (b'\n' ∷ h.front)));
  ends = h.ends;
  fenceless = add_line line h.front m n h.fenceless;
  closes = h.closes;
}

-- With fuel beyond the length of the text, the loop finds the first closing line, or there is none.
pub find_close-IsFindClose :
    (fuel : ℕ) (remaining : Text) (pos : ℕ)
    → length remaining + 1 ≤ fuel
    → IsFindClose remaining pos (find_close fuel remaining pos)
unfolding find_close
find_close-IsFindClose zero remaining pos h = absurd (omega arith)
find_close-IsFindClose (suc fuel) remaining pos h =
    elim (Option-cases (find (bytes "\n") remaining)) [
      | inl e ↦
          rw (e, find_close)
            (if_rule (IsFindClose remaining pos) (is_fence remaining)
              (λ closes. record {
                front = [];
                closing = remaining;
                back = [];
                whole = sym (append-nil remaining);
                starts = omega arith;
                ends = refl;
                fenceless = no_line;
                closes = last_line remaining closes;
              })
              (λ not_fence. record {
                front = [];
                last = remaining;
                whole = refl;
                fenceless = no_line;
                last_is_line = find-none remaining e;
                no_fence = not_fence;
              }))
      | inr (i, e) ↦
          let (whole, is_line, inside) = find-newline remaining i e in
          let line = take i remaining in
          let rest = drop (suc i) remaining in
          let long : length line ≡ i = ground (arith, length-take i remaining) in
          rw (e, find_close)
            (if_rule (IsFindClose remaining pos) (is_fence line)
              (λ closes. record {
                front = [];
                closing = line ++ b'\n' ∷ [];
                back = rest;
                whole = whole ∙ sym (append_assoc line (b'\n' ∷ []) rest);
                starts = omega arith;
                ends = ground (arith, length-append line (b'\n' ∷ []));
                fenceless = no_line;
                closes = with_newline line rest closes;
              })
              (λ not_fence.
                add_line-IsFindClose line rest remaining pos (pos + suc i) _ whole (omega arith)
                  is_line not_fence
                  (find_close-IsFindClose fuel rest (pos + suc i)
                    (ground (arith, length-drop (suc i) remaining)))))
    ]
