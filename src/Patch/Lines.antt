-- ===== src/Patch/Lines.antt =====
-- src/vault/patch.rs: the byte offsets of the lines cut a note between its lines.
use mathlib.Core.List.{reverse-reverse, reverse-append}
use obsidian_mcp_semantic_me.Base.{
  drop-drop, length-append, ◌≤◌, append-nil, reverse, slice, ◌||◌, ◌-◌, inl, inr, ℕ, zero, suc, ◌+◌,
  ◌≡◌, refl, sym, ap, ◌∙◌, false, List, [], ◌∷◌, ◌++◌, arith, length, take, drop, take-append-drop,
  append_assoc, take-length-append, drop-length, get_elem?, Text, split_inclusive, add_front, ◌==◌,
  Bool-cases,
}
use obsidian_mcp_semantic_me.Patch.Blocks.{or_same, trim_eol, drop_eol}
use obsidian_mcp_semantic_me.Patch.{offsets_from, line_byte_offsets, or_len, line_offset}

abbrev pub concat : List Text → Text
concat [] = []
concat (l ∷ ls) = l ++ concat ls

concat-append : (xs ys : List Text) → concat (xs ++ ys) ≡ concat xs ++ concat ys
concat-append [] ys = refl
concat-append (l ∷ xs) ys =
    ap (λ t. l ++ t) (concat-append xs ys) ∙ sym (append_assoc l (concat xs) (concat ys))

concat-add_front : (b : ℕ) (ls : List Text) → concat (add_front b ls) ≡ b ∷ concat ls
concat-add_front b [] = refl
concat-add_front b (l ∷ ls) = refl

pub concat-split_inclusive : (s : Text) → concat (split_inclusive s) ≡ s
unfolding split_inclusive
concat-split_inclusive [] = refl
concat-split_inclusive (b ∷ s) =
    ground (arith, concat-split_inclusive s, concat-add_front b (split_inclusive s))

-- The first `m + 1` lines.
abbrev first_lines : ℕ → Text → Text
first_lines m s = concat (take (suc m) (split_inclusive s))

concat-take-add_front :
    (m b : ℕ) (ls : List Text)
    → concat (take (suc m) (add_front b ls)) ≡ b ∷ concat (take (suc m) ls)
concat-take-add_front zero b [] = refl
concat-take-add_front (suc m) b [] = refl
concat-take-add_front m b (l ∷ ls) = refl

abbrev HasOffsets : ℕ → ℕ → Text → Type 0
HasOffsets i m s =
    or_len (i + length s) (get_elem? (offsets_from i s) m) ≡ i + length (first_lines m s)

-- A byte that is no newline only moves the offsets on.
HasOffsets-other :
    (i m b : ℕ) (s : Text) → (b == b'\n') ≡ false → HasOffsets (suc i) m s → HasOffsets i m (b ∷ s)
unfolding offsets_from split_inclusive
HasOffsets-other i m b s e later =
    let shift : i + suc (length s) ≡ suc i + length s = omega arith in
    let moved : suc i + length (first_lines m s) ≡ i + suc (length (first_lines m s)) =
      omega arith in
    let front = concat-take-add_front m b (split_inclusive s) in
    rw (e, offsets_from, split_inclusive, shift, front) (later ∙ moved)

offsets_from-first_lines : (i m : ℕ) (s : Text) → HasOffsets i m s
unfolding offsets_from split_inclusive
offsets_from-first_lines i m [] = refl
offsets_from-first_lines i zero (b ∷ s) = elim (Bool-cases (b == b'\n')) [
  | inr e ↦ HasOffsets-other i zero b s e (offsets_from-first_lines (suc i) zero s)
  | inl e ↦ rw (e, offsets_from, split_inclusive) (omega arith)
]
offsets_from-first_lines i (suc k) (b ∷ s) = elim (Bool-cases (b == b'\n')) [
  | inr e ↦ HasOffsets-other i (suc k) b s e (offsets_from-first_lines (suc i) (suc k) s)
  | inl e ↦
      let shift : i + suc (length s) ≡ suc i + length s = omega arith in
      let moved : suc i + length (first_lines k s) ≡ i + suc (length (first_lines k s)) =
        omega arith in
      rw (e, offsets_from, split_inclusive, shift) (offsets_from-first_lines (suc i) k s ∙ moved)
]

-- The offset of line `n` is the length of the lines before it.
pub line_offset-length :
    (n : ℕ) (content : Text)
    → line_offset (line_byte_offsets content) n (length content)
      ≡ length (concat (take n (split_inclusive content)))
unfolding line_offset line_byte_offsets
line_offset-length zero content = refl
line_offset-length (suc m) content =
    let here : 0 + length content ≡ length content = omega arith in
    let there : 0 + length (first_lines m content) ≡ length (first_lines m content) = omega arith in
    ap (λ k. or_len k (get_elem? (offsets_from 0 content) m)) (sym here)
    ∙ offsets_from-first_lines 0 m content
    ∙ there

pub cut_at :
    (n : ℕ) (content : Text)
    → content
      ≡ concat (take n (split_inclusive content)) ++ concat (drop n (split_inclusive content))
cut_at n content =
    sym (concat-split_inclusive content)
    ∙ ap concat (sym (take-append-drop n (split_inclusive content)))
    ∙ concat-append (take n (split_inclusive content)) (drop n (split_inclusive content))

pub take-line_offset :
    (n : ℕ) (content : Text)
    → take (line_offset (line_byte_offsets content) n (length content)) content
      ≡ concat (take n (split_inclusive content))
take-line_offset n content =
    ap (λ k. take k content) (line_offset-length n content)
    ∙ ap (take (length (concat (take n (split_inclusive content))))) (cut_at n content)
    ∙ take-length-append (concat (take n (split_inclusive content)))
        (concat (drop n (split_inclusive content)))

pub drop-line_offset :
    (n : ℕ) (content : Text)
    → drop (line_offset (line_byte_offsets content) n (length content)) content
      ≡ concat (drop n (split_inclusive content))
drop-line_offset n content =
    ap (λ k. drop k content) (line_offset-length n content)
    ∙ ap (drop (length (concat (take n (split_inclusive content))))) (cut_at n content)
    ∙ drop-length (concat (take n (split_inclusive content)))
        (concat (drop n (split_inclusive content)))

-- `trim_eol` takes off the end of a line.
drop_eol-split : (s : Text) → (front : Text) × (s ≡ front ++ drop_eol s)
drop_eol-split [] = ([], refl)
drop_eol-split (b ∷ s) = elim (Bool-cases (b == b'\r' || b == b'\n')) [
  | inr e ↦ ([], rw e refl)
  | inl e ↦ let (front, split) = drop_eol-split s in (b ∷ front, rw e (ap (λ l. b ∷ l) split))
]

pub trim_eol-split : (line : Text) → (eol : Text) × (line ≡ trim_eol line ++ eol)
trim_eol-split line =
    let (front, split) = drop_eol-split (reverse line) in
    (
      reverse front,
      sym (reverse-reverse line)
          ∙ ap reverse split
          ∙ reverse-append front (drop_eol (reverse line)),
    )

pub slice-parts :
    (above line below : Text)
    → slice (above ++ (line ++ below)) (length above) (length above + length line) ≡ line
slice-parts above line below =
    let size : (length above + length line) - length above ≡ length line = omega arith in
    rw (size, drop-length above (line ++ below)) (take-length-append line below)

pub drop-parts :
    (above line below : Text) → drop (length above + length line) (above ++ (line ++ below)) ≡ below
drop-parts above line below =
    sym (drop-drop (length line) (length above) (above ++ (line ++ below)))
    ∙ ap (drop (length line)) (drop-length above (line ++ below))
    ∙ drop-length line below

-- The end of a line whose first part is `front`.
pub slice-end :
    (above front eol below : Text)
    → slice
        (above ++ ((front ++ eol) ++ below))
        (length above + length front)
        (length above + length (front ++ eol))
      ≡ eol
slice-end above front eol below =
    let size : (length above + length (front ++ eol)) - (length above + length front) ≡ length eol =
      omega (arith, length-append front eol) in
    let parts : (front ++ eol) ++ below ≡ front ++ (eol ++ below) = append_assoc front eol below in
    rw (size, parts, drop-parts above front (eol ++ below)) (take-length-append eol below)

pub drop-append : (n : ℕ) (xs ys : Text) → n ≤ length xs → drop n (xs ++ ys) ≡ drop n xs ++ ys
drop-append zero xs ys h = refl
drop-append (suc n) [] ys h = absurd (omega arith)
drop-append (suc n) (x ∷ xs) ys h = drop-append n xs ys (omega arith)

pub concat-take-line :
    (i : ℕ) (ls : List Text)
    → concat (take (suc i) ls) ≡ concat (take i ls) ++ or_same [] (get_elem? ls i)
concat-take-line zero [] = refl
concat-take-line (suc i) [] = refl
concat-take-line zero (l ∷ ls) = append-nil l
concat-take-line (suc i) (l ∷ ls) =
    ap (λ t. l ++ t) (concat-take-line i ls)
    ∙ sym (append_assoc l (concat (take i ls)) (or_same [] (get_elem? ls i)))

pub concat-drop-line :
    (i : ℕ) (ls : List Text)
    → concat (drop i ls) ≡ or_same [] (get_elem? ls i) ++ concat (drop (suc i) ls)
concat-drop-line zero [] = refl
concat-drop-line (suc i) [] = refl
concat-drop-line zero (l ∷ ls) = refl
concat-drop-line (suc i) (l ∷ ls) = concat-drop-line i ls
