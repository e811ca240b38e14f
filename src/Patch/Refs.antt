-- ===== src/Patch/Refs.antt =====
-- src/vault/patch.rs: what a patch at a block reference does to the lines of a note.
use obsidian_mcp_semantic_me.Base.{
  subst, length-append, rfind, slice, sym, ap, ◌∙◌, take-length-append, append_assoc, ℕ, suc, ◌+◌,
  ◌≤◌, ◌<◌, ◌≡◌, refl, inl, inr, ◌⊎◌, none, some, List, [], ◌∷◌, ◌++◌, arith, length, take, drop,
  get_elem?, get_elem?-some, Text, bytes, lines, length-lines, split_inclusive, add_front,
  strip_prefix, Bool-cases, Option-cases,
}
use obsidian_mcp_semantic_me.Error.{◌>>=◌, Result, ok, err}
use obsidian_mcp_semantic_me.Patch.Lines.{
  drop-parts, slice-end, drop-append, cut_at, concat-take-line, concat-drop-line, slice-parts,
  trim_eol-split, line_offset-length, concat, take-line_offset, drop-line_offset,
}
use obsidian_mcp_semantic_me.Patch.Blocks.{
  trim_eol, with_space, or_same, ends_with_ref, first_ref, find_block_ref_line, block_not_found,
  patch_block_line, patch_block, replace_block,
}
use obsidian_mcp_semantic_me.Patch.{
  replace, PatchOperation, append, prepend, PatchRequest, Scan, start_scan, scan_patch_line,
  non_code_from, for_each_non_code_line, offsets_from, line_byte_offsets, line_offset, or_len,
  ensure_newline,
}

first_ref-non_code_from :
    (suffix : Text) (s : Scan) (idx : ℕ) (ls : List Text) (i : ℕ)
    → first_ref suffix (non_code_from s idx ls) ≡ some i
    → i < idx + length ls
unfolding first_ref non_code_from
first_ref-non_code_from suffix s idx [] i h = absurd (ground arith)
first_ref-non_code_from suffix s idx (line ∷ ls) i h =
    let next = scan_patch_line s idx line in
    let later = first_ref-non_code_from suffix next.0 (suc idx) ls i in
    elim (Bool-cases next.1) [
      | inr e ↦ let rest = later (ground arith) in omega arith
      | inl e ↦ elim (Bool-cases (ends_with_ref suffix line)) [
        | inl f ↦ ground arith
        | inr f ↦ let rest = later (ground arith) in omega arith
      ]
    ]

length-add_front : (b m : ℕ) (ls : List Text) → length ls ≤ suc m → length (add_front b ls) ≤ suc m
length-add_front b m [] h = omega arith
length-add_front b m (l ∷ ls) h = h

-- There is an offset for each line.
length-offsets_from :
    (i : ℕ) (s : Text) → length (split_inclusive s) ≤ suc (length (offsets_from i s))
unfolding offsets_from split_inclusive
length-offsets_from i [] = omega arith
length-offsets_from i (b ∷ s) =
    let later = length-offsets_from (suc i) s in
    ground (arith, length-add_front b (length (offsets_from (suc i) s)) (split_inclusive s) later)

find_block_ref_line-offset :
    (content block_id : Text) (i : ℕ)
    → find_block_ref_line content block_id ≡ some i
    → or_len 0 (get_elem? (line_byte_offsets content) i)
      ≡ line_offset (line_byte_offsets content) i (length content)
unfolding find_block_ref_line for_each_non_code_line line_offset line_byte_offsets
find_block_ref_line-offset content block_id i h =
    let inside = first_ref-non_code_from (b'^' ∷ block_id) start_scan 0 (lines content) i h in
    let (offset, e) =
      get_elem?-some (0 ∷ offsets_from 0 content) i
        (ground (arith, length-lines content, length-offsets_from 0 content)) in
    rw e refl

abbrev pub id_of : PatchRequest → Text
id_of request = or_same request.target (strip_prefix (bytes "^") request.target)

-- The line with the text of the request, and a space, in place of what is in front of the last
-- reference in it.
unfoldable pub replaced_ref : PatchRequest → Text → Text → Result Text
replaced_ref request path line = elim (rfind (b'^' ∷ id_of request) (trim_eol line)) [
  | none ↦ err (block_not_found request path)
  | some pos ↦ ok (with_space request.content ++ drop pos line)
]

-- The note with the text of the request put in, in front of line `i`, at the end of it, or in place of
-- what the line has before its reference.
unfoldable pub patched_ref : Text → PatchRequest → Text → ℕ → Result Text
patched_ref content request path i =
    let ls = split_inclusive content in
    let above = concat (take i ls) in
    let line = or_same [] (get_elem? ls i) in
    let below = concat (drop (suc i) ls) in
    elim request.operation [
      | prepend ↦ ok (ensure_newline (above ++ request.content) ++ (line ++ below))
      | append ↦ ok (ensure_newline (above ++ line ++ request.content) ++ below)
      | replace ↦ replaced_ref request path line >>= (λ changed. ok (above ++ changed ++ below))
    ]

PatchOperation-cases : (o : PatchOperation) → (o ≡ prepend) ⊎ ((o ≡ append) ⊎ (o ≡ replace))
PatchOperation-cases prepend = inl refl
PatchOperation-cases append = inr (inl refl)
PatchOperation-cases replace = inr (inr refl)

rfind-bound : (pat s : Text) (p : ℕ) → rfind pat s ≡ some p → p ≤ length s
unfolding rfind
rfind-bound pat [] p h = absurd (ground arith)
rfind-bound pat (b ∷ s) p h = elim (Option-cases (rfind pat s)) [
  | inl e ↦ ground arith
  | inr (q, e) ↦ let later = rfind-bound pat s q e in ground arith
]

joined : (a b c d : Text) → ((a ++ b) ++ c) ++ d ≡ a ++ (b ++ (c ++ d))
joined a b c d = append_assoc (a ++ b) c d ∙ append_assoc a b (c ++ d)

-- What `replace_block` makes of a note that is given as what is above the line, the line, and what is
-- below it.
replace_block-parts :
    (request : PatchRequest) (path above line below : Text)
    → replace_block
        (above ++ (line ++ below))
        request
        path
        (id_of request)
        (length above)
        (length above + length line)
      ≡ (replaced_ref request path line >>= (λ changed. ok (above ++ changed ++ below)))
unfolding replace_block replaced_ref
replace_block-parts request path above line below =
    let (eol, split) = trim_eol-split line in
    let front = trim_eol line in
    let ending : slice (above ++ (line ++ below)) (length above + length front)
          (length above + length line)
        ≡ eol =
      subst
        (λ l.
          slice (above ++ (l ++ below)) (length above + length front) (length above + length l)
          ≡ eol)
        (sym split) (slice-end above front eol below) in
    let raw = slice-parts above line below in
    let found = ap (λ l. rfind (b'^' ∷ id_of request) (trim_eol l)) raw in
    elim (Option-cases (rfind (b'^' ∷ id_of request) front)) [
      | inl e ↦ rw (replace_block, replaced_ref, found ∙ e, e) refl
      | inr (pos, e) ↦
          let dropped : drop pos line ≡ drop pos front ++ eol =
            subst (λ l. drop pos l ≡ drop pos front ++ eol) (sym split)
              (drop-append pos front eol (rfind-bound (b'^' ∷ id_of request) front pos e)) in
          rw
            (
              replace_block,
              replaced_ref,
              found ∙ e,
              e,
              raw,
              ending,
              take-length-append above (line ++ below),
              drop-parts above line below,
              dropped,
            )
            (ap (λ t. ok (t ++ below))
              (joined above (with_space request.content) (drop pos front) eol))
    ]

patch_block_line-patched_ref :
    (content : Text) (request : PatchRequest) (path : Text) (i : ℕ)
    → find_block_ref_line content (id_of request) ≡ some i
    → patch_block_line content request path (id_of request) i ≡ patched_ref content request path i
unfolding patch_block_line patched_ref
patch_block_line-patched_ref content request path i e =
    let offset = find_block_ref_line-offset content (id_of request) i e in
    let ls = split_inclusive content in
    let above = concat (take i ls) in
    let line = or_same [] (get_elem? ls i) in
    let below = concat (drop (suc i) ls) in
    let next : i + 1 ≡ suc i = omega arith in
    let rest : concat (drop i ls) ≡ line ++ below = concat-drop-line i ls in
    let upto : concat (take (suc i) ls) ≡ above ++ line = concat-take-line i ls in
    let parts : content ≡ above ++ (line ++ below) = cut_at i content ∙ ap (λ t. above ++ t) rest in
    let start : line_offset (line_byte_offsets content) i (length content) ≡ length above =
      line_offset-length i content in
    let end : line_offset (line_byte_offsets content) (suc i) (length content)
        ≡ length above + length line =
      line_offset-length (suc i) content ∙ ap length upto ∙ length-append above line in
    elim (PatchOperation-cases request.operation) [
      | inl o ↦
          rw
            (
              patch_block_line,
              patched_ref,
              o,
              offset,
              take-line_offset i content,
              drop-line_offset i content,
              rest,
            )
            refl
      | inr (inl o) ↦
          rw
            (
              patch_block_line,
              patched_ref,
              o,
              next,
              take-line_offset (suc i) content,
              drop-line_offset (suc i) content,
              upto,
            )
            refl
      | inr (inr o) ↦
          rw (patch_block_line, patched_ref, o, offset, next, start, end)
            (ap
                (λ c.
                  replace_block c request path (id_of request) (length above)
                    (length above + length line))
                parts
              ∙ replace_block-parts request path above line below)
    ]

-- A patch at a block reference is one of the lines of the note, at the line that was found: in front of
-- that line, right at its end, or in place of what it has in front of its last reference. Every other
-- line of the note is kept. It fails with `block_not_found` if there is no such line, and `replace` also
-- where the line has no reference.
pub patch_block-lines :
    (content : Text) (request : PatchRequest) (path : Text)
    → ((find_block_ref_line content (id_of request) ≡ none)
        × (patch_block content request path ≡ err (block_not_found request path)))
      ⊎ ((i : ℕ) × (find_block_ref_line content (id_of request) ≡ some i)
          × (patch_block content request path ≡ patched_ref content request path i))
unfolding patch_block
patch_block-lines content request path =
    elim (Option-cases (find_block_ref_line content (id_of request))) [
      | inl e ↦ inl (e, ground arith)
      | inr (i, e) ↦
          let patched = patch_block_line-patched_ref content request path i e in
          inr (i, e, ground arith)
    ]
