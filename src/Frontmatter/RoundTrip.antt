-- ===== src/Frontmatter/RoundTrip.antt =====
-- src/vault/frontmatter.rs: what is read again from a note whose frontmatter was changed.
use obsidian_mcp_semantic_me.Base.{
  ◌-◌, trim_end_matches, ℕ, zero, suc, ◌+◌, ◌<◌, ◌≡◌, refl, ap, ◌∙◌, inr, false, some, [], ◌∷◌,
  ◌++◌, arith, length, drop, append_assoc, length-append, Text, bytes, text_eq, is_empty, trim,
  starts_with, has_byte, find, take-length-append, drop-length-append,
}
use obsidian_mcp_semantic_me.Error.{ok, ◌>>=◌, Json, object, Fields, end, field}
use obsidian_mcp_semantic_me.Frontmatter.{
  Serde, is_fence, find_close, after_open, extract_raw_frontmatter, get_body, set_field, is_end,
  parse_yaml, parse_frontmatter, serialized, rebuild_content, fields_or_empty,
  set_frontmatter_field,
}
use obsidian_mcp_semantic_me.Frontmatter.Lines.{HasNoFence, no_line, add_line, find-append}

find_close-line :
    (fuel : ℕ) (line t : Text) (pos : ℕ)
    → has_byte b'\n' line ≡ false
    → is_fence line ≡ false
    → find_close (suc fuel) (line ++ b'\n' ∷ t) pos ≡ find_close fuel t (pos + suc (length line))
unfolding find_close
find_close-line fuel line t pos m n =
    let one : suc (length line) ≡ length line + 1 = omega arith in
    let after : drop (suc (length line)) (line ++ b'\n' ∷ t) ≡ t =
      ap (λ k. drop k (line ++ b'\n' ∷ t)) one ∙ drop-length-append line (b'\n' ∷ t) 1 in
    rw (find-append line t m, find_close, take-length-append line (b'\n' ∷ t), after, n) refl

find_close-fence :
    (fuel : ℕ) (yaml body : Text) (pos : ℕ)
    → HasNoFence yaml
    → length yaml < fuel
    → find_close fuel (yaml ++ (bytes "---\n" ++ body)) pos
      ≡ some (pos + length yaml, pos + length yaml + 4)
unfolding find_close find starts_with trim_end_matches text_eq
find_close-fence zero yaml body pos h k = absurd (omega arith)
find_close-fence (suc fuel) [] body pos no_line k = ground arith
find_close-fence (suc fuel) _ body pos (add_line line rest m n h) k =
    let t = rest ++ (bytes "---\n" ++ body) in
    let long = length-append line (b'\n' ∷ rest) in
    let later = find_close-fence fuel rest body (pos + suc (length line)) h (ground arith) in
    let same : pos + suc (length line) + length rest ≡ pos + length (line ++ b'\n' ∷ rest) =
      ground arith in
    ap (λ s. find_close (suc fuel) s pos) (append_assoc line (b'\n' ∷ rest) (bytes "---\n" ++ body))
    ∙ find_close-line fuel line t pos m n
    ∙ later
    ∙ ap (λ k. some (k, k + 4)) same

-- The text that `rebuild_content` writes is cut where it was put together.
extract_raw_frontmatter-serialized :
    (yaml body : Text)
    → HasNoFence yaml
    → extract_raw_frontmatter (bytes "---\n" ++ yaml ++ bytes "---\n" ++ body)
      ≡ some (yaml, 4 + (length yaml + 4))
unfolding extract_raw_frontmatter after_open starts_with
extract_raw_frontmatter-serialized yaml body h =
    let rest = yaml ++ (bytes "---\n" ++ body) in
    let closed =
      find_close-fence (suc (length rest)) yaml body 0 h
        (ground (arith, length-append yaml (bytes "---\n" ++ body))) in
    let width : 4 + (0 + length yaml) - 4 ≡ length yaml = omega arith in
    let from_zero : 0 + length yaml ≡ length yaml = omega arith in
    rw
      (
        append_assoc yaml (bytes "---\n") body,
        closed,
        width,
        from_zero,
        take-length-append yaml (bytes "---\n" ++ body),
      )
      refl

get_body-found :
    (content yaml : Text) (n : ℕ)
    → extract_raw_frontmatter content ≡ some (yaml, n)
    → get_body content ≡ drop n content
unfolding get_body
get_body-found content yaml n e = rw (e, get_body) refl

parse_frontmatter-found :
    (serde : Serde) (content yaml : Text) (n : ℕ)
    → extract_raw_frontmatter content ≡ some (yaml, n)
    → parse_frontmatter serde content ≡ parse_yaml serde yaml
unfolding parse_frontmatter
parse_frontmatter-found serde content yaml n e = rw (e, parse_frontmatter) refl

get_body-serialized :
    (yaml body : Text)
    → HasNoFence yaml
    → get_body (bytes "---\n" ++ yaml ++ bytes "---\n" ++ body) ≡ body
get_body-serialized yaml body h =
    let note = bytes "---\n" ++ yaml ++ bytes "---\n" ++ body in
    let ahead : 4 + (length yaml + 4) ≡ suc (suc (suc (suc (length yaml + 4)))) = omega arith in
    get_body-found note yaml (4 + (length yaml + 4))
      (extract_raw_frontmatter-serialized yaml body h)
    ∙ ap (λ k. drop k note) ahead
    ∙ ap (drop (length yaml + 4)) (append_assoc yaml (bytes "---\n") body)
    ∙ drop-length-append yaml (bytes "---\n" ++ body) 4

set_field-is_end :
    (key : Text) (value : Json) (fields : Fields) → is_end (set_field key value fields) ≡ false
unfolding set_field
set_field-is_end key value end = refl
set_field-is_end key value (field k v rest) = ground arith

-- The text of a mapping: whole lines, none of them a fence, which is read as the mapping again.
pub record IsPrinted (serde : Serde) (fields : Fields) : Type 0 where
  pub yaml : Text
  pub printed : serde.to_string (object fields) ≡ inr yaml
  pub fenceless : HasNoFence yaml
  pub not_blank : is_empty (trim yaml) ≡ false
  pub read : serde.from_str yaml ≡ inr (object fields)

-- If the frontmatter of a note is read as `fields`, or it has none and they are empty, and the text
-- of the changed mapping is read as that mapping, then `set_frontmatter_field` succeeds, the note
-- that it gives has the changed mapping as its frontmatter, and its body is the same.
pub set_frontmatter_field-parse :
    (serde : Serde) (content key : Text) (value : Json) (fields : Fields)
    → (parse_frontmatter serde content >>= fields_or_empty serde) ≡ ok fields
    → IsPrinted serde (set_field key value fields)
    → (note : Text) × (set_frontmatter_field serde content key value ≡ ok note)
      × (parse_frontmatter serde note ≡ ok (some (object (set_field key value fields))))
      × (get_body note ≡ get_body content)
unfolding set_frontmatter_field rebuild_content serialized parse_yaml
set_frontmatter_field-parse serde content key value fields read printed =
    let body = get_body content in
    let note = bytes "---\n" ++ printed.yaml ++ bytes "---\n" ++ body in
    let cut = extract_raw_frontmatter-serialized printed.yaml body printed.fenceless in
    let whole = set_field-is_end key value fields in
    (
      note,
      rw (set_frontmatter_field, read, rebuild_content, whole, serialized, printed.printed) refl,
      parse_frontmatter-found serde note printed.yaml _ cut
          ∙ rw (printed.not_blank, parse_yaml, printed.read) refl,
      get_body-serialized printed.yaml body printed.fenceless,
    )
