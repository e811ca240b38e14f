-- ===== src/Frontmatter/Delimiters.antt =====
-- src/vault/frontmatter.rs: where `extract_raw_frontmatter` cuts a note.
use obsidian_mcp_semantic_me.Base.{
  slice, ◌-◌, ◌⊎◌, drop-length, drop-length-append, take-length-append, Bool-cases, ==_iff, ℕ, suc,
  ◌+◌, ◌≡◌, refl, ap, ◌∙◌, inl, inr, true, false, Option, none, some, [], ◌∷◌, ◌++◌, arith, length,
  take, drop, Text, bytes, starts_with,
}
use obsidian_mcp_semantic_me.Frontmatter.{found_at, after_open, extract_raw_frontmatter, find_close}
use obsidian_mcp_semantic_me.Frontmatter.Lines.{
  HasNoFence, IsClosing, IsOpen, IsFindClose, find_close-IsFindClose,
}

-- The parts of a note with frontmatter.
pub record IsSplit (content yaml : Text) (body_start : ℕ) : Type 0 where
  pub opening : Text
  pub closing : Text
  pub opens : (opening ≡ bytes "---\n") ⊎ (opening ≡ bytes "---\r\n")
  pub whole : content ≡ opening ++ (yaml ++ (closing ++ drop body_start content))
  pub fenceless : HasNoFence yaml
  pub closes : IsClosing closing (drop body_start content)

-- A note without one: it does not start with a fence, or no later line is one.
pub data IsPlain (content : Text) : Type 0 where
  not_opened :
      starts_with (bytes "---\n") content ≡ false
      → starts_with (bytes "---\r\n") content ≡ false
      → IsPlain content
  not_closed :
      (opening rest : Text)
      → (opening ≡ bytes "---\n") ⊎ (opening ≡ bytes "---\r\n")
      → content ≡ opening ++ rest
      → IsOpen rest
      → IsPlain content

abbrev pub IsExtracted : Text → Option (Text × ℕ) → Type 0
IsExtracted content none = IsPlain content
IsExtracted content (some (yaml, body_start)) = IsSplit content yaml body_start

starts_with-take : (pat s : Text) → starts_with pat s ≡ true → s ≡ pat ++ drop (length pat) s
unfolding starts_with
starts_with-take [] s h = refl
starts_with-take (p ∷ pat) [] h = absurd (ground arith)
starts_with-take (p ∷ pat) (b ∷ s) h = ground (arith, starts_with-take pat s, ==_iff p b)

found_at-IsExtracted :
    (content opening rest : Text) (found : Option (ℕ × ℕ))
    → (opening ≡ bytes "---\n") ⊎ (opening ≡ bytes "---\r\n")
    → content ≡ opening ++ rest
    → IsFindClose rest 0 found
    → IsExtracted content (found_at content (length opening) found)
found_at-IsExtracted content opening rest none o w h = not_closed opening rest o w h
found_at-IsExtracted content opening rest (some (p, q)) o w h =
    let open_len = length opening in
    let p_is : p ≡ length h.front = (let s = h.starts in omega arith) in
    let rest_is : drop open_len content ≡ rest = ap (drop open_len) w ∙ drop-length opening rest in
    let width : open_len + p - open_len ≡ length h.front = omega arith in
    let next_is : open_len + q ≡ open_len + (length h.front + length h.closing) =
      (let s = h.ends in omega arith) in
    let yaml_is : slice content open_len (open_len + p) ≡ h.front =
      ap (λ n. take n (drop open_len content)) width
      ∙ ap (take (length h.front)) (rest_is ∙ h.whole)
      ∙ take-length-append h.front (h.closing ++ h.back) in
    let back_is : drop (open_len + q) content ≡ h.back =
      ap (λ n. drop n content) next_is
      ∙ ap (drop (open_len + (length h.front + length h.closing)))
          (w ∙ ap (λ t. opening ++ t) h.whole)
      ∙ drop-length-append opening (h.front ++ (h.closing ++ h.back))
          (length h.front + length h.closing)
      ∙ drop-length-append h.front (h.closing ++ h.back) (length h.closing)
      ∙ drop-length h.closing h.back in
    rw yaml_is (record {
      opening = opening;
      closing = h.closing;
      opens = o;
      whole = rw back_is (w ∙ ap (λ t. opening ++ t) h.whole);
      fenceless = h.fenceless;
      closes = rw back_is h.closes;
    })

opened-IsExtracted :
    (content opening : Text)
    → starts_with opening content ≡ true
    → (opening ≡ bytes "---\n") ⊎ (opening ≡ bytes "---\r\n")
    → IsExtracted content (
        found_at content (length opening) (
          find_close
            (suc (length (drop (length opening) content)))
            (drop (length opening) content)
            0))
opened-IsExtracted content opening e o =
    let rest = drop (length opening) content in
    found_at-IsExtracted content opening rest _ o (starts_with-take opening content e)
      (find_close-IsFindClose (suc (length rest)) rest 0 (omega arith))

-- `extract_raw_frontmatter` gives the text between an opening fence and the first line after it that
-- is a fence, and where the body starts; it gives nothing only if there is no such pair of lines.
pub extract_raw_frontmatter-IsExtracted :
    (content : Text) → IsExtracted content (extract_raw_frontmatter content)
unfolding extract_raw_frontmatter after_open
extract_raw_frontmatter-IsExtracted content =
    let opened = opened-IsExtracted content in
    elim (Bool-cases (starts_with (bytes "---\n") content)) [
      | inl e ↦ rw (extract_raw_frontmatter, after_open, e) (opened (bytes "---\n") e (inl refl))
      | inr e ↦ elim (Bool-cases (starts_with (bytes "---\r\n") content)) [
        | inl f ↦
            rw (extract_raw_frontmatter, after_open, e, f) (opened (bytes "---\r\n") f (inr refl))
        | inr f ↦ rw (extract_raw_frontmatter, after_open, e, f) (not_opened e f)
      ]
    ]
