-- ===== src/Chunker/Packing.antt =====
-- src/vault/chunker.rs: which bytes the packed sections hold, and how long they are.
use obsidian_mcp_semantic_me.Base.{
  ℕ, ◌-◌, ◌≤◌, ◌<◌, ◌≡◌, refl, ◌⊎◌, inl, inr, not, ◌&&◌, Bool, true, false, List, [], ◌∷◌, arith,
  Text, length, leb, if_rule, All, Any, keep, Bool-cases,
}
use obsidian_mcp_semantic_me.Chunker.Sections.{
  Section, sections, is_blank_section, pack_from, pack, packed_sections,
}
use obsidian_mcp_semantic_me.Chunker.Tiling.{Tiles, sections-tile}

abbrev pub Holds : ℕ → Section → Type 0
Holds p s = (s.start ≤ p) × (p < s.end)

-- The sections lie in order between `a` and `b`; there may be gaps between them.
abbrev pub IsSpread : ℕ → ℕ → List Section → Type 0
IsSpread a b [] = a ≤ b
IsSpread a b (s ∷ l) = (a ≤ s.start) × (s.start ≤ s.end) × IsSpread s.end b l

IsSpread-Tiles : (a b : ℕ) (l : List Section) → Tiles a b l → IsSpread a b l
IsSpread-Tiles a b [] h = omega arith
IsSpread-Tiles a b (s ∷ l) (e, lt, h) = (omega arith, omega arith, IsSpread-Tiles s.end b l h)

IsSpread-bounds : (a b : ℕ) (l : List Section) → IsSpread a b l → a ≤ b
IsSpread-bounds a b [] h = h
IsSpread-bounds a b (s ∷ l) (p, q, h) = omega (arith, IsSpread-bounds s.end b l h)

IsSpread-le : (a c b : ℕ) (l : List Section) → c ≤ a → IsSpread a b l → IsSpread c b l
IsSpread-le a c b [] le h = omega arith
IsSpread-le a c b (s ∷ l) le (p, q, h) = (omega arith, q, h)

pub IsInside-IsSpread :
    (a b : ℕ) (l : List Section) → IsSpread a b l → All (λ s. (s.start ≤ s.end) × (s.end ≤ b)) l
IsInside-IsSpread a b [] h = tt
IsInside-IsSpread a b (s ∷ l) (p, q, h) =
    ((q, IsSpread-bounds s.end b l h), IsInside-IsSpread s.end b l h)

pub Tiles-Holds : (a b p : ℕ) (l : List Section) → Tiles a b l → a ≤ p → p < b → Any (Holds p) l
Tiles-Holds a b p [] h low high = absurd (omega arith)
Tiles-Holds a b p (s ∷ l) (e, lt, h) low high = elim (Bool-cases (leb s.end p)) [
  | inl later ↦ inr (Tiles-Holds s.end b p l h (ground arith) high)
  | inr here ↦ inl (omega arith, ground arith)
]

pub sections-IsSpread : (body : Text) → IsSpread 0 (length body) (sections body)
sections-IsSpread body = IsSpread-Tiles 0 (length body) (sections body) (sections-tile body)

keep-IsSpread :
    (q : Section → Bool) (a b : ℕ) (l : List Section) → IsSpread a b l → IsSpread a b (keep q l)
keep-IsSpread q a b [] h = h
keep-IsSpread q a b (s ∷ l) (p, r, h) =
    if_rule (IsSpread a b) (q s) (λ _. (p, r, keep-IsSpread q s.end b l h))
      (λ _. IsSpread-le s.end a b _ (omega arith) (keep-IsSpread q s.end b l h))

keep-Holds :
    (q : Section → Bool) (p : ℕ) (l : List Section)
    → Any (Holds p) l
    → Any (Holds p) (keep q l) ⊎ Any (λ s. Holds p s × (q s ≡ false)) l
keep-Holds q p [] h = elim h [ ]
keep-Holds q p (s ∷ l) (inl h) = elim (Bool-cases (q s)) [
  | inl e ↦ rw e (inl (inl h))
  | inr e ↦ inr (inl (h, e))
]
keep-Holds q p (s ∷ l) (inr h) = elim (keep-Holds q p l h) [
  | inl found ↦
      if_rule (λ k. Any (Holds p) k ⊎ Any (λ s. Holds p s × (q s ≡ false)) (s ∷ l)) (q s)
        (λ _. inl (inr found)) (λ _. inl found)
  | inr dropped ↦ inr (inr dropped)
]

pack_from-IsSpread :
    (target a b : ℕ) (first : Section) (growing : Bool) (l : List Section)
    → IsSpread a b (first ∷ l)
    → IsSpread a b (pack_from target first growing l)
unfolding pack_from
pack_from-IsSpread target a b first growing [] h = h
pack_from-IsSpread target a b first growing (s ∷ l) (p, q, (r, t, h)) =
    if_rule (IsSpread a b) (growing && leb (s.end - first.start) target)
      (λ _. pack_from-IsSpread target a b _ true l (p, omega arith, h))
      (λ _. (p, q, pack_from-IsSpread target first.end b s _ l (r, t, h)))

pack_from-Holds :
    (target a b p : ℕ) (first : Section) (growing : Bool) (l : List Section)
    → IsSpread a b (first ∷ l)
    → Any (Holds p) (first ∷ l)
    → Any (Holds p) (pack_from target first growing l)
unfolding pack_from
pack_from-Holds target a b p first growing [] sp h = h
pack_from-Holds target a b p first growing (s ∷ l) (x, q, (r, t, sp)) h =
    if_rule (Any (Holds p)) (growing && leb (s.end - first.start) target)
      (λ _. pack_from-Holds target a b p _ true l (x, omega arith, sp) (joined h))
      (λ _. elim h [
        | inl here ↦ inl here
        | inr later ↦ inr (
            pack_from-Holds target first.end b p s (leb (s.end - s.start) target) l (r, t, sp)
              later)
      ])
  where
    joined :
        Any (Holds p) (first ∷ s ∷ l)
        → Any (Holds p) (record { path = first.path; start = first.start; end = s.end } ∷ l)
    joined (inl (low, high)) = inl (low, omega arith)
    joined (inr (inl (low, high))) = inl (omega arith, high)
    joined (inr (inr later)) = inr later

pub packed_sections-IsSpread :
    (body : Text) (target : ℕ) → IsSpread 0 (length body) (packed_sections body target)
unfolding packed_sections pack
packed_sections-IsSpread body target =
    spread (keep _ (sections body)) (keep-IsSpread _ 0 (length body) _ (sections-IsSpread body))
  where
    spread :
        (l : List Section) → IsSpread 0 (length body) l → IsSpread 0 (length body) (pack target l)
    spread [] h = h
    spread (s ∷ l) h = pack_from-IsSpread target 0 (length body) s _ l h

-- A byte is in a packed section, or in a section that is blank.
pub packed_sections-Holds :
    (body : Text) (target p : ℕ)
    → p < length body
    → Any (Holds p) (packed_sections body target)
      ⊎ Any (λ s. Holds p s × (not (is_blank_section body s) ≡ false)) (sections body)
unfolding packed_sections pack
packed_sections-Holds body target p h =
    let in_one =
      Tiles-Holds 0 (length body) p (sections body) (sections-tile body) (omega arith) h in
    let kept = λ (s : Section). not (is_blank_section body s) in
    elim (keep-Holds kept p (sections body) in_one) [
      | inl found ↦ inl (
          held (keep kept (sections body))
            (keep-IsSpread kept 0 (length body) _ (sections-IsSpread body)) found)
      | inr dropped ↦ inr dropped
    ]
  where
    held :
        (l : List Section)
        → IsSpread 0 (length body) l
        → Any (Holds p) l
        → Any (Holds p) (pack target l)
    held [] sp h = elim h [ ]
    held (s ∷ l) sp h = pack_from-Holds target 0 (length body) p s _ l sp h

-- Within the target, or one of the given sections as it was.
abbrev pub IsPacked : ℕ → List Section → Section → Type 0
IsPacked target given t = (t.end - t.start ≤ target) ⊎ Any (λ s. s ≡ t) given

All-IsPacked_cons :
    (target : ℕ) (s : Section) (given l : List Section)
    → All (IsPacked target given) l
    → All (IsPacked target (s ∷ given)) l
All-IsPacked_cons target s given [] h = tt
All-IsPacked_cons target s given (t ∷ l) (inl short, h) =
    (inl short, All-IsPacked_cons target s given l h)
All-IsPacked_cons target s given (t ∷ l) (inr old, h) =
    (inr (inr old), All-IsPacked_cons target s given l h)

pack_from-IsPacked :
    (target : ℕ) (first original : Section) (growing : Bool) (l : List Section)
    → (growing ≡ true → first.end - first.start ≤ target)
    → (growing ≡ false → original ≡ first)
    → All (IsPacked target (original ∷ l)) (pack_from target first growing l)
unfolding pack_from
pack_from-IsPacked target first original true [] small same = (inl (small refl), tt)
pack_from-IsPacked target first original false [] small same = (inr (inl (same refl)), tt)
pack_from-IsPacked target first original growing (s ∷ l) small same =
    if_rule (All (IsPacked target (original ∷ s ∷ l))) (growing && leb (s.end - first.start) target)
      (λ e. All-IsPacked_cons target original (s ∷ l) _ (
        pack_from-IsPacked target (record first { end = s.end }) s true l (λ _. ground arith)
          (λ no_growth. cc)))
      (λ _. (
        chosen growing small same,
        All-IsPacked_cons target original (s ∷ l) _ (
            pack_from-IsPacked target s s (leb (s.end - s.start) target) l (λ e. ground arith)
              (λ _. refl)),
      ))
  where
    chosen :
        (g : Bool)
        → (g ≡ true → first.end - first.start ≤ target)
        → (g ≡ false → original ≡ first)
        → IsPacked target (original ∷ s ∷ l) first
    chosen true small same = inl (small refl)
    chosen false small same = inr (inl (same refl))

-- A section that packing returns spans at most `target` bytes, or is one of the sections of the
-- body, not blank and unchanged.
pub packed_sections-IsPacked :
    (body : Text) (target : ℕ)
    → All
        (IsPacked target (keep (λ s. not (is_blank_section body s)) (sections body)))
        (packed_sections body target)
unfolding packed_sections pack
packed_sections-IsPacked body target = start (keep _ (sections body))
  where
    start : (l : List Section) → All (IsPacked target l) (pack target l)
    start [] = tt
    start (s ∷ l) = pack_from-IsPacked target s s _ l (λ e. ground arith) (λ _. refl)
