-- ===== src/Index/Answers.antt =====
-- src/vault/index.rs: what the queries answer where the tables of the index agree with its notes.
use obsidian_mcp_semantic_me.Base.{
  subst, ◌≡◌, refl, sym, ap, ◌∙◌, inl, inr, ◌↔◌, true, none, some, List, [], ◌∷◌, arith, Any, Text,
  text_eq, text_eq_iff, Dict, lookup, or_empty, member, Option-cases, Bool-cases,
}
use obsidian_mcp_semantic_me.Error.{NoteMetadata}
use obsidian_mcp_semantic_me.Wikilink.{Unicode, resolve}
use obsidian_mcp_semantic_me.Index.{VaultIndex}
use obsidian_mcp_semantic_me.Index.Queries.{notes_at, notes_with_tag, backlinks_to}
use obsidian_mcp_semantic_me.Index.Links.{is_linked}
use obsidian_mcp_semantic_me.Index.Backlinks.{IsLinked}
use obsidian_mcp_semantic_me.Index.Tags.{IsTagged}

notes_at-none :
    (notes : Dict NoteMetadata) (p : Text) (paths : List Text)
    → lookup p notes ≡ none
    → notes_at notes (p ∷ paths) ≡ notes_at notes paths
unfolding notes_at
notes_at-none notes p paths e = rw (e, notes_at) refl

notes_at-some :
    (notes : Dict NoteMetadata) (p : Text) (paths : List Text) (note : NoteMetadata)
    → lookup p notes ≡ some note
    → notes_at notes (p ∷ paths) ≡ note ∷ notes_at notes paths
unfolding notes_at
notes_at-some notes p paths note e = rw (e, notes_at) refl

notes_at_sound :
    (notes : Dict NoteMetadata) (paths : List Text) (note : NoteMetadata)
    → Any (λ n. n ≡ note) (notes_at notes paths)
    → (s : Text) × (member s paths ≡ true) × (lookup s notes ≡ some note)
unfolding notes_at member
notes_at_sound notes [] note h = absurd h
notes_at_sound notes (p ∷ paths) note h = elim (Option-cases (lookup p notes)) [
  | inl e ↦
      let rest = subst (λ l. Any (λ n. n ≡ note) l) (notes_at-none notes p paths e) h in
      let (s, m, held) = notes_at_sound notes paths note rest in (s, ground arith, held)
  | inr (found, e) ↦
      elim (subst (λ l. Any (λ n. n ≡ note) l) (notes_at-some notes p paths found e) h) [
        | inl same ↦ (p, ground (arith, text_eq_iff p p), e ∙ ap some same)
        | inr rest ↦
            let (s, m, held) = notes_at_sound notes paths note rest in (s, ground arith, held)
      ]
]

notes_at_complete :
    (notes : Dict NoteMetadata) (paths : List Text) (note : NoteMetadata) (s : Text)
    → member s paths ≡ true
    → lookup s notes ≡ some note
    → Any (λ n. n ≡ note) (notes_at notes paths)
unfolding notes_at member
notes_at_complete notes [] note s m found = absurd (ground arith)
notes_at_complete notes (p ∷ paths) note s m found = elim (Bool-cases (text_eq p s)) [
  | inl e ↦
      let same : p ≡ s = ground (arith, text_eq_iff p s) in
      let here : lookup p notes ≡ some note = rw same found in rw (here, notes_at) (inl refl)
  | inr e ↦
      let later = notes_at_complete notes paths note s (ground arith) found in
      elim (Option-cases (lookup p notes)) [
        | inl n ↦ rw (n, notes_at) later
        | inr (first, n) ↦ rw (n, notes_at) (inr later)
      ]
]

-- Where the table of tags is that of the tags of the notes, `notes_with_tag` gives a note exactly if
-- it is the note of some path and has the tag.
pub notes_with_tag-IsTagged :
    (idx : VaultIndex) (tag : Text) (note : NoteMetadata)
    → IsTagged idx
    → (Any (λ n. n ≡ note) (notes_with_tag idx tag))
      ↔ ((s : Text) × (lookup s idx.notes ≡ some note) × (member tag note.tags ≡ true))
unfolding notes_with_tag
notes_with_tag-IsTagged idx tag note h = (
  (λ a.
      let (s, m, found) = notes_at_sound idx.notes (or_empty (lookup tag idx.tags)) note a in
      (s, found, ground (arith, h.listed s tag))),
  (λ p.
      let (s, found, m) = p in
      notes_at_complete idx.notes (or_empty (lookup tag idx.tags)) note s
        (ground (arith, h.listed s tag)) found),
)

-- Where the backlinks are those of the links of the notes, `backlinks_to` gives a note exactly if it is
-- the note of some path and one of its links, not empty, resolves to the target.
pub backlinks_to-IsLinked :
    (u : Unicode) (idx : VaultIndex) (target : Text) (note : NoteMetadata)
    → IsLinked u idx
    → (Any (λ n. n ≡ note) (backlinks_to idx target)) ↔ (
        (s : Text) × (lookup s idx.notes ≡ some note)
        × (is_linked (resolve u idx.link_resolver) idx.notes s target ≡ true))
unfolding backlinks_to
backlinks_to-IsLinked u idx target note h = (
  (λ a.
      let (s, m, found) =
        notes_at_sound idx.notes (or_empty (lookup target idx.backlinks)) note a in
      (s, found, sym (h s target) ∙ m)),
  (λ p.
      let (s, found, m) = p in
      notes_at_complete idx.notes (or_empty (lookup target idx.backlinks)) note s (h s target ∙ m)
        found),
)
