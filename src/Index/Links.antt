-- ===== src/Index/Links.antt =====
-- src/vault/index.rs: what the loops over links do to the table of backlinks.
use obsidian_mcp_semantic_me.Base.{
  ◌≡◌, inl, inr, Bool, false, not, ◌&&◌, ◌||◌, Option, none, some, List, [], ◌∷◌, arith, Text,
  text_eq, text_eq_iff, any, Dict, lookup, or_empty, member, set_insert, set_remove, lookup-insert,
  lookup-remove, member-set_insert, member-set_remove, IsUnique, if◌then◌else◌, Option-cases,
}
use obsidian_mcp_semantic_me.Error.{NoteMetadata, WikiLink}
use obsidian_mcp_semantic_me.Index.{
  put_sources, unlink_source, link_source, target_of, drop_links, add_links, rebuild_from, links_of,
}

-- `source` is listed under `target`.
abbrev pub lists : Dict (List Text) → Text → Text → Bool
lists m source target = member source (or_empty (lookup target m))

abbrev pub is_target : Text → Option Text → Bool
is_target target none = false
is_target target (some p) = text_eq p target

lists-link_source :
    (path resolved s t : Text) (m : Dict (List Text))
    → lists (link_source path resolved m) s t
      ≡ (lists m s t || (text_eq path s && text_eq resolved t))
lists-link_source path resolved s t m = ground (
  arith,
  lookup-insert resolved t (set_insert path (or_empty (lookup resolved m))) m,
  member-set_insert path s (or_empty (lookup resolved m)),
  text_eq_iff resolved t,
)

lists-put_sources :
    (resolved s t : Text) (sources : List Text) (m : Dict (List Text))
    → lists (put_sources resolved sources m) s t
      ≡ (if text_eq resolved t then member s sources else lists m s t)
unfolding member
lists-put_sources resolved s t [] m = ground (arith, lookup-remove resolved t m)
lists-put_sources resolved s t (p ∷ ps) m = ground (arith, lookup-insert resolved t (p ∷ ps) m)

lists-unlink_source :
    (path resolved s t : Text) (m : Dict (List Text))
    → lists (unlink_source path resolved m) s t
      ≡ (lists m s t && not (text_eq path s && text_eq resolved t))
unfolding member
lists-unlink_source path resolved s t m = elim (Option-cases (lookup resolved m)) [
  | inl e ↦ rw (e, unlink_source) (ground (arith, text_eq_iff resolved t))
  | inr (sources, e) ↦
      rw (e, unlink_source)
        (ground (
          arith,
          lists-put_sources resolved s t (set_remove path sources) m,
          member-set_remove path s sources,
          text_eq_iff resolved t,
        ))
]

module _ (res : Text → Option Text) where
  -- One of the links resolves to `target`.
  abbrev pub links_to : Text → List WikiLink → Bool
  links_to target links = any (λ link. is_target target (target_of res link)) links

  pub lists-add_links :
      (path s t : Text) (links : List WikiLink) (m : Dict (List Text))
      → lists (add_links res path links m) s t
        ≡ (lists m s t || (text_eq path s && links_to t links))
  unfolding add_links
  lists-add_links path s t [] m = ground arith
  lists-add_links path s t (link ∷ links) m = elim (Option-cases (target_of res link)) [
    | inl e ↦ rw (e, add_links) (lists-add_links path s t links m)
    | inr (p, e) ↦
        rw (e, add_links)
          (ground (
            arith,
            lists-add_links path s t links (link_source path p m),
            lists-link_source path p s t m,
          ))
  ]

  pub lists-drop_links :
      (path s t : Text) (links : List WikiLink) (m : Dict (List Text))
      → lists (drop_links res path links m) s t
        ≡ (lists m s t && not (text_eq path s && links_to t links))
  unfolding drop_links
  lists-drop_links path s t [] m = ground arith
  lists-drop_links path s t (link ∷ links) m = elim (Option-cases (target_of res link)) [
    | inl e ↦ rw (e, drop_links) (lists-drop_links path s t links m)
    | inr (p, e) ↦
        rw (e, drop_links)
          (ground (
            arith,
            lists-drop_links path s t links (unlink_source path p m),
            lists-unlink_source path p s t m,
          ))
  ]

  -- The note at `source` has a link to `target`.
  abbrev pub is_linked : Dict NoteMetadata → Text → Text → Bool
  is_linked notes source target = links_to target (links_of (lookup source notes))

  pub lists-rebuild_from :
      (notes : Dict NoteMetadata) (m : Dict (List Text)) (s t : Text)
      → IsUnique notes
      → lists (rebuild_from res notes m) s t ≡ (lists m s t || is_linked notes s t)
  unfolding rebuild_from lookup
  lists-rebuild_from [] m s t h = ground arith
  lists-rebuild_from ((k, note) ∷ notes) m s t (fresh, h) = ground (
    arith,
    lists-rebuild_from notes (add_links res k note.links m) s t h,
    lists-add_links k s t note.links m,
    text_eq_iff k s,
  )
