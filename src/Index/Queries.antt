-- ===== src/Index/Queries.antt =====
-- src/vault/index.rs: the queries of the index.
use obsidian_mcp_semantic_me.Base.{
  Bool, not, ◌&&◌, ◌||◌, none, some, List, [], ◌∷◌, ◌++◌, foldl, Text, bytes, text_eq, any,
  is_empty, starts_with, Dict, lookup, or_empty, set_insert, if◌then◌else◌,
}
use obsidian_mcp_semantic_me.Error.{NoteMetadata, WikiLink}
use obsidian_mcp_semantic_me.Wikilink.{Unicode, LinkResolver, is_resolved}
use obsidian_mcp_semantic_me.Index.{VaultIndex, is_empty_set, links_of}

module _ (u : Unicode) where
  abbrev pub broken_in : LinkResolver → Text → List WikiLink → List (Text × WikiLink)
  broken_in r path [] = []
  broken_in r path (link ∷ links) =
      if not (is_empty link.target) && not (is_resolved u r link.target)
      then (path, link) ∷ broken_in r path links
      else broken_in r path links

  abbrev pub broken_from : LinkResolver → Dict NoteMetadata → List (Text × WikiLink)
  broken_from r [] = []
  broken_from r ((path, note) ∷ notes) = broken_in r path note.links ++ broken_from r notes

  unfoldable pub broken_links : VaultIndex → List (Text × WikiLink)
  broken_links idx = broken_from idx.link_resolver idx.notes

-- The notes at the paths that are indexed: `filter_map(|p| self.notes.get(p))`.
unfoldable pub notes_at : Dict NoteMetadata → List Text → List NoteMetadata
notes_at notes [] = []
notes_at notes (p ∷ ps) = elim (lookup p notes) [
  | none ↦ notes_at notes ps
  | some note ↦ note ∷ notes_at notes ps
]

unfoldable pub notes_with_tag : VaultIndex → Text → List NoteMetadata
notes_with_tag idx tag = notes_at idx.notes (or_empty (lookup tag idx.tags))

unfoldable pub backlinks_to : VaultIndex → Text → List NoteMetadata
backlinks_to idx path = notes_at idx.notes (or_empty (lookup path idx.backlinks))

unfoldable pub outgoing_links : VaultIndex → Text → List WikiLink
outgoing_links idx path = links_of (lookup path idx.notes)

-- The paths under the matching tags, each once: the set `seen` of `notes_with_tag_prefix`.
unfoldable pub paths_under : (Text → Bool) → Dict (List Text) → List Text → List Text
paths_under matches [] seen = seen
paths_under matches ((tag, paths) ∷ tags) seen =
    paths_under matches tags
      (if matches tag then foldl (λ s p. set_insert p s) seen paths else seen)

unfoldable pub notes_with_tag_prefix : VaultIndex → Text → List NoteMetadata
notes_with_tag_prefix idx prefix =
    notes_at idx.notes
      (paths_under (λ tag. text_eq tag prefix || starts_with (prefix ++ bytes "/") tag) idx.tags [])

abbrev pub is_orphan : Dict (List Text) → Text → NoteMetadata → Bool
is_orphan backlinks path note =
    is_empty_set (or_empty (lookup path backlinks))
    && not (any (λ l. not (is_empty l.target)) note.links)

abbrev pub orphans_from : Dict (List Text) → Dict NoteMetadata → List NoteMetadata
orphans_from backlinks [] = []
orphans_from backlinks ((path, note) ∷ notes) =
    if is_orphan backlinks path note
    then note ∷ orphans_from backlinks notes
    else orphans_from backlinks notes

unfoldable pub orphan_notes : VaultIndex → List NoteMetadata
orphan_notes idx = orphans_from idx.backlinks idx.notes
