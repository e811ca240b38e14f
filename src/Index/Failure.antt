-- ===== src/Index/Failure.antt =====
-- src/vault/index.rs: what `reindex_file` leaves behind when the note cannot be parsed.
use obsidian_mcp_semantic_me.Base.{
  ◌+◌, ◌≡◌, refl, ap, ◌∙◌, sym, none, some, [], ◌∷◌, arith, Text, text_eq_iff, length, Dict, lookup,
  remove, IsUnique, set_remove,
}
use obsidian_mcp_semantic_me.Error.{Result, err, VaultError, NoteMetadata}
use obsidian_mcp_semantic_me.Wikilink.{Unicode}
use obsidian_mcp_semantic_me.Index.{
  VaultIndex, remove_note_contributions, stats_of, forget, reindex_file,
}
use obsidian_mcp_semantic_me.Index.Backlinks.{backlinks-remove_note_contributions}

length-remove_absent :
    {V : Type 0} (k : Text) (m : Dict V) → lookup k m ≡ none → length (remove k m) ≡ length m
unfolding lookup remove
length-remove_absent k [] h = refl
length-remove_absent k ((j, v) ∷ m) h = ground (arith, length-remove_absent k m)

pub length-remove :
    {V : Type 0} (k : Text) (m : Dict V) (v : V)
    → IsUnique m
    → lookup k m ≡ some v
    → length (remove k m) + 1 ≡ length m
unfolding lookup remove
length-remove k [] v h e = absurd (ground arith)
length-remove k ((j, w) ∷ m) v (fresh, h) e =
    ground (arith, length-remove k m v h, length-remove_absent k m, text_eq_iff j k)

notes_left :
    (path : Text) (note : NoteMetadata) (start : VaultIndex)
    → lookup path start.notes ≡ some note
    → (remove_note_contributions path start).notes ≡ remove path start.notes
unfolding remove_note_contributions
notes_left path note start found = rw (found, remove_note_contributions)

-- If a note that the index has cannot be parsed, the call gives the error of the parser. It has then
-- taken the note out of the notes, but all backlinks and all statistics are those of before. It needs
-- that no path has two notes and that the statistics were right; `total_notes` then counts one note too
-- many.
pub reindex_file-stale :
    (u : Unicode) (parse : Text → Result NoteMetadata) (idx : VaultIndex) (path : Text)
    (note : NoteMetadata) (e : VaultError)
    → parse path ≡ err e
    → IsUnique idx.notes
    → lookup path idx.notes ≡ some note
    → idx.stats ≡ stats_of idx
    → ((reindex_file u parse idx path).1 ≡ err e)
      × ((reindex_file u parse idx path).0.notes ≡ remove path idx.notes)
      × ((reindex_file u parse idx path).0.backlinks ≡ idx.backlinks)
      × ((reindex_file u parse idx path).0.stats ≡ idx.stats)
      × ((reindex_file u parse idx path).0.stats.total_notes
          ≡ length (reindex_file u parse idx path).0.notes + 1)
unfolding reindex_file forget stats_of
reindex_file-stale u parse idx path note e failed unique found fresh =
    let start : VaultIndex = record idx {
      excluded_note_paths = set_remove path idx.excluded_note_paths;
    } in
    let (same_links, _, same_stats) = backlinks-remove_note_contributions path start in
    rw (failed, reindex_file)
      (
        refl,
        notes_left path note start found,
        same_links,
        same_stats,
        ap (λ s. s.total_notes) (same_stats ∙ fresh)
            ∙ sym (length-remove path idx.notes note unique found)
            ∙ ap (λ n. length n + 1) (sym (notes_left path note start found)),
      )
