-- ===== src/Vault/Operations.antt =====
-- src/vault/mod.rs: sequences of the operations on notes.
use obsidian_mcp_semantic_me.Base.{Option, List, [], ◌∷◌, Text}
use obsidian_mcp_semantic_me.Error.{Result, ok, Json}
use obsidian_mcp_semantic_me.Vault.Moves.{delete_note-IsSynced, move_note-IsSynced}
use obsidian_mcp_semantic_me.Vault.Synced.{
  and_then-rule, IsCanonical, IsSynced, write_note-IsSynced, append_note-IsSynced,
  create_note-IsSynced, rewrite_note-IsSynced,
}
use obsidian_mcp_semantic_me.Vault.{
  and_then, Vault, Setting, write_note, append_note, create_note, prepend_note, set_note_field,
  remove_note_field, delete_note, move_note,
}

-- A call of the vault, with its arguments.
pub data Operation : Type 0 where
  write append prepend : Text → Text → Operation
  create : Text → Text → Option Json → Operation
  set_field : Text → Text → Json → Operation
  remove_field : Text → Text → Operation
  delete : Text → Operation
  move : Text → Text → Operation

module _ (s : Setting) where
  -- The vault that the call leaves, and its answer, without the path that `move_note` gives.
  unfoldable pub perform : Operation → Vault → Vault × Result (Unit {0})
  perform (write path content) v = write_note s v path content
  perform (append path content) v = append_note s v path content
  perform (prepend path content) v = prepend_note s v path content
  perform (create path content frontmatter) v = create_note s v path content frontmatter
  perform (set_field path key value) v = set_note_field s v path key value
  perform (remove_field path key) v = remove_note_field s v path key
  perform (delete path) v = delete_note s v path
  perform (move from to) v = and_then (move_note s v from to) (λ w _. (w, ok tt))

  unfoldable pub perform_all : List Operation → Vault → Vault
  perform_all [] v = v
  perform_all (o ∷ os) v = perform_all os (perform o v).0

  perform-IsSynced :
      IsCanonical s.disk → (o : Operation) (v : Vault) → IsSynced s v → IsSynced s (perform o v).0
  unfolding perform prepend_note set_note_field remove_note_field
  perform-IsSynced c (write path content) v h = write_note-IsSynced s c v path content h
  perform-IsSynced c (append path content) v h = append_note-IsSynced s c v path content h
  perform-IsSynced c (prepend path content) v h = rewrite_note-IsSynced s c _ v path h
  perform-IsSynced c (create path content frontmatter) v h =
      create_note-IsSynced s c v path content frontmatter h
  perform-IsSynced c (set_field path key value) v h = rewrite_note-IsSynced s c _ v path h
  perform-IsSynced c (remove_field path key) v h = rewrite_note-IsSynced s c _ v path h
  perform-IsSynced c (delete path) v h = delete_note-IsSynced s v path h
  perform-IsSynced c (move from to) v h =
      and_then-rule (IsSynced s) (move_note s v from to) _ (move_note-IsSynced s v from to h)
        (λ w _ k. k)

-- After any sequence of operations on notes, of which any may fail, the index has exactly the notes that
-- the files parse as and that are not excluded, if it had before. It needs that a path that was
-- resolved for writing resolves to itself once the file is there.
pub perform_all-IsSynced :
    (s : Setting) (os : List Operation) (v : Vault)
    → IsCanonical s.disk
    → IsSynced s v
    → IsSynced s (perform_all s os v)
unfolding perform_all
perform_all-IsSynced s [] v c h = h
perform_all-IsSynced s (o ∷ os) v c h =
    perform_all-IsSynced s os (perform s o v).0 c (perform-IsSynced s c o v h)
