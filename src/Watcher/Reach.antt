-- ===== src/Watcher/Reach.antt =====
-- src/vault/watcher.rs: what holds of the index after any sequence of events.
use obsidian_mcp_semantic_me.Base.{inl, inr, Bool, Option, some, Text, if_rule, Option-cases}
use obsidian_mcp_semantic_me.Error.{Result, ok, err}
use obsidian_mcp_semantic_me.Exclude.{Globset, ExcludeSet, is_excluded}
use obsidian_mcp_semantic_me.Wikilink.{Unicode, forward_slashes}
use obsidian_mcp_semantic_me.Index.{VaultIndex, reindex_file}
use obsidian_mcp_semantic_me.Index.Tags.{
  IsTagged, reindex_file-IsTagged, remove_file-IsTagged, add_excluded_file-IsTagged,
}
use obsidian_mcp_semantic_me.Watcher.{
  after_reindex, Event, Call, Outcome, should_process_path, process_path, process_event,
}

module _ (u : Unicode) (g : Globset) (exclude : ExcludeSet) (succeeds : Option (Call → Bool))
    (has_runtime : Bool) where
  -- One event is processed.
  pub data Step : VaultIndex → VaultIndex → Type 0 where
    processed :
        (idx : VaultIndex) (event : Event)
        → Step idx (process_event u g exclude succeeds has_runtime idx event).index

  pub data Reachable (start : VaultIndex) : VaultIndex → Type 0 where
    started : Reachable start start
    then_step : {idx next : VaultIndex} → Reachable start idx → Step idx next → Reachable start next

  after_reindex-IsTagged :
      (path : Text) (p : VaultIndex × Result (Unit {0}))
      → IsTagged p.0
      → IsTagged (after_reindex u g exclude succeeds has_runtime path p).index
  after_reindex-IsTagged path (next, ok done) h = h
  after_reindex-IsTagged path (next, err e) h = h

  process_path-IsTagged :
      (event : Event) (path : Text) (idx : VaultIndex)
      → IsTagged idx
      → IsTagged (process_path u g exclude succeeds has_runtime event path idx).index
  unfolding process_path
  process_path-IsTagged event path idx h =
      let tagged : Outcome → Type 0 = λ o. IsTagged o.index in
      if_rule tagged (is_excluded g exclude (forward_slashes path))
        (λ _.
          if_rule IsTagged event.exists (λ _. add_excluded_file-IsTagged u idx path h)
            (λ _. remove_file-IsTagged u idx path h))
        (λ _.
          if_rule tagged event.exists
            (λ _.
              after_reindex-IsTagged path (reindex_file u event.parsed idx path)
                (reindex_file-IsTagged u event.parsed idx path h))
            (λ _. remove_file-IsTagged u idx path h))

  process_event-IsTagged :
      (idx : VaultIndex) (event : Event)
      → IsTagged idx
      → IsTagged (process_event u g exclude succeeds has_runtime idx event).index
  unfolding process_event
  process_event-IsTagged idx event h = elim (Option-cases event.relative) [
    | inl e ↦ rw (e, process_event) h
    | inr (path, e) ↦
        rw (e, process_event)
          (if_rule (λ (o : Outcome). IsTagged o.index)
            (should_process_path (some path) event.absolute)
            (λ _. process_path-IsTagged event path idx h) (λ _. h))
  ]

  -- If the table of tags is that of the tags of the notes, then it is so after any sequence of events,
  -- events on notes that cannot be parsed included.
  pub Reachable-IsTagged :
      {start idx : VaultIndex} → IsTagged start → Reachable start idx → IsTagged idx
  Reachable-IsTagged h started = h
  Reachable-IsTagged h (then_step r (processed idx event)) =
      process_event-IsTagged idx event (Reachable-IsTagged h r)
