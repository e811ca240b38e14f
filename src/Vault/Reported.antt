-- ===== src/Vault/Reported.antt =====
-- src/vault/mod.rs: the embedding runtime hears of every file that an operation changes.
use obsidian_mcp_semantic_me.Base.{
  ◌≡◌, refl, sym, ◌∙◌, ◌⊎◌, inl, inr, true, false, List, [], ◌∷◌, ◌++◌, append-nil, append_assoc,
  All, Any, Any-append_right, Text, text_eq, text_eq_iff, Dict, lookup, arith, Bool-cases,
  Option-cases,
}
use obsidian_mcp_semantic_me.Error.{Result, ok, err}
use obsidian_mcp_semantic_me.Exclude.{is_excluded}
use obsidian_mcp_semantic_me.Index.{reindex_file, rename_file, remove_file, add_excluded_file}
use obsidian_mcp_semantic_me.Watcher.{
  Call, remove_document, index_document, submit_remove, submit_upsert,
}
use obsidian_mcp_semantic_me.Vault.{
  Vault, Setting, and_then, call_tantivy, submit_intent, index_if_there, reindex_actual, moved_out,
  moved_within, parse_note_metadata,
}

-- An intent for the path.
abbrev pub IsIntent : Text → Call → Type 0
IsIntent path call = (call ≡ submit_remove path) ⊎ (call ≡ submit_upsert path)

-- `w` has the files, and after the calls new ones.
record Grows (calls : List Call) (files : Dict Text) (w : Vault) : Type 0 where
  pub new : List Call
  pub grown : w.calls ≡ calls ++ new
  pub kept : w.files ≡ files

-- An intent for each of the paths is among the new calls.
pub record IsReported (paths : List Text) (calls : List Call) (files : Dict Text) (w : Vault)
    : Type 0 where
  pub new : List Call
  pub grown : w.calls ≡ calls ++ new
  pub kept : w.files ≡ files
  pub intents : All (λ p. Any (IsIntent p) new) paths

later_calls :
    (paths : List Text) (old new : List Call)
    → All (λ p. Any (IsIntent p) new) paths
    → All (λ p. Any (IsIntent p) (old ++ new)) paths
later_calls [] old new h = tt
later_calls (p ∷ ps) old new (i, h) =
    (Any-append_right (IsIntent p) old new i, later_calls ps old new h)

Grows-IsReported :
    (paths : List Text) (calls : List Call) (files : Dict Text) (w x : Vault)
    → Grows calls files w
    → IsReported paths w.calls w.files x
    → IsReported paths calls files x
Grows-IsReported paths calls files w x g r = record {
  new = g.new ++ r.new;
  grown = rw (r.grown, g.grown) (append_assoc calls g.new r.new);
  kept = r.kept ∙ g.kept;
  intents = later_calls paths g.new r.new r.intents;
}

-- If `?` lets a value through, it is what the rest makes of a value.
pub and_then-ok :
    {A B : Type 0} (P : Vault → Type 0) (r : Vault × Result A) (k : Vault → A → Vault × Result B)
    (b : B)
    → ((a : A) → r.1 ≡ ok a → (k r.0 a).1 ≡ ok b → P (k r.0 a).0)
    → (and_then r k).1 ≡ ok b
    → P (and_then r k).0
and_then-ok P (v, ok a) k b f e = f a refl e
and_then-ok P (v, err m) k b f e = absurd (ground arith)

module _ (s : Setting) where
  call_tantivy-Grows : (call : Call) (v : Vault) → Grows v.calls v.files (call_tantivy s call v).0
  unfolding call_tantivy
  call_tantivy-Grows call v = elim (Option-cases s.tantivy) [
    | inl e ↦ rw e (record { new = []; grown = sym (append-nil v.calls); kept = refl })
    | inr (t, e) ↦ rw e (record { new = call ∷ []; grown = refl; kept = refl })
  ]

  index_if_there-Grows :
      (path : Text) (v : Vault) → Grows v.calls v.files (index_if_there s path v).0
  index_if_there-Grows path v = elim (Option-cases (lookup path v.index.notes)) [
    | inl e ↦
        rw (index_if_there, e) (record { new = []; grown = sym (append-nil v.calls); kept = refl })
    | inr (m, e) ↦ rw (index_if_there, e) (call_tantivy-Grows (index_document path) v)
  ]

  submit_intent-IsReported :
      (path : Text) (call : Call) (v : Vault)
      → s.has_runtime ≡ true
      → IsIntent path call
      → IsReported (path ∷ []) v.calls v.files (submit_intent s call v)
  unfolding submit_intent
  submit_intent-IsReported path call v e i =
      rw e (record { new = call ∷ []; grown = refl; kept = refl; intents = (inl i, tt) })

  module _ (enabled : s.has_runtime ≡ true) where
    pub called-IsReported :
        {A : Type 0} (path : Text) (call intent : Call) (a b : A) (v : Vault)
        → IsIntent path intent
        → (and_then (call_tantivy s call v) (λ w _. (submit_intent s intent w, ok a))).1 ≡ ok b
        → IsReported
            (path ∷ [])
            v.calls
            v.files
            (and_then (call_tantivy s call v) (λ w _. (submit_intent s intent w, ok a))).0
    called-IsReported path call intent a b v i =
        and_then-ok (IsReported (path ∷ []) v.calls v.files) (call_tantivy s call v) _ b (λ u _ _.
          Grows-IsReported (path ∷ []) v.calls v.files (call_tantivy s call v).0 _
            (call_tantivy-Grows call v)
            (submit_intent-IsReported path intent (call_tantivy s call v).0 enabled i))

    pub reindex_actual-IsReported :
        (v : Vault) (path : Text) (b : Unit {0})
        → (reindex_actual s v path).1 ≡ ok b
        → IsReported (path ∷ []) v.calls v.files (reindex_actual s v path).0
    unfolding reindex_actual
    reindex_actual-IsReported v path b = elim (Bool-cases (is_excluded s.globset s.exclude path)) [
      | inl x ↦ rw x (λ e.
          called-IsReported path (remove_document path) (submit_remove path) tt b
            (record v { index = add_excluded_file s.unicode v.index path }) (inl refl) e)
      | inr x ↦
          let done = reindex_file s.unicode (parse_note_metadata s v.files) v.index path in
          let indexed = record v { index = done.0 } in
          rw x (
            and_then-ok (IsReported (path ∷ []) v.calls v.files) (indexed, done.1) _ b
              (λ u _.
                and_then-ok (IsReported (path ∷ []) v.calls v.files) (index_if_there s path indexed)
                  _ b
                  (λ t _ _.
                    Grows-IsReported (path ∷ []) v.calls v.files (index_if_there s path indexed).0 _
                      (index_if_there-Grows path indexed)
                      (submit_intent-IsReported path (submit_upsert path)
                        (index_if_there s path indexed).0 enabled (inr refl)))))
    ]

    submit_both-IsReported :
        (old new : Text) (first second : Call) (v : Vault)
        → IsIntent old first
        → IsIntent new second
        → IsReported
            (old ∷ new ∷ [])
            v.calls
            v.files
            (submit_intent s second (submit_intent s first v))
    unfolding submit_intent
    submit_both-IsReported old new first second v i j = rw enabled (record {
      new = first ∷ second ∷ [];
      grown = append_assoc v.calls (first ∷ []) (second ∷ []);
      kept = refl;
      intents = (inl i, (inr (inl j), tt));
    })

    pub moved_out-IsReported :
        (old new b : Text) (v : Vault)
        → (moved_out s old new v).1 ≡ ok b
        → IsReported (old ∷ new ∷ []) v.calls v.files (moved_out s old new v).0
    unfolding moved_out
    moved_out-IsReported old new b v =
        let left = record v {
          index = add_excluded_file s.unicode (remove_file s.unicode v.index old) new;
        } in
        let called = (call_tantivy s (remove_document old) left).0 in
        and_then-ok (IsReported (old ∷ new ∷ []) v.calls v.files)
          (call_tantivy s (remove_document old) left) _ b
          (λ u _ _.
            Grows-IsReported (old ∷ new ∷ []) v.calls v.files called _
              (call_tantivy-Grows (remove_document old) left)
              (submit_both-IsReported old new (submit_remove old) (submit_remove new) called
                (inl refl) (inl refl)))

    pub moved_within-IsReported :
        (old new b : Text) (v : Vault)
        → (moved_within s old new v).1 ≡ ok b
        → IsReported (old ∷ new ∷ []) v.calls v.files (moved_within s old new v).0
    unfolding moved_within
    moved_within-IsReported old new b v =
        let done = rename_file s.unicode (parse_note_metadata s v.files) v.index old new in
        let left = record v { index = done.0 } in
        let called = (call_tantivy s (remove_document old) left).0 in
        let indexed = (index_if_there s new called).0 in
        and_then-ok (IsReported (old ∷ new ∷ []) v.calls v.files) (left, done.1) _ b
          (λ u _.
            and_then-ok (IsReported (old ∷ new ∷ []) v.calls v.files)
              (call_tantivy s (remove_document old) left) _ b
              (λ t _.
                and_then-ok (IsReported (old ∷ new ∷ []) v.calls v.files)
                  (index_if_there s new called) _ b
                  (λ r _ _.
                    Grows-IsReported (old ∷ new ∷ []) v.calls v.files called _
                      (call_tantivy-Grows (remove_document old) left)
                      (Grows-IsReported (old ∷ new ∷ []) called.calls called.files indexed _
                        (index_if_there-Grows new called)
                        (submit_both-IsReported old new (submit_remove old) (submit_upsert new)
                          indexed (inl refl) (inr refl))))))

-- What an operation tells the embedding runtime: among its new calls is an intent for every path whose
-- file it changed, made or took away.
pub record AreReported (v w : Vault) : Type 0 where
  pub new : List Call
  pub grown : w.calls ≡ v.calls ++ new
  pub told : (q : Text) → (lookup q w.files ≡ lookup q v.files) ⊎ Any (IsIntent q) new

pub one-AreReported :
    (path : Text) (files : Dict Text) (v w : Vault)
    → IsReported (path ∷ []) v.calls files w
    → ((q : Text) → text_eq path q ≡ false → lookup q files ≡ lookup q v.files)
    → AreReported v w
one-AreReported path files v w r h = record {
  new = r.new;
  grown = r.grown;
  told = λ q. elim (Bool-cases (text_eq path q)) [
    | inl e ↦ let same : q ≡ path = ground (arith, text_eq_iff path q) in rw same (inr r.intents.0)
    | inr e ↦ inl (rw r.kept (h q e))
  ];
}

pub two-AreReported :
    (old new : Text) (files : Dict Text) (v w : Vault)
    → IsReported (old ∷ new ∷ []) v.calls files w
    → ((q : Text)
        → text_eq old q ≡ false
        → text_eq new q ≡ false
        → lookup q files ≡ lookup q v.files)
    → AreReported v w
two-AreReported old new files v w r h = record {
  new = r.new;
  grown = r.grown;
  told = λ q. elim (Bool-cases (text_eq old q)) [
    | inl e ↦ let same : q ≡ old = ground (arith, text_eq_iff old q) in rw same (inr r.intents.0)
    | inr n ↦ elim (Bool-cases (text_eq new q)) [
      | inl e ↦
          let same : q ≡ new = ground (arith, text_eq_iff new q) in rw same (inr r.intents.1.0)
      | inr e ↦ inl (rw r.kept (h q n e))
    ]
  ];
}
