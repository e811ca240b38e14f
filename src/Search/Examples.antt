-- ===== src/Search/Examples.antt =====
-- Runs of the searches of src/vault/mod.rs, with natural numbers for `f32`.
use obsidian_mcp_semantic_me.Base.{
  path_lt, All, not, text_eq, ◌⊎◌, false, ℕ, ◌-◌, ◌≡◌, refl, true, none, some, [], ◌∷◌, List, Text,
  bytes, min, max, leb, arith, base_runs,
}
use obsidian_mcp_semantic_me.Error.{ok, NoteMetadata}
use obsidian_mcp_semantic_me.Search.Hybrid.{IsRun, AreFound, search_hybrid_scoped-AreFound}
use obsidian_mcp_semantic_me.Search.Ranked.{AreBest, search_hybrid_scoped-AreBest}
use obsidian_mcp_semantic_me.Scope.{ScopeSet, contains, is_known, require, narrow}
use obsidian_mcp_semantic_me.Exclude.Examples.{simple}
use obsidian_mcp_semantic_me.Embeddings.Examples.{floats, store, a_match, b_related}
use obsidian_mcp_semantic_me.Index.{VaultIndex, empty}
use obsidian_mcp_semantic_me.Runtime.State.{status_for_current_paths, status_for_loaded_state}
use obsidian_mcp_semantic_me.Runtime.Coordinator.{query_snapshot}
use obsidian_mcp_semantic_me.Runtime.Examples.{shared}
use obsidian_mcp_semantic_me.Search.{
  Arithmetic, Hit, TantivyIndex, VaultInner, DetailedHit, insert_by, sort_by, unit_calibrate,
  normalize_bm25_scores, embed_query, semantic_hits_for_paths, query_paths,
  semantic_scores_for_paths, best_score_for_note, score_for, blend_score_for, effective_scope,
  scope_note_count, scoped_paths, snapshot_of, has_embeddings,
}
use obsidian_mcp_semantic_me.Search.Queries.{
  add_share, blend_arm, blend_scores, blend_lexical, search_semantic_detailed,
  search_semantic_scoped, related_notes, prefetch_of, scoped_hits, combine_scores, rerank,
  search_hybrid_scoped,
}
use obsidian_mcp_semantic_me.Search.Admitted.{
  AreAdmitted, search_semantic_detailed-AreAdmitted, related_notes-AreAdmitted,
}
use obsidian_mcp_semantic_me.Exclude.Examples
use obsidian_mcp_semantic_me.Embeddings.Examples as Vectors

runs : Unit {0}
unfolding base_runs Examples.runs Vectors.runs contains is_known require narrow
    status_for_current_paths status_for_loaded_state query_snapshot path_lt insert_by sort_by
    unit_calibrate normalize_bm25_scores embed_query semantic_hits_for_paths query_paths
    semantic_scores_for_paths best_score_for_note score_for blend_score_for effective_scope
    scope_note_count scoped_paths snapshot_of has_embeddings add_share blend_arm blend_scores
    blend_lexical search_semantic_detailed search_semantic_scoped related_notes prefetch_of
    scoped_hits combine_scores rerank search_hybrid_scoped
runs = tt

abbrev numbers_with : ℕ → Arithmetic ℕ
numbers_with weight = record {
  floats = floats;
  one = 1;
  infinity = 1000;
  neg_infinity = 0;
  tiny = 0;
  sub = λ x y. x - y;
  min_value = min;
  max_value = max;
  at_most = leb;
  query_prefix = bytes "query: ";
  lexical_weight = weight;
}

abbrev numbers : Arithmetic ℕ
numbers = numbers_with 0

abbrev note_at : Text → NoteMetadata
note_at path = record {
  path = path;
  title = path;
  tags = [];
  frontmatter = none;
  headings = [];
  links = [];
  block_refs = [];
  stat = record { size = 1; created = none; modified = none };
}

abbrev a_path : Text
a_path = bytes "a.md"

abbrev b_path : Text
b_path = bytes "b.md"

abbrev index : VaultIndex
index = record empty { notes = (a_path, note_at a_path) ∷ (b_path, note_at b_path) ∷ [] }

abbrev mine : Text
mine = bytes "mine"

abbrev scopes : ScopeSet
scopes = record {
  scopes =
      (
        mine,
        record {
          patterns = a_path ∷ [];
          globs = record { set = a_path ∷ []; patterns = a_path ∷ [] };
        },
      )
      ∷ [];
}

abbrev tv : TantivyIndex ℕ
tv = record {
  search = λ query count. ok (
      record { path = b_path; score = 9 }
      ∷ record { path = a_path; score = 4 }
      ∷ record { path = bytes "gone.md"; score = 2 }
      ∷ []);
}

abbrev inner : VaultInner ℕ
inner = record {
  index = index;
  scopes = scopes;
  default_scope = none;
  tantivy = some tv;
  embedding_runtime = some (record {
    shared = record shared { store = store };
    embed_batch = λ texts. ok ((1 ∷ 0 ∷ []) ∷ []);
  });
}

abbrev a_hit : DetailedHit ℕ
a_hit = record { path = a_path; score = 3; matched = some a_match }

abbrev b_hit : DetailedHit ℕ
b_hit = record { path = b_path; score = 6; matched = some b_related }

abbrev both_found : List (Hit ℕ)
both_found = record { path = b_path; score = 7 } ∷ record { path = a_path; score = 2 } ∷ []

abbrev mine_found : List (Hit ℕ)
mine_found = record { path = a_path; score = 1 } ∷ []

abbrev blended : List (DetailedHit ℕ)
blended =
    record { path = b_path; score = 9; matched = none }
    ∷ record { path = a_path; score = 4; matched = none }
    ∷ []

search_runs :
    (search_semantic_scoped numbers simple inner (bytes "q") 5 (some mine)
      ≡ ok (record { path = a_path; score = 3 } ∷ []))
    × (search_semantic_detailed (numbers_with 1) simple inner (bytes "q") 5 none ≡ ok blended)
    × (search_hybrid_scoped numbers simple inner (bytes "q") 2 5 1 none ≡ ok both_found)
    × (scope_note_count simple inner mine ≡ 1)
    × (has_embeddings inner ≡ true)
    × (path_lt (bytes "a/b") (bytes "a-b") ≡ true)
unfolding runs
search_runs = (refl, refl, refl, refl, refl, refl)

semantic_run :
    search_semantic_detailed numbers simple inner (bytes "q") 5 (some mine) ≡ ok (a_hit ∷ [])
unfolding runs
semantic_run = refl

related_run : related_notes numbers simple inner a_path 5 none ≡ ok (b_hit ∷ [])
unfolding runs
related_run = refl

hybrid_run : search_hybrid_scoped numbers simple inner (bytes "q") 2 5 1 (some mine) ≡ ok mine_found
unfolding runs
hybrid_run = refl

greater_asymmetric : (x y : ℕ) → floats.greater x y ≡ true → floats.greater y x ≡ false
greater_asymmetric x y h = ground arith

greater_transitive :
    (x y z : ℕ)
    → floats.greater x y ≡ false
    → floats.greater y z ≡ false
    → floats.greater x z ≡ false
greater_transitive x y z h k = ground arith

search_semantic_detailed-AreAdmitted_example : AreAdmitted simple inner (some mine) 5 (a_hit ∷ [])
search_semantic_detailed-AreAdmitted_example =
    search_semantic_detailed-AreAdmitted numbers simple inner (bytes "q") 5 (some mine) (a_hit ∷ [])
      semantic_run

related_notes-AreAdmitted_example :
    AreAdmitted simple inner none 5 (b_hit ∷ [])
    × All (λ h. not (text_eq h.path a_path) ≡ true) (b_hit ∷ [])
related_notes-AreAdmitted_example =
    related_notes-AreAdmitted numbers simple inner a_path 5 none (b_hit ∷ []) related_run

search_hybrid_scoped-AreFound_example :
    AreFound numbers simple inner (bytes "q") 2 5 (some mine) mine_found
search_hybrid_scoped-AreFound_example =
    search_hybrid_scoped-AreFound numbers simple inner (bytes "q") 2 5 1 (some mine) mine_found refl
      hybrid_run

search_hybrid_scoped-AreBest_example :
    (run : IsRun numbers simple inner (bytes "q") 2 5 1 (some mine) mine_found) × let candidates =
        scoped_hits numbers simple inner (effective_scope inner (some mine)) run.bm25_hits in
      ((candidates ≡ []) × (mine_found ≡ []))
      ⊎ AreBest numbers simple inner run.snapshot (bytes "q") 2 1 candidates mine_found
search_hybrid_scoped-AreBest_example =
    search_hybrid_scoped-AreBest numbers simple inner (bytes "q") 2 5 1 (some mine) mine_found
      greater_asymmetric greater_transitive refl hybrid_run
