-- ===== src/Index/TagLoops.antt =====
-- src/vault/index.rs: what the loops over tags do to the table of tags.
use obsidian_mcp_semantic_me.Base.{
  ◌≡◌, ◌≢◌, refl, ◌∙◌, inl, inr, true, not, ◌&&◌, ◌||◌, none, some, List, [], ◌∷◌, ◌++◌, arith,
  Text, text_eq, text_eq_iff, Dict, lookup, insert, remove, or_empty, member, set_insert,
  set_remove, lookup-insert, lookup-remove, member-set_insert, member-set_remove, if◌then◌else◌,
  Option-cases, Bool-cases, All, All-append,
}
use obsidian_mcp_semantic_me.Index.{is_empty_set, untag, remove_all, add_tags}
use obsidian_mcp_semantic_me.Index.Links.{lists}

abbrev pub HoldsNothing : List Text → Dict (List Text) → Type 0
HoldsNothing keys m = All (λ k. or_empty (lookup k m) ≡ []) keys

abbrev pub HasNoEmpty : Dict (List Text) → Type 0
HasNoEmpty m = (t : Text) → lookup t m ≢ some []

set_remove-nil : (path : Text) → set_remove path [] ≡ []
unfolding set_remove
set_remove-nil path = refl

HoldsNothing-insert :
    (path t : Text) (keys paths : List Text) (m : Dict (List Text))
    → lookup t m ≡ some paths
    → HoldsNothing keys m
    → HoldsNothing keys (insert t (set_remove path paths) m)
HoldsNothing-insert path t [] paths m e h = tt
HoldsNothing-insert path t (k ∷ keys) paths m e (nothing, h) = (
  ground (arith, lookup-insert t k (set_remove path paths) m, text_eq_iff t k, set_remove-nil path),
  HoldsNothing-insert path t keys paths m e h,
)

-- The keys with an empty set are among `empties`, and the sets of `empties` are empty.
pub record IsSwept (m : Dict (List Text)) (empties : List Text) : Type 0 where
  pub nothing : HoldsNothing empties m
  pub all : (t : Text) → lookup t m ≡ some [] → member t empties ≡ true

member-append : (t : Text) (xs ys : List Text) → member t (xs ++ ys) ≡ (member t xs || member t ys)
unfolding member
member-append t [] ys = refl
member-append t (x ∷ xs) ys = ground (arith, member-append t xs ys)

is_empty_set-nil : (xs : List Text) → is_empty_set xs ≡ true → xs ≡ []
is_empty_set-nil [] h = refl
is_empty_set-nil (x ∷ xs) h = cc

IsSwept-step :
    (path t : Text) (paths empties : List Text) (m : Dict (List Text))
    → lookup t m ≡ some paths
    → IsSwept m empties
    → IsSwept
        (insert t (set_remove path paths) m)
        (if is_empty_set (set_remove path paths) then empties ++ t ∷ [] else empties)
unfolding member
IsSwept-step path t paths empties m e h =
    let left = set_remove path paths in
    let kept = HoldsNothing-insert path t empties paths m e h.nothing in
    elim (Bool-cases (is_empty_set left)) [
      | inl none_left ↦
          let gone : left ≡ [] = is_empty_set-nil left none_left in
          rw none_left (record {
            nothing =
                All-append _ empties (t ∷ []) kept
                  (ground (arith, lookup-insert t t left m, text_eq_iff t t), tt);
            all = λ k found.
                ground (arith, lookup-insert t k left m, h.all k, member-append k empties (t ∷ []));
          })
      | inr some_left ↦ rw some_left (record {
        nothing = kept;
        all = λ k found. ground (arith, lookup-insert t k left m, h.all k, text_eq_iff t k);
      })
    ]

pub lists-untag :
    (path s k : Text) (ts empties : List Text) (m : Dict (List Text))
    → IsSwept m empties
    → (lists (untag path ts m empties).0 s k ≡ (lists m s k && not (text_eq path s && member k ts)))
      × IsSwept (untag path ts m empties).0 (untag path ts m empties).1
unfolding untag member
lists-untag path s k [] empties m h = (ground arith, h)
lists-untag path s k (t ∷ ts) empties m h = elim (Option-cases (lookup t m)) [
  | inl e ↦
      rw (e, untag)
        (let (same, swept) = lists-untag path s k ts empties m h in
          (ground (arith, same, text_eq_iff t k), swept))
  | inr (paths, e) ↦
      rw (e, untag)
        (let left = set_remove path paths in
          let (same, swept) =
            lists-untag path s k ts (if is_empty_set left then empties ++ t ∷ [] else empties)
              (insert t left m) (IsSwept-step path t paths empties m e h) in
          (
            ground (
              arith,
              same,
              lookup-insert t k left m,
              member-set_remove path s paths,
              text_eq_iff t k,
            ),
            swept,
          ))
]

HoldsNothing-remove :
    (j : Text) (keys : List Text) (m : Dict (List Text))
    → HoldsNothing keys m
    → HoldsNothing keys (remove j m)
HoldsNothing-remove j [] m h = tt
HoldsNothing-remove j (k ∷ keys) m (e, h) =
    (ground (arith, lookup-remove j k m), HoldsNothing-remove j keys m h)

pub lists-remove_all :
    (s t : Text) (keys : List Text) (m : Dict (List Text))
    → HoldsNothing keys m
    → lists (remove_all keys m) s t ≡ lists m s t
unfolding remove_all member
lists-remove_all s t [] m h = refl
lists-remove_all s t (k ∷ keys) m (e, h) =
    lists-remove_all s t keys (remove k m) (HoldsNothing-remove k keys m h)
    ∙ ground (arith, lookup-remove k t m, text_eq_iff k t)

pub lookup-remove_all :
    (t : Text) (keys : List Text) (m : Dict (List Text))
    → lookup t (remove_all keys m) ≡ (if member t keys then none else lookup t m)
unfolding remove_all member
lookup-remove_all t [] m = refl
lookup-remove_all t (k ∷ keys) m =
    ground (arith, lookup-remove_all t keys (remove k m), lookup-remove k t m)

pub lists-add_tags :
    (path s t : Text) (ts : List Text) (m : Dict (List Text))
    → lists (add_tags path ts m) s t ≡ (lists m s t || (text_eq path s && member t ts))
unfolding add_tags member
lists-add_tags path s t [] m = ground arith
lists-add_tags path s t (k ∷ ts) m =
    let paths = set_insert path (or_empty (lookup k m)) in
    ground (
      arith,
      lists-add_tags path s t ts (insert k paths m),
      lookup-insert k t paths m,
      member-set_insert path s (or_empty (lookup k m)),
      text_eq_iff k t,
    )

set_insert-ne-nil : (x : Text) (s : List Text) → set_insert x s ≢ []
unfolding set_insert
set_insert-ne-nil x [] = cc
set_insert-ne-nil x (y ∷ s) = ground arith

pub add_tags-HasNoEmpty :
    (path : Text) (ts : List Text) (m : Dict (List Text))
    → HasNoEmpty m
    → HasNoEmpty (add_tags path ts m)
unfolding add_tags
add_tags-HasNoEmpty path [] m h = h
add_tags-HasNoEmpty path (k ∷ ts) m h =
    let paths = set_insert path (or_empty (lookup k m)) in
    add_tags-HasNoEmpty path ts (insert k paths m) λ t.
      ground (arith, lookup-insert k t paths m, set_insert-ne-nil path (or_empty (lookup k m)), h t)
