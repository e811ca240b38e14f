-- ===== src/Runtime/Picks.antt =====
-- src/vault/embedding_runtime.rs: the works that the coordinator holds while it processes a batch.
use obsidian_mcp_semantic_me.Base.{
  ◌⊎◌, ◌≡◌, refl, inl, inr, false, List, [], ◌∷◌, ◌++◌, arith, Any, Text, text_eq, text_eq_iff,
  subst,
}
use obsidian_mcp_semantic_me.Runtime.State.{PendingWork}

abbrev pub Holds : PendingWork → List PendingWork → Type 0
Holds w ws = Any (λ v. v ≡ w) ws

abbrev pub HoldsPath : Text → List PendingWork → Type 0
HoldsPath p ws = Any (λ v. v.path ≡ p) ws

-- No two works are for the same path.
abbrev pub IsDistinct : List PendingWork → Type 0
IsDistinct [] = Unit {0}
IsDistinct (w ∷ ws) =
    ((v : PendingWork) → Holds v ws → text_eq w.path v.path ≡ false) × IsDistinct ws

-- `Pick w ws rest`: one work is taken out of `ws`.
pub data Pick (w : PendingWork) : List PendingWork → List PendingWork → Type 0 where
  first : (ws : List PendingWork) → Pick w (w ∷ ws) ws
  later :
      (v : PendingWork) {ws rest : List PendingWork} → Pick w ws rest → Pick w (v ∷ ws) (v ∷ rest)

pub Pick-Holds : {w : PendingWork} {ws rest : List PendingWork} → Pick w ws rest → Holds w ws
Pick-Holds (first ws) = inl refl
Pick-Holds (later v pick) = inr (Pick-Holds pick)

pub Pick-Holds_rest :
    {w : PendingWork} {ws rest : List PendingWork} (v : PendingWork)
    → Pick w ws rest
    → Holds v rest
    → Holds v ws
Pick-Holds_rest v (first ws) h = inr h
Pick-Holds_rest v (later u pick) (inl e) = inl e
Pick-Holds_rest v (later u pick) (inr h) = inr (Pick-Holds_rest v pick h)

pub Pick-IsDistinct :
    {w : PendingWork} {ws rest : List PendingWork}
    → Pick w ws rest
    → IsDistinct ws
    → IsDistinct rest
Pick-IsDistinct (first ws) (apart, d) = d
Pick-IsDistinct (later u pick) (apart, d) =
    ((λ v h. apart v (Pick-Holds_rest v pick h)), Pick-IsDistinct pick d)

text_eq_comm_false : (s t : Text) → text_eq s t ≡ false → text_eq t s ≡ false
text_eq_comm_false s t h = ground (arith, text_eq_iff s t, text_eq_iff t s)

-- What is left is for other paths.
pub Pick-apart :
    {w : PendingWork} {ws rest : List PendingWork} (v : PendingWork)
    → Pick w ws rest
    → IsDistinct ws
    → Holds v rest
    → text_eq w.path v.path ≡ false
Pick-apart v (first ws) (apart, d) h = apart v h
Pick-apart {w} v (later u pick) (apart, d) (inl e) =
    subst (λ z. text_eq w.path z.path ≡ false) e
      (text_eq_comm_false u.path w.path (apart w (Pick-Holds pick)))
Pick-apart v (later u pick) (apart, d) (inr h) = Pick-apart v pick d h

-- A work for another path is left.
pub Pick-HoldsPath :
    {w : PendingWork} {ws rest : List PendingWork} (p : Text)
    → Pick w ws rest
    → text_eq w.path p ≡ false
    → HoldsPath p ws
    → HoldsPath p rest
Pick-HoldsPath {w} p (first ws) other (inl e) = absurd (ground (arith, text_eq_iff w.path p))
Pick-HoldsPath p (first ws) other (inr h) = h
Pick-HoldsPath p (later u pick) other (inl e) = inl e
Pick-HoldsPath p (later u pick) other (inr h) = inr (Pick-HoldsPath p pick other h)

-- The works are held after others too.
pub Holds-snoc :
    (v w : PendingWork) (ws : List PendingWork)
    → Holds v (ws ++ w ∷ [])
    → Any (λ u. u ≡ v) ws ⊎ (w ≡ v)
Holds-snoc v w [] (inl e) = inr e
Holds-snoc v w [] (inr h) = elim h [ ]
Holds-snoc v w (u ∷ ws) (inl e) = inl (inl e)
Holds-snoc v w (u ∷ ws) (inr h) = elim (Holds-snoc v w ws h) [
  | inl old ↦ inl (inr old)
  | inr new ↦ inr new
]

pub IsDistinct-snoc :
    (w : PendingWork) (ws : List PendingWork)
    → ((v : PendingWork) → Holds v ws → text_eq v.path w.path ≡ false)
    → IsDistinct ws
    → IsDistinct (ws ++ w ∷ [])
IsDistinct-snoc w [] new d = ((λ v h. elim h [ ]), tt)
IsDistinct-snoc w (u ∷ ws) new (apart, d) = (
  (λ v h. elim (Holds-snoc v w ws h) [
    | inl old ↦ apart v old
    | inr e ↦ subst (λ z. text_eq u.path z.path ≡ false) e (new u (inl refl))
  ]),
  IsDistinct-snoc w ws (λ v h. new v (inr h)) d,
)
