-- ===== src/Wikilink/Collision.antt =====
-- src/vault/wikilink.rs: two paths with one key, as `A/x.md` and `a/X.md` on a file system that
-- tells them apart.
use obsidian_mcp_semantic_me.Base.{
  ◌≡◌, ◌≢◌, inl, inr, Bool, true, none, List, [], ◌∷◌, arith, Text, text_eq_refl, has_byte,
  lookup-remove, Any, is_empty-has_byte,
}
use obsidian_mcp_semantic_me.Wikilink.{
  Unicode, LinkResolver, normalize_target, path_key, remove_path, resolve,
}
use obsidian_mcp_semantic_me.Wikilink.Abstract.{last_with, has_path, resolve_in, others}

last_with-ne-none :
    (p : Text → Bool) (q : Text) (xs : List Text)
    → p q ≡ true
    → Any (λ x. x ≡ q) xs
    → last_with p xs ≢ none
last_with-ne-none p q [] h k = absurd k
last_with-ne-none p q (x ∷ xs) h (inl e) = let found : p x ≡ true = rw e h in ground arith
last_with-ne-none p q (x ∷ xs) h (inr k) = ground (arith, last_with-ne-none p q xs h k)

-- After the removal of one of two paths with the same key, a target with that key, which has a
-- slash, resolves to nothing, although the other path is still there and the description over the
-- remaining paths finds a path for it.
pub remove_path-loses_twin :
    (u : Unicode) (r : LinkResolver) (paths : List Text) (path twin target : Text)
    → path_key u twin ≡ path_key u path
    → normalize_target u target ≡ path_key u twin
    → has_byte b'/' (path_key u twin) ≡ true
    → Any (λ x. x ≡ twin) (others path paths)
    → (resolve u (remove_path u r path) target ≡ none)
      × (resolve_in u (others path paths) target ≢ none)
unfolding resolve remove_path resolve_in
remove_path-loses_twin u r paths path twin target same named slash left = (
  rw (named, is_empty-has_byte b'/' (path_key u twin) slash, slash)
      (rw (lookup-remove (path_key u path) (path_key u twin) r.by_path)
        (rw (same, text_eq_refl (path_key u path)))),
  rw (named, is_empty-has_byte b'/' (path_key u twin) slash, slash)
      (last_with-ne-none (has_path u (path_key u twin)) twin (others path paths)
        (text_eq_refl (path_key u twin)) left),
)
