-- ===== src/Wikilink/Ascii.antt =====
-- The ASCII part of the Unicode tables, for runs of the resolver.
use obsidian_mcp_semantic_me.Base.{ℕ, ◌+◌, ◌&&◌, map, leb, if◌then◌else◌, base_runs}
use obsidian_mcp_semantic_me.Wikilink.{
  Unicode, forward_slashes, file_name, lookup_key_without_md, normalize_target, path_key, stem_key,
  add_path, without_stem, remove_path, rename_path, build_link_resolver, resolve,
  resolve_candidates, is_resolved,
}

abbrev pub ascii_lower : ℕ → ℕ
ascii_lower b = if leb b'A' b && leb b b'Z' then b + 32 else b

abbrev pub ascii : Unicode
ascii = record { nfc = λ s. s; to_lowercase = map ascii_lower }

-- What a run of the resolver computes with.
unfoldable pub runs : Unit {0}
unfolding base_runs forward_slashes file_name lookup_key_without_md normalize_target path_key
    stem_key add_path without_stem remove_path rename_path build_link_resolver resolve
    resolve_candidates is_resolved
runs = tt
