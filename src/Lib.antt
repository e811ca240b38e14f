-- ===== src/Lib.antt =====
-- A model of the vault core of obsidian-mcp-semantic-metagraph, an MCP server that indexes an
-- Obsidian vault and searches it by meaning, and the theorems that it does what it is for.
--
-- The parts, and how they work together. A note is read and its frontmatter is split off
-- (src/vault/frontmatter.rs). Its links, tags and headings make up its metadata, which the index
-- in memory keeps (src/vault/index.rs); the targets of its links are resolved to paths by two
-- tables (src/vault/wikilink.rs), and each note's backlinks and the paths of each tag are kept
-- up to date as files are written, moved, removed or excluded. For the search by meaning, the
-- body of a note is cut into chunks (src/vault/chunker.rs); the store holds a vector for each
-- chunk and one for a summary of the note, under keys made of the note's path
-- (src/vault/embeddings.rs), and ranks notes for a query. A runtime in the background keeps the
-- store up to date: it queues an intent for each note that changed, embeds notes in batches,
-- tries again what failed, and writes the cache (src/vault/embedding_runtime.rs). The vault puts
-- these together: a search takes the store of the runtime, the notes of the index and the scope,
-- and may blend in the hits of the full-text index (src/vault/mod.rs,
-- src/vault/search_utils.rs). A write, a move or a deletion of a note goes to the file
-- (src/vault/fs.rs), then to the index, then to the full-text index, and last as an intent to
-- the runtime. Globs say which paths are left out (src/vault/exclude.rs) and, as named scopes,
-- which notes a query may see (src/vault/scope.rs). A note is edited in place at a heading or at
-- a block reference (src/vault/patch.rs). Paths are normalized before any of it
-- (src/vault/path.rs), and file events are turned into operations of the index by the watcher
-- (src/vault/watcher.rs).
--
-- The files, each named for the source that it models:
--   Base       texts as lists of UTF-8 bytes with the functions of `str`, and where such a text
--              may be cut; lists, maps and sets as lists, sorted lists of texts, decimal numbers
--   Error      src/error.rs (VaultError, its codes) and the records of src/models.rs
--   Chunker    ChunkConfig::from_env, sections, packed_sections, split_point, chunk_note,
--              prepare_chunk_embed_text
--   Wikilink   LinkResolver and its operations; Abstract is the description over a list of paths
--   Index      VaultIndex: reindex_file, remove_file, rename_file, add_excluded_file and the loops
--              that they are made of; Queries has the lookups
--   Exclude    ExcludeSet, parse_ignore_lines, load_ignore_patterns
--   Scope      ScopeSet, parse_sources, resolve_into, narrow
--   Frontmatter  extract_raw_frontmatter, parse_frontmatter, set_ and remove_frontmatter_field
--   Patch      patch_heading; Blocks has patch_block
--   Embeddings the keys and the EmbeddingStore in memory; Ranking has its scores and queries
--   Path       normalize_relative, relative_from_absolute
--   Watcher    should_process_path, process_event; Reach has the step relation over the index
--   Search     src/vault/mod.rs: effective_scope, scoped_paths; Queries has search_semantic_detailed,
--              blend_lexical, related_notes and search_hybrid_scoped
--   Vault      src/vault/mod.rs and src/vault/fs.rs: the operations on notes, from write_note to
--              move_note; set_note_field and remove_note_field are the methods set_frontmatter_field and
--              remove_frontmatter_field. Operations is a sequence of them
--   Runtime    State has the operations under the lock of the state, Commit those that write to the store
--              or the cache, Embed the texts and the calls of the provider, Process has process_batch,
--              Coordinator run_coordinator; Steps is the step relation
-- Functions keep their names from the source. A method takes the object as an argument and
-- returns it where it changes it; a call that can fail after it has changed the object gives
-- both. A function that the source does not name is a loop, a closure or a branch of one that it
-- does. Each Examples module has runs on small inputs and applies the theorems to concrete ones.
--
-- Representation. A vault-relative path is its text; where its parts matter, in Path, it is the
-- list of its components. A hash map or a hash set is a list, and iterating over one goes in the
-- order of the list; a BTreeMap is a list in the order of its keys. `usize` and `u64` values are
-- natural numbers: lengths and counts cannot reach 2^64, and the limit is written out where a
-- number is parsed or multiplied. Texts of errors are those of the source.
--
-- Parameters, for what is outside of the repository: the Unicode tables (NFC, lower case), the
-- crate globset, serde_yaml and serde_json, `f32`, the hash, the answers of the model that
-- embeds texts, of the full-text index, what the file system resolves a path to
-- (resolve_existing and resolve_for_write of src/vault/path.rs read directories) and whether its
-- calls succeed, the clock, reading and writing a file, and what the parser of Markdown finds in
-- a note. Theorems that need something of them have it as a hypothesis.
--
-- Bounds and fuel. The loop of chunk_note runs on fuel of the length of the section plus one,
-- which is enough since the cursor moves on in each round. A slice that would be cut inside a
-- character is a panic, as in the source; from_env never gives a target below 100. resolve_into
-- runs on fuel 17, since the source stops at a depth of 16. The loop over the lines in
-- extract_raw_frontmatter runs on the length of the text plus one, and each round takes a byte
-- at least. The loop over the chunks of a note in match_for_note runs on the number of entries
-- plus one, since each round finds another entry. slice::chunks runs on the number of texts, and
-- split_whitespace on the length of the text plus one: each round takes one at least. The rounds
-- of the coordinator are counted, and a theorem says how many are enough where nothing fails.
--
-- Not modelled: the extraction of links, tags and headings from Markdown (pulldown-cmark and
-- regex), the patch of a frontmatter field, the full-text index (tantivy), directories and
-- listings of files, the encoding of the cache file of the store and its relocation, the threads
-- of the watcher, the daemon and its protocol, the tools, and the configuration. They call what
-- is modelled, read and write files, or wrap other crates.
pub mod Base
pub mod Error
pub mod Chunker
pub mod Wikilink
pub mod Index
pub mod Exclude
pub mod Scope
pub mod Frontmatter
pub mod Patch
pub mod Embeddings
pub mod Path
pub mod Watcher
pub mod Runtime
pub mod Search
pub mod Vault
