-- ===== src/Error.antt =====
-- src/error.rs: the errors of the vault, and src/models.rs: the records that the vault and the
-- tools share. An error of another crate is kept as its text, a time stamp as a number.
use obsidian_mcp_semantic_me.Base.{
  ℕ, ◌≡◌, refl, ◌⊎◌, inl, inr, Option, none, List, [], ◌∷◌, Text, Bool, any, ◌==◌, if◌then◌else◌,
}

-- serde_json::Value; a number is kept as its text.
mutual
  pub data Json : Type 0 where
    null : Json
    bool : Bool → Json
    number : Text → Json
    string : Text → Json
    array : Items → Json
    object : Fields → Json

  pub data Items : Type 0 where
    nil : Items
    cons : Json → Items → Items

  pub data Fields : Type 0 where
    end : Fields
    field : Text → Json → Fields → Fields

-- `i64`
pub data ℤ : Type 0 where
  pos : ℕ → ℤ
  negsuc : ℕ → ℤ

pub data VaultError : Type 0 where
  note_not_found directory_not_found : Text → VaultError
  invalid_path : Text → VaultError
  frontmatter_parse : Text → Text → VaultError
  invalid_frontmatter : Text → Text → VaultError
  io : Text → VaultError
  already_exists : Text → VaultError
  patch_target_not_found : Text → Text → Text → VaultError
  outside_vault : Text → VaultError
  invalid_regex : Text → Text → VaultError
  watcher tantivy embedding : Text → VaultError
  unknown_scope : Text → Text → VaultError
  daemon_ipc daemon_protocol daemon_unavailable : Text → VaultError
  daemon_rpc : ℤ → Text → Option Json → VaultError
  daemon_timeout : Text → ℕ → VaultError
  daemon_bootstrap : Text → VaultError
  other : Text → VaultError

pub data Result {ℓ} (A : Type ℓ) : Type ℓ where
  ok : A → Result A
  err : VaultError → Result A

-- The `?` of Rust.
infixl 5 ◌>>=◌
abbrev pub ◌>>=◌ {ℓ κ} : {A : Type ℓ} {B : Type κ} → Result A → (A → Result B) → Result B
ok a >>= f = f a
err e >>= f = err e

pub Result-cases {ℓ} :
    {A : Type ℓ} (r : Result A) → ((a : A) × (r ≡ ok a)) ⊎ ((e : VaultError) × (r ≡ err e))
Result-cases (ok a) = inl (a, refl)
Result-cases (err e) = inr (e, refl)

pub record FileStat : Type 0 where
  pub size : ℕ
  pub created : Option ℕ
  pub modified : Option ℕ

pub record Heading : Type 0 where
  pub level : ℕ
  pub text : Text
  pub line : ℕ

pub record WikiLink : Type 0 where
  pub raw : Text
  pub target : Text
  pub heading : Option Text
  pub block_ref : Option Text
  pub alias : Option Text
  pub line : ℕ

pub record NoteMetadata : Type 0 where
  pub path : Text
  pub title : Text
  pub tags : List Text
  pub frontmatter : Option Json
  pub headings : List Heading
  pub links : List WikiLink
  pub block_refs : List Text
  pub stat : FileStat

pub record VaultStats : Type 0 where
  pub total_notes : ℕ
  pub total_files : ℕ
  pub total_tags : ℕ
  pub total_links : ℕ
  pub vault_size_bytes : ℕ
  pub excluded_notes : ℕ

-- The codes of `impl From<VaultError> for rmcp::ErrorData`.
pub data ErrorCode : Type 0 where
  resource_not_found invalid_params parse_error internal_error invalid_request : ErrorCode

-- A code of JSON-RPC is `-(n + 1)`.
unfoldable pub rpc_code : ℤ → ErrorCode
rpc_code (pos n) = internal_error
rpc_code (negsuc n) =
    if n == 32699
    then parse_error
    else if n == 32601
    then invalid_params
    else if any (λ m. n == m) (32599 ∷ 32600 ∷ 32009 ∷ 32019 ∷ 32029 ∷ 32039 ∷ [])
    then invalid_request
    else internal_error

unfoldable pub error_code : VaultError → ErrorCode
error_code (note_not_found p) = resource_not_found
error_code (directory_not_found p) = resource_not_found
error_code (invalid_path p) = invalid_params
error_code (frontmatter_parse p e) = parse_error
error_code (invalid_frontmatter p a) = invalid_params
error_code (io e) = internal_error
error_code (already_exists p) = invalid_params
error_code (patch_target_not_found p t s) = invalid_params
error_code (outside_vault p) = invalid_params
error_code (invalid_regex p e) = invalid_params
error_code (watcher e) = internal_error
error_code (tantivy e) = internal_error
error_code (embedding e) = internal_error
error_code (unknown_scope n k) = invalid_params
error_code (daemon_ipc e) = internal_error
error_code (daemon_protocol e) = internal_error
error_code (daemon_unavailable e) = invalid_request
error_code (daemon_rpc code m d) = rpc_code code
error_code (daemon_timeout o t) = internal_error
error_code (daemon_bootstrap e) = internal_error
error_code (other e) = internal_error

unfoldable pub error_data : VaultError → Option Json
error_data (daemon_rpc code m d) = d
error_data _ = none
