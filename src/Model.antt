-- ===== src/Model.antt =====
-- The records that the components share, from the `model.go` files under internal/core. A pointer
-- field is an `Option`; a time is a number.
use synthy.Prelude.{ℕ, String, Bool, Option}

-- internal/core/repository/model.go
pub data RepositoryProvider : Type 0 where
  -- `unset` is Go's empty string.
  github gitlab other unset : RepositoryProvider

pub record Repository : Type 0 where
  pub id : String
  pub organization_id : String
  pub name : String
  pub description : Option String
  pub default_branch : String
  pub repository_url : String
  pub storage_url : String
  pub provider : RepositoryProvider
  pub external_id : String
  pub created_at : ℕ
  pub updated_at : ℕ

-- internal/core/file/model.go and internal/core/chunker/model.go
pub data Language : Type 0 where
  go_language other_language : Language

pub record File : Type 0 where
  pub id : String
  pub repository_id : String
  pub path : String
  pub name : String
  pub extension : String
  pub checksum : String
  pub language : Language
  pub is_binary : Bool
  pub created_at : ℕ
  pub updated_at : ℕ

-- internal/core/symbol/model.go
pub data SymbolType : Type 0 where
  function type variable constant package_symbol field interface import_symbol other : SymbolType

pub data ReceiverType : Type 0 where
  value pointer : ReceiverType

pub data SymbolVisibility : Type 0 where
  public private : SymbolVisibility

pub record Symbol : Type 0 where
  pub id : String
  pub file_id : String
  pub repository_id : String
  pub fq_name : String
  pub type : SymbolType
  pub language : Language
  pub signature : String
  pub receiver_type : Option ReceiverType
  pub visibility : SymbolVisibility
  pub parent_symbol_id : Option String
  pub start_line : ℕ
  pub end_line : ℕ
  pub start_column : ℕ
  pub end_column : ℕ
  pub created_at : ℕ
  pub updated_at : ℕ

-- internal/core/chunker/model.go
pub data ChunkType : Type 0 where
  function type block other : ChunkType

pub record CodeChunk : Type 0 where
  pub id : String
  pub repository_id : String
  pub file_id : String
  pub symbol_id : String
  pub content : String
  pub content_hash : String
  pub type : ChunkType
  pub language : Language
  pub start_line : ℕ
  pub end_line : ℕ
  pub embedding_id : Option String
  pub summary : Option String
  pub created_at : ℕ
  pub updated_at : ℕ

-- internal/core/calls/model.go
pub record CallEdge : Type 0 where
  pub id : String
  pub repository_id : String
  pub caller_symbol_id : String
  pub callee_symbol_id : String
  pub file_id : String
  pub created_at : ℕ
  pub updated_at : ℕ

-- internal/core/imports/model.go
pub record ImportEdge : Type 0 where
  pub id : String
  pub repository_id : String
  pub from_file_id : String
  pub to_file_id : String
  pub import_path : String
  pub is_external : Bool
  pub alias : Option String
  pub created_at : ℕ
  pub updated_at : ℕ

-- internal/core/github/model.go; the installation id is an int64, which the code only compares.
pub record Installation : Type 0 where
  pub id : String
  pub organization_id : String
  pub installation_id : ℕ
  pub account_login : String
  pub account_type : String
  pub created_at : ℕ
  pub updated_at : ℕ
