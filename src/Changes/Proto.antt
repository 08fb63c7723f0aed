-- ===== src/Changes/Proto.antt =====
-- The messages of the protos repository's generated code, with the fields that the source reads or
-- fills. `number` is any enum value that the source does not name.
use synthy.Prelude.{String, ℕ, List, Option}

pub data Provider : Type 0 where
  github gitlab unknown : Provider
  number : ℕ → Provider

pub data EventType : Type 0 where
  full_index incremental_index unknown_event : EventType
  number : ℕ → EventType

pub record Commit : Type 0 where
  pub added : List String
  pub modified : List String
  pub removed : List String

pub record Repository : Type 0 where
  pub id : ℕ
  pub full_name : String
  pub default_branch : String
  pub clone_url : String

pub record RepositoryEventMessage : Type 0 where
  pub provider : Provider
  pub event_type : EventType
  pub repository : Option Repository
  pub installation_id : ℕ
  pub organization_id : String
  pub commits : List (Option Commit)
  pub head_commit : Option Commit
