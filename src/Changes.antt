-- ===== src/Changes.antt =====
-- internal/core/repository/ingestionMapper.go: the ingestion message, its conversions, and the net
-- effect of a push's commits on the files.
pub mod Proto
pub mod Net
pub mod Conversion
use Proto.{Provider, EventType, Commit, RepositoryEventMessage}
use synthy.Prelude.{String, ℕ, List, [], ◌∷◌, ◌++◌, Option, none, some, Dict, lookup, insert}
use synthy.Model.{RepositoryProvider}
use synthy.Exec.{Result, ok, err, message}

-- `unset` is Go's empty string.
pub data IngestionEventType : Type 0 where
  full_index incremental_index unset : IngestionEventType

pub record IngestionMessage : Type 0 where
  pub provider : RepositoryProvider
  pub event_type : IngestionEventType
  pub repository_id : ℕ
  pub repo_full_name : String
  pub default_branch : String
  pub clone_url : String
  pub installation_id : ℕ
  pub organization_id : String
  pub changed_paths : List String
  pub removed_paths : List String

pub data Mark : Type 0 where
  changed removed : Mark

-- the two variables that `mark` closes over
pub record Marks : Type 0 where
  pub state : Dict Mark
  pub order : List String

abbrev first_mention : Option Mark → String → List String → List String
first_mention none path order = order ++ path ∷ []
first_mention (some _) path order = order

unfoldable pub mark : Mark → Marks → String → Marks
unfolding lookup insert
mark s m path = record {
  state = insert path s m.state;
  order = first_mention (lookup path m.state) path m.order;
}

unfoldable pub mark_all : Mark → List String → Marks → Marks
unfolding mark
mark_all s [] m = m
mark_all s (path ∷ paths) m = mark_all s paths (mark s m path)

unfoldable pub apply_commit : Option Commit → Marks → Marks
unfolding mark_all
apply_commit none m = m
apply_commit (some c) m =
    mark_all Mark.removed c.removed (mark_all changed c.modified (mark_all changed c.added m))

unfoldable pub apply_commits : List (Option Commit) → Marks → Marks
unfolding apply_commit
apply_commits [] m = m
apply_commits (c ∷ commits) m = apply_commits commits (apply_commit c m)

-- A message without commits may still have a head commit.
abbrev pub commits_of : List (Option Commit) → Option Commit → List (Option Commit)
commits_of [] none = []
commits_of [] (some head) = some head ∷ []
commits_of (c ∷ commits) head = c ∷ commits

-- `state[path] == stateRemoved`; a missing key reads as stateChanged, which is 0.
abbrev file_path : String → Option Mark → List String × List String → List String × List String
file_path path (some Mark.removed) (c, r) = (c, path ∷ r)
file_path path (some changed) (c, r) = (path ∷ c, r)
file_path path none (c, r) = (path ∷ c, r)

unfoldable pub divide : Dict Mark → List String → List String × List String
unfolding lookup
divide state [] = ([], [])
divide state (path ∷ order) = file_path path (lookup path state) (divide state order)

-- The changed paths and the removed paths.
unfoldable pub net_file_changes : RepositoryEventMessage → List String × List String
unfolding apply_commits divide
net_file_changes c =
    let m : Marks =
      apply_commits (commits_of c.commits c.head_commit) (record { state = []; order = [] }) in
    divide m.state m.order

unfoldable pub convert_to_proto_repository_provider : RepositoryProvider → Provider
convert_to_proto_repository_provider RepositoryProvider.github = Provider.github
convert_to_proto_repository_provider RepositoryProvider.gitlab = Provider.gitlab
convert_to_proto_repository_provider _ = Provider.unknown

unfoldable pub convert_to_proto_ingestion_event_type : IngestionEventType → EventType
convert_to_proto_ingestion_event_type full_index = EventType.full_index
convert_to_proto_ingestion_event_type incremental_index = EventType.incremental_index
convert_to_proto_ingestion_event_type unset = EventType.unknown_event

unfoldable pub convert_from_proto_repository_provider : Provider → RepositoryProvider
convert_from_proto_repository_provider Provider.github = RepositoryProvider.github
convert_from_proto_repository_provider Provider.gitlab = RepositoryProvider.gitlab
convert_from_proto_repository_provider _ = RepositoryProvider.other

unfoldable pub convert_from_proto_ingestion_event_type : EventType → IngestionEventType
convert_from_proto_ingestion_event_type EventType.full_index = full_index
convert_from_proto_ingestion_event_type EventType.incremental_index = incremental_index
convert_from_proto_ingestion_event_type _ = unset

abbrev read_repository : RepositoryEventMessage → Option Proto.Repository → Result IngestionMessage
read_repository c none = err (message "ingestion message: missing repository")
read_repository c (some r) = ok (record {
  provider = convert_from_proto_repository_provider c.provider;
  event_type = convert_from_proto_ingestion_event_type c.event_type;
  repository_id = r.id;
  repo_full_name = r.full_name;
  default_branch = r.default_branch;
  clone_url = r.clone_url;
  installation_id = c.installation_id;
  organization_id = c.organization_id;
  changed_paths = (net_file_changes c).0;
  removed_paths = (net_file_changes c).1;
})

-- A nil message is `none`.
unfoldable pub from_proto : Option RepositoryEventMessage → Result IngestionMessage
from_proto none = err (message "ingestion message: nil proto")
from_proto (some c) = read_repository c c.repository

unfoldable pub to_proto : IngestionMessage → RepositoryEventMessage
to_proto r = record {
  provider = convert_to_proto_repository_provider r.provider;
  event_type = convert_to_proto_ingestion_event_type r.event_type;
  repository = some (record {
    id = r.repository_id;
    full_name = r.repo_full_name;
    default_branch = r.default_branch;
    clone_url = r.clone_url;
  });
  installation_id = r.installation_id;
  organization_id = r.organization_id;
  commits = [];
  head_commit = none;
}
