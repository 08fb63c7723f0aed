-- ===== src/Changes/Conversion.antt =====
-- Messages to the protobuf form and back.
use synthy.Prelude.{◌≡◌, refl, [], some, arith}
use synthy.Model.{RepositoryProvider}
use synthy.Exec.{ok}
use synthy.Changes.{
  IngestionMessage, unset, from_proto, to_proto, convert_to_proto_repository_provider,
  convert_to_proto_ingestion_event_type, convert_from_proto_repository_provider,
  convert_from_proto_ingestion_event_type, net_file_changes, IngestionEventType,
}

-- An unset provider comes back as `other`.
abbrev pub named : RepositoryProvider → RepositoryProvider
named RepositoryProvider.unset = RepositoryProvider.other
named RepositoryProvider.github = RepositoryProvider.github
named RepositoryProvider.gitlab = RepositoryProvider.gitlab
named RepositoryProvider.other = RepositoryProvider.other

provider_round_trip :
    (p : RepositoryProvider)
    → convert_from_proto_repository_provider (convert_to_proto_repository_provider p) ≡ named p
unfolding convert_from_proto_repository_provider convert_to_proto_repository_provider
provider_round_trip RepositoryProvider.unset = refl
provider_round_trip _ = refl

event_type_round_trip :
    (t : IngestionEventType)
    → convert_from_proto_ingestion_event_type (convert_to_proto_ingestion_event_type t) ≡ t
unfolding convert_from_proto_ingestion_event_type convert_to_proto_ingestion_event_type
event_type_round_trip unset = refl
event_type_round_trip _ = refl

-- A message that is published and read back is the same in every field but three: an unset provider
-- becomes `other`, and the changed and the removed paths are lost.
pub from_proto-to_proto :
    (m : IngestionMessage)
    → from_proto (some (to_proto m))
      ≡ ok (record m { provider = named m.provider; changed_paths = []; removed_paths = [] })
unfolding from_proto to_proto net_file_changes
from_proto-to_proto m =
    ground (arith, provider_round_trip m.provider, event_type_round_trip m.event_type)
