-- ===== src/Tests/Whole.antt =====
-- The program from an empty database: a repository is indexed, and its chunk is embedded.
use synthy.Text.{byte_length, byte_slice}
use synthy.Ingestion.Spared.{PassesBy}
use synthy.Db.Rows.{get_repository_by_external_id}
use synthy.Pipeline.{
  load_packages, build_edges, chunk_and_publish, process_full, go_files, build_index,
}
use synthy.Paths.{ext, rel_path, trim_dot, is_abs}
use synthy.Chunker.{process_file}
use synthy.Files.{save_file, process_files}
use synthy.Symbols.{visit, extract_and_save}
use synthy.Imports.{build_and_save_imports}
use synthy.Calls.{build_and_save_calls}
use synthy.Ingestion.{handle, handle_delivery, IngestionDelivery}
use synthy.Consumers.{ack}
use synthy.Db.{insert_repository, insert_file, insert_symbol, insert_chunk}
use synthy.Retrieval.{pos}
use synthy.Prelude.{
  String_discrete, ◌≡◌, refl, false, true, List, [], ◌∷◌, none, some, inl, inr, ap, sym, Member,
  exists, keep, find, contains, lookup, insert, arith, ◌++◌,
}
use synthy.Exec.{returned, on_error, deferring, ◌>>=◌}
use synthy.Model.{RepositoryProvider, CodeChunk, ChunkType, File, go_language}
use synthy.World.{
  World, Env, read_file, parse_file, packages_load, insert_batch, publish_embedding, new_row,
}
use synthy.Packages.{SyntaxFile, func_decl}
use synthy.Changes.{IngestionMessage, IngestionEventType}
use synthy.Github.Client.{Client}
use synthy.System.{
  Event, repository_event, embedding_event, summary_event, http_request, rpc_request, react_all,
  react,
}
use synthy.System.Spared.{push_keeps_chunk}
use synthy.System.Coherent.{AreOwned, react_all-AreOwned}
use synthy.Github.Api.{Request}
use synthy.Tests.Fixtures.{name, quiet, indexed, wired}

abbrev main_file : SyntaxFile
main_file = record {
  file_path = "/tmp/x/r/a.go";
  imports = [];
  nodes =
      func_decl (record {
        span = record { start_line = 1; end_line = 2; start_column = 1; end_column = 2 };
        name = "Keep";
        is_exported = true;
        receiver = none;
        definition = some (record {
          identity = 1;
          pkg = some "p";
          name = "Keep";
          type_string = "func()";
          func_name = some "p.Keep";
        });
      })
      ∷ [];
}

-- git gives a repository of one file, with one function.
abbrev online : Env
online = record quiet {
  load_packages = λ n path. returned (record { imported = []; syntax = main_file ∷ [] } ∷ []);
}

abbrev empty : World
empty = record indexed {
  db = record {
    repositories = [];
    files = [];
    symbols = [];
    chunks = [];
    call_edges = [];
    import_edges = [];
    installations = [];
  };
}

abbrev client : Client
client = record { ok = true; slug = "synthy" }

abbrev full_index : IngestionMessage
full_index = record {
  provider = RepositoryProvider.github;
  event_type = IngestionEventType.full_index;
  repository_id = 70;
  repo_full_name = "acme/r";
  default_branch = "main";
  clone_url = "https://example.invalid/r.git";
  installation_id = 0;
  organization_id = "o";
  changed_paths = [];
  removed_paths = [];
}

abbrev day : List Event
day =
    repository_event (record { tag = 1; message = full_index })
    ∷ http_request (record { member = returned "o"; manager = returned "o" }) Request.get_indexed
    ∷ embedding_event (record { tag = 2; chunk_id = name 18; repository_id = "r" })
    ∷ summary_event (record { tag = 3; chunk_id = name 18; repository_id = "r" })
    ∷ rpc_request (record { query = "keep"; top_k = pos 5 })
    ∷ []

react_all-AreOwned_example : AreOwned (react_all online client wired day empty).db
react_all-AreOwned_example = react_all-AreOwned online client wired day empty refl

-- what the first day leaves
abbrev chunk : CodeChunk
chunk = record {
  id = name 18;
  repository_id = name 3;
  file_id = name 8;
  symbol_id = name 11;
  content = "code";
  content_hash = "code";
  type = ChunkType.other;
  language = go_language;
  start_line = 1;
  end_line = 1;
  embedding_id = none;
  summary = none;
  created_at = 19;
  updated_at = 19;
}

abbrev first : List Event
first = repository_event (record { tag = 1; message = full_index }) ∷ []

abbrev a_go : File
a_go = record {
  id = name 8;
  repository_id = name 3;
  path = "a.go";
  name = "a.go";
  extension = "go";
  checksum = "code";
  language = go_language;
  is_binary = false;
  created_at = 9;
  updated_at = 9;
}

stored :
    ((react_all online client wired first empty).db.chunks ≡ chunk ∷ [])
    × ((react_all online client wired first empty).db.files ≡ a_go ∷ [])
unfolding insert_repository insert_file insert_symbol insert_chunk ack handle handle_delivery
    build_and_save_calls build_and_save_imports visit extract_and_save read_file parse_file
    packages_load insert_batch publish_embedding new_row save_file process_files process_file
    react_all ext rel_path trim_dot load_packages build_edges chunk_and_publish process_full
    build_index byte_length byte_slice on_error deferring ◌>>=◌ get_repository_by_external_id keep
    find contains lookup insert String_discrete
stored = (refl, refl)

-- A push that adds another file.
abbrev push : IngestionDelivery
push = record {
  tag = 2;
  message = record full_index {
    event_type = IngestionEventType.incremental_index;
    changed_paths = "b.go" ∷ [];
  };
}

b_go_only : contains "a.go" (go_files push.message.changed_paths ++ []) ≡ false
unfolding go_files contains exists keep ext String_discrete
b_go_only = refl

later-PassesBy : PassesBy chunk push.message (react_all online client wired first empty).db
unfolding is_abs go_files keep
later-PassesBy r e = (
  λ f m mine listed. elim (rw (stored.1) at m) [
    | inl same ↦ absurd (
        ground (
          arith,
          listed,
          b_go_only,
          ap (λ (g : File). contains g.path (go_files push.message.changed_paths ++ [])) same,
        ))
    | inr bad ↦ absurd bad
  ],
  inl λ f m mine. elim (rw (stored.1) at m) [
    | inl same ↦ ap (λ (g : File). is_abs g.path) (sym same)
    | inr bad ↦ absurd bad
  ],
)

push_keeps_chunk_example :
    Member chunk
      (react online client wired
        (repository_event push)
        (react_all online client wired first empty)).db.chunks
push_keeps_chunk_example =
    push_keeps_chunk online client wired first empty chunk push refl (rw (stored.0) (inl refl)) refl
      later-PassesBy
