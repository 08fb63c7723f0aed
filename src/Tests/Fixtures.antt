-- ===== src/Tests/Fixtures.antt =====
-- The data of the tests.
use synthy.Prelude.{String, ℕ, zero, suc, true, false, [], ◌∷◌, Option, none, some}
use synthy.Exec.{message, returned, failed}
use synthy.Model.{
  Repository, RepositoryProvider, File, Symbol, CodeChunk, CallEdge, SymbolType, SymbolVisibility,
  ChunkType, go_language,
}
use synthy.World.{World, Env, returned_api}
use synthy.Vectors.{Wiring}
use synthy.Pipeline.{RepositoryInput}
use synthy.Packages.{Extent}

abbrev pub name : ℕ → String
name zero = "n"
name (suc n) = String.◌∷◌ "n" (name n)

abbrev pub whole : Extent
whole = record {
  filename = "/tmp/r/a.go";
  start_offset = 0;
  end_offset = 4;
  start_line = 1;
  end_line = 1;
}

-- Nothing fails, and ids are fresh.
abbrev pub quiet : Env
quiet = record {
  now = λ n. n;
  random_id = λ n. returned (name n);
  db_fault = λ n. none;
  vector_fault = λ n. none;
  publish_fault = λ n. none;
  delivery_fault = λ n. none;
  generate_embeddings = λ n text kind. returned (1 ∷ 2 ∷ []);
  generate_summary = λ n text. returned "sum";
  random_vector_id = name;
  similar_vectors = λ n e k namespace. returned ("v1" ∷ []);
  installation_token = λ n id. returned "ghs";
  new_client = λ n id. none;
  api_installation = λ n id. returned_api (some "acme", some "Organization");
  api_repositories = λ n id page. returned_api ([], 0);
  api_branches = λ n id owner name page. returned_api ([], 0);
  new_id = λ n prefix. returned "ghi_1";
  query_escape = λ s. s;
  make_temp = λ n. returned "/tmp/x";
  remove_fault = λ n. none;
  parse_url = λ s. returned (record { user = none; rest = s });
  print_url = λ u. u.rest;
  run_git = λ n args. none;
  event_fault = λ n. none;
  read_file = λ n path. returned "code";
  parse_file = λ n path. returned (record { decls = []; whole = whole });
  load_packages = λ n path. failed (message "no network");
  sha256hex = λ s. s;
}

-- The index refuses every request.
abbrev pub no_index : Env
no_index = record quiet { vector_fault = λ n. some (message "pinecone is down") }

abbrev pub repo : Repository
repo = record {
  id = "r";
  organization_id = "o";
  name = "acme/r";
  description = none;
  default_branch = "main";
  repository_url = "https://example.invalid/r.git";
  storage_url = "/tmp/old";
  provider = RepositoryProvider.github;
  external_id = "7";
  created_at = 1;
  updated_at = 1;
}

abbrev pub some_file : String → String → File
some_file id path = record {
  id = id;
  repository_id = "r";
  path = path;
  name = path;
  extension = "go";
  checksum = "c";
  language = go_language;
  is_binary = false;
  created_at = 1;
  updated_at = 1;
}

abbrev pub some_symbol : String → String → String → Symbol
some_symbol id file_id fq_name = record {
  id = id;
  file_id = file_id;
  repository_id = "r";
  fq_name = fq_name;
  type = SymbolType.function;
  language = go_language;
  signature = "func()";
  receiver_type = none;
  visibility = SymbolVisibility.public;
  parent_symbol_id = none;
  start_line = 1;
  end_line = 9;
  start_column = 1;
  end_column = 2;
  created_at = 1;
  updated_at = 1;
}

abbrev pub some_chunk : String → String → String → Option String → CodeChunk
some_chunk id file_id symbol_id embedding_id = record {
  id = id;
  repository_id = "r";
  file_id = file_id;
  symbol_id = symbol_id;
  content = "func Keep() {}";
  content_hash = "h";
  type = ChunkType.function;
  language = go_language;
  start_line = 3;
  end_line = 5;
  embedding_id = embedding_id;
  summary = none;
  created_at = 1;
  updated_at = 1;
}

abbrev pub keep_chunk : CodeChunk
keep_chunk = some_chunk "c1" "f1" "s1" (some "v1")

abbrev pub edit_chunk : CodeChunk
edit_chunk = some_chunk "c2" "f2" "s2" (some "v2")

abbrev pub edge : CallEdge
edge = record {
  id = "e1";
  repository_id = "r";
  caller_symbol_id = "s1";
  callee_symbol_id = "s2";
  file_id = "f1";
  created_at = 1;
  updated_at = 1;
}

abbrev pub indexed : World
indexed = record {
  tick = 0;
  db = record {
    repositories = repo ∷ [];
    files = some_file "f1" "keep.go" ∷ some_file "f2" "edit.go" ∷ [];
    symbols = some_symbol "s1" "f1" "p.Keep" ∷ some_symbol "s2" "f2" "p.Edit" ∷ [];
    chunks = keep_chunk ∷ edit_chunk ∷ [];
    call_edges = edge ∷ [];
    import_edges = [];
    installations = [];
  };
  requests = [];
  published = [];
  settled = [];
  clones = [];
  queued = [];
  clients = [];
}

abbrev pub wired : Wiring
wired = record { vectors = true; embedding_publisher = true }

-- A push that changes edit.go.
abbrev pub push : RepositoryInput
push = record {
  organization_id = "o";
  external_id = "7";
  name = "acme/r";
  default_branch = "main";
  repository_url = "https://example.invalid/r.git";
  provider = RepositoryProvider.github;
  incremental = true;
  changed_paths = "edit.go" ∷ [];
  removed_paths = [];
}
