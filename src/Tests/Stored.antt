-- ===== src/Tests/Stored.antt =====
-- Files and symbols as rows.
use synthy.Prelude.{
  ◌≡◌, refl, false, List, [], ◌∷◌, some, lookup, insert, contains, String_discrete, exists, All,
  none, true,
}
use synthy.Exec.{ok, pure, attempt, ◌>>=◌}
use synthy.Model.{File, Symbol, SymbolType, SymbolVisibility, go_language}
use synthy.Db.{insert_file}
use synthy.World.{new_row, read_file, generate_id, time_now, statement}
use synthy.Packages.{Package, TypeSpec, struct_type, type_token, gen_decl, type_spec}
use synthy.Paths.{rel_path, base, trim_dot, ext}
use synthy.Files.{process_files, save_file, excluded}
use synthy.Files.Placed.{IsRowOf, process_files-IsRowOf}
use synthy.Symbols.{extract, visit}
use synthy.Symbols.Extracted.{IsExtracted, extract-IsExtracted}
use synthy.Tests.Fixtures.{quiet, indexed}

abbrev new_file : List Package
new_file =
    record {
      syntax = record { file_path = "/tmp/r/q/new.go"; nodes = []; imports = [] } ∷ [];
      imported = [];
    }
    ∷ []

abbrev new_row_of_file : File
new_row_of_file = record {
  id = "nn";
  repository_id = "r";
  path = "q/new.go";
  name = "new.go";
  extension = "go";
  checksum = "code";
  language = go_language;
  is_binary = false;
  created_at = 2;
  updated_at = 2;
}

files_one :
    (process_files quiet "r" "/tmp/r" new_file (some ("/tmp/r/q/new.go" ∷ [])) indexed).0
    ≡ ok (("/tmp/r/q/new.go", new_row_of_file) ∷ [])
unfolding process_files lookup insert contains pure ◌>>=◌ String_discrete save_file rel_path
    read_file generate_id time_now statement insert_file base trim_dot ext
files_one = refl

finds_it :
    lookup "/tmp/r/q/new.go" (("/tmp/r/q/new.go", new_row_of_file) ∷ []) ≡ some new_row_of_file
unfolding lookup String_discrete
finds_it = refl

process_files-IsRowOf_example :
    IsRowOf quiet "r" "/tmp/r" "/tmp/r/q/new.go" new_row_of_file
    × (excluded (some ("/tmp/r/q/new.go" ∷ [])) "/tmp/r/q/new.go" ≡ false)
process_files-IsRowOf_example =
    process_files-IsRowOf quiet "r" "/tmp/r" (some ("/tmp/r/q/new.go" ∷ [])) new_file indexed
      (("/tmp/r/q/new.go", new_row_of_file) ∷ []) "/tmp/r/q/new.go" new_row_of_file files_one
      finds_it

abbrev type_t : TypeSpec
type_t = record {
  span = record { start_line = 3; end_line = 4; start_column = 1; end_column = 2 };
  is_exported = true;
  type_expr = struct_type;
  definition = some (record {
    identity = 1;
    pkg = some "acme/r/q";
    name = "T";
    type_string = "acme/r/q.T";
    func_name = none;
  });
}

abbrev with_type : List Package
with_type =
    record {
      syntax =
          record {
            file_path = "/tmp/r/q/new.go";
            nodes = gen_decl type_token ∷ type_spec type_t ∷ [];
            imports = [];
          }
          ∷ [];
      imported = [];
    }
    ∷ []

abbrev symbol_t : Symbol
symbol_t = record {
  id = "n";
  file_id = "nn";
  repository_id = "r";
  fq_name = "acme/r/q.T";
  type = SymbolType.type;
  language = go_language;
  signature = "acme/r/q.T";
  receiver_type = none;
  visibility = SymbolVisibility.public;
  parent_symbol_id = none;
  start_line = 3;
  end_line = 4;
  start_column = 1;
  end_column = 2;
  created_at = 1;
  updated_at = 1;
}

symbols_one :
    (extract quiet "r" (("/tmp/r/q/new.go", new_row_of_file) ∷ []) with_type indexed).0
    ≡ ok (symbol_t ∷ [])
unfolding extract lookup exists new_row pure attempt ◌>>=◌ String_discrete visit
symbols_one = refl

extract-IsExtracted_example :
    All (IsExtracted quiet "r" (("/tmp/r/q/new.go", new_row_of_file) ∷ [])) (symbol_t ∷ [])
extract-IsExtracted_example =
    extract-IsExtracted quiet "r" (("/tmp/r/q/new.go", new_row_of_file) ∷ []) with_type indexed
      (symbol_t ∷ []) symbols_one
