-- ===== src/Tests/Sources.antt =====
-- Chunks and call edges.
use synthy.Text.{byte_slice, byte_drop, byte_take}
use synthy.Prelude.{
  String, ℕ, ◌≡◌, refl, true, false, List, [], ◌∷◌, Option, none, some, All, Dict, length, ◌+◌,
  String_discrete, lookup, find,
}
use synthy.Exec.{ok, attempt, pure, ◌>>=◌}
use synthy.Model.{Symbol, File, CallEdge, ImportEdge, ChunkType}
use synthy.World.{new_row, generate_id, time_now}
use synthy.Packages.{
  Object, FuncDecl, ValueSpec, Span, Package, Node, gen_decl, func_decl, value_spec, call_expr,
  ident, var_token,
}
use synthy.Calls.{find_symbol, edge_row, visit_calls, build_calls}
use synthy.Calls.Sound.{IsSound, build_calls-IsSound}
use synthy.Calls.Attribution.{call_after_function}
use synthy.Imports.{build_imports, trim_quotes, to_file_id}
use synthy.Imports.Internal.{IsInternal, build_imports-IsInternal}
use synthy.Chunker.{RawChunk, Sorted, sort_chunks, chunk_row}
use synthy.Chunker.Kept.{IsKept, sort_chunks_accounts}
use synthy.Tests.Fixtures.{quiet, some_file, some_symbol, indexed}

abbrev cut : String → ℕ → ℕ → RawChunk
cut content start_line end_line = record {
  content = content;
  content_hash = content;
  type = ChunkType.function;
  start_line = start_line;
  end_line = end_line;
}

-- a function, a blank text and a text outside of every symbol
abbrev three_cuts : List RawChunk
three_cuts = cut "func Keep() {}" 3 5 ∷ cut " " 3 5 ∷ cut "type T struct{}" 20 21 ∷ []

abbrev known : List Symbol
known = some_symbol "s1" "f1" "p.Keep" ∷ []

abbrev three_sorted : Sorted
three_sorted = record {
  chunks =
      chunk_row quiet "r" "f1" "keep.go" known (cut "func Keep() {}" 3 5)
        (some_symbol "s1" "f1" "p.Keep") "n" 1
      ∷ [];
  unmatched = 1;
  blank = 1;
}

sorts_three :
    (sort_chunks quiet "r" "f1" "keep.go" known three_cuts
      (record { chunks = []; unmatched = 0; blank = 0 })
      indexed).0
    ≡ ok three_sorted
unfolding sort_chunks find pure generate_id time_now ◌>>=◌ String_discrete
sorts_three = refl

sort_chunks_accounts_example :
    (length three_sorted.chunks + three_sorted.unmatched + three_sorted.blank ≡ length three_cuts)
    × All (IsKept quiet "r" "f1" "keep.go" known) three_sorted.chunks
sort_chunks_accounts_example =
    sort_chunks_accounts quiet "r" "f1" "keep.go" known three_cuts three_sorted indexed sorts_three

abbrev object : String → Option Object
object name = some (record {
  identity = 1;
  pkg = some "p";
  name = name;
  type_string = "func()";
  func_name = some name;
})

abbrev here : Span
here = record { start_line = 1; end_line = 2; start_column = 1; end_column = 2 }

abbrev decl : FuncDecl
decl = record {
  span = here;
  name = "Keep";
  is_exported = true;
  receiver = none;
  definition = object "p.Keep";
}

abbrev value : ValueSpec
value = record { span = here; names = [] }

abbrev names : Dict Symbol
names = ("p.Keep", some_symbol "s1" "f1" "p.Keep") ∷ ("p.Edit", some_symbol "s2" "f2" "p.Edit") ∷ []

abbrev call_nodes : List Node
call_nodes =
    func_decl decl
    ∷ gen_decl var_token
    ∷ value_spec value
    ∷ call_expr (ident (object "p.Edit"))
    ∷ []

abbrev call_edge : CallEdge
call_edge =
    edge_row quiet "r" names "f1" (some_symbol "s1" "f1" "p.Keep") (some_symbol "s2" "f2" "p.Edit")
      "n" 1

finds :
    (lookup "p.Keep" names ≡ some (some_symbol "s1" "f1" "p.Keep"))
    × (find_symbol quiet "r" names (some "p.Edit") ≡ some (some_symbol "s2" "f2" "p.Edit"))
unfolding lookup String_discrete
finds = (refl, refl)

call_after_function_example :
    (visit_calls quiet "r" names "f1" call_nodes none [] indexed).0 ≡ ok (call_edge ∷ [])
call_after_function_example =
    call_after_function quiet "r" "f1" names decl var_token value (ident (object "p.Edit")) "p.Keep"
      "n" (some_symbol "s1" "f1" "p.Keep") (some_symbol "s2" "f2" "p.Edit") indexed refl (finds.0)
      (finds.1) refl

abbrev files : Dict File
files = ("/tmp/r/keep.go", some_file "f1" "keep.go") ∷ []

abbrev packages : List Package
packages =
    record {
      syntax = record { file_path = "/tmp/r/keep.go"; nodes = call_nodes; imports = [] } ∷ [];
      imported = [];
    }
    ∷ []

builds_one : (build_calls quiet "r" names files packages indexed).0 ≡ ok (call_edge ∷ [])
unfolding build_calls lookup new_row pure attempt ◌>>=◌ String_discrete
builds_one = refl

build_calls-IsSound_example : All (IsSound quiet "r" names files) (call_edge ∷ [])
build_calls-IsSound_example =
    build_calls-IsSound quiet "r" names files packages indexed (call_edge ∷ []) builds_one

abbrev two_files : Dict File
two_files =
    ("/tmp/r/keep.go", some_file "f1" "keep.go")
    ∷ ("/tmp/r/q/edit.go", some_file "f2" "q/edit.go")
    ∷ []

abbrev importing : List Package
importing =
    record {
      syntax =
          record {
            file_path = "/tmp/r/keep.go";
            nodes = [];
            imports = record { path_value = "\"acme/r/q\""; name = none } ∷ [];
          }
          ∷ [];
      imported = ("acme/r/q", some ("/tmp/r/q/edit.go" ∷ [])) ∷ [];
    }
    ∷ []

abbrev import_edge : ImportEdge
import_edge = record {
  id = "n";
  repository_id = "r";
  from_file_id = "f1";
  to_file_id = "f2";
  import_path = "acme/r/q";
  is_external = false;
  alias = none;
  created_at = 1;
  updated_at = 1;
}

imports_one : (build_imports quiet "r" two_files importing indexed).0 ≡ ok (import_edge ∷ [])
unfolding build_imports lookup new_row pure attempt ◌>>=◌ String_discrete trim_quotes to_file_id
imports_one = refl

build_imports-IsInternal_example : All (IsInternal quiet "r" two_files) (import_edge ∷ [])
build_imports-IsInternal_example =
    build_imports-IsInternal quiet "r" two_files importing indexed (import_edge ∷ []) imports_one

-- The accent takes two bytes.
bytes : byte_slice "é = 1" 3 6 ≡ "= 1"
unfolding byte_slice byte_drop byte_take
bytes = refl
