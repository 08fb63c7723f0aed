-- ===== src/Calls.antt =====
-- internal/core/calls/service.go: an edge for each call whose caller and callee are known symbols.
pub mod Sound
pub mod Attribution
use synthy.Prelude.{String, ℕ, List, [], ◌∷◌, ◌++◌, Option, none, some, Dict, lookup}
use synthy.Exec.{Exec, pure, wrapping, ◌>>=◌, ◌>>◌}
use synthy.Model.{File, Symbol, CallEdge}
use synthy.Db.{insert_call_edge}
use synthy.World.{World, Env, new_row, insert_batch}
use synthy.Packages.{
  Package, SyntaxFile, Node, Object, CallFun, gen_decl, func_decl, type_spec, value_spec, call_expr,
  ident, selector, other_fun,
}

abbrev pub func_of : Option Object → Option String
func_of none = none
func_of (some obj) = obj.func_name

-- The full name of the called *types.Func, if the lookups give one.
abbrev pub callee_name : CallFun → Option String
callee_name (ident use_obj) = func_of use_obj
callee_name (selector none use_obj) = func_of use_obj
callee_name (selector (some sel) use_obj) = sel.func_name
callee_name other_fun = none

module _ (env : Env) (repository_id : String) (symbols : Dict Symbol) where
  abbrev pub find_symbol : Option String → Option Symbol
  find_symbol none = none
  find_symbol (some name) = lookup name symbols

  -- `callerSymbol` after a function declaration
  abbrev pub caller_after : Option String → Option Symbol → Option Symbol
  caller_after none caller = caller
  caller_after (some name) caller = lookup name symbols

  abbrev pub edge_row : String → Symbol → Symbol → String → ℕ → CallEdge
  edge_row file_id caller callee id now = record {
    id = id;
    repository_id = repository_id;
    caller_symbol_id = caller.id;
    callee_symbol_id = callee.id;
    file_id = file_id;
    created_at = now;
    updated_at = now;
  }

  abbrev pub and_append : List CallEdge → Option CallEdge → List CallEdge
  and_append edges none = edges
  and_append edges (some e) = edges ++ e ∷ []

  abbrev pub record_call :
      String → Option Symbol → Option Symbol → List CallEdge → Exec World (List CallEdge)
  record_call file_id none callee edges = pure edges
  record_call file_id (some caller) none edges = pure edges
  record_call file_id (some caller) (some callee) edges = do
    e ← new_row env (edge_row file_id caller callee)
    pure (and_append edges e)

  -- The callback of ast.Inspect: `callerSymbol` is the third argument.
  unfoldable pub visit_calls :
      String → List Node → Option Symbol → List CallEdge → Exec World (List CallEdge)
  visit_calls file_id [] caller edges = pure edges
  visit_calls file_id (func_decl d ∷ nodes) caller edges =
      visit_calls file_id nodes (caller_after (func_of d.definition) caller) edges
  visit_calls file_id (call_expr fun ∷ nodes) caller edges = do
    next ← record_call file_id caller (find_symbol (callee_name fun)) edges
    visit_calls file_id nodes caller next
  visit_calls file_id (gen_decl _ ∷ nodes) caller edges = visit_calls file_id nodes caller edges
  visit_calls file_id (type_spec _ ∷ nodes) caller edges = visit_calls file_id nodes caller edges
  visit_calls file_id (value_spec _ ∷ nodes) caller edges = visit_calls file_id nodes caller edges

  module _ (files : Dict File) where
    abbrev pub file_calls : Option File → SyntaxFile → List CallEdge → Exec World (List CallEdge)
    file_calls none f edges = pure edges
    file_calls (some file) f edges = visit_calls file.id f.nodes none edges

    unfoldable pub syntax_calls : List SyntaxFile → List CallEdge → Exec World (List CallEdge)
    unfolding visit_calls
    syntax_calls [] edges = pure edges
    syntax_calls (f ∷ fs) edges = do
      next ← file_calls (lookup f.file_path files) f edges
      syntax_calls fs next

    unfoldable pub build_calls_from : List Package → List CallEdge → Exec World (List CallEdge)
    unfolding syntax_calls
    build_calls_from [] edges = pure edges
    build_calls_from (pkg ∷ pkgs) edges = do
      next ← syntax_calls pkg.syntax edges
      build_calls_from pkgs next

    unfoldable pub build_calls : List Package → Exec World (List CallEdge)
    unfolding build_calls_from
    build_calls pkgs = build_calls_from pkgs []

    abbrev pub save_calls : List CallEdge → Exec World (List CallEdge)
    save_calls [] = pure []
    save_calls (e ∷ edges) = do
      wrapping "insert call edges"
          (insert_batch env "insert call edge" insert_call_edge (e ∷ edges))
      pure (e ∷ edges)

    unfoldable pub build_and_save_calls : List Package → Exec World (List CallEdge)
    unfolding build_calls
    build_and_save_calls pkgs = do edges ← build_calls pkgs; save_calls edges
