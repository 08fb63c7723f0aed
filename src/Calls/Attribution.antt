-- ===== src/Calls/Attribution.antt =====
-- To which function a call is charged.
use synthy.Prelude.{String, suc, ◌≡◌, refl, [], ◌∷◌, some, none, Dict, lookup}
use synthy.Exec.{ok, returned, pure, attempt, ◌>>=◌}
use synthy.Model.{Symbol}
use synthy.World.{World, Env, new_row, generate_id, time_now}
use synthy.Packages.{
  FuncDecl, ValueSpec, Token, CallFun, gen_decl, func_decl, value_spec, call_expr,
}
use synthy.Calls.{callee_name, func_of, find_symbol, edge_row, visit_calls}

-- A call in a declaration of values that follows a function is charged to that function, though it
-- stands outside of it: where both symbols are known and an id is to be had, walking a function
-- without calls and then a declaration with one call yields an edge from the function.
pub call_after_function :
    (env : Env) (repository_id file_id : String) (symbols : Dict Symbol) (d : FuncDecl) (t : Token)
    (v : ValueSpec) (fun : CallFun) (name id : String) (caller callee : Symbol) (w : World)
    → func_of d.definition ≡ some name
    → lookup name symbols ≡ some caller
    → find_symbol env repository_id symbols (callee_name fun) ≡ some callee
    → env.random_id w.tick ≡ returned id
    → (visit_calls env repository_id symbols file_id
        (func_decl d ∷ gen_decl t ∷ value_spec v ∷ call_expr fun ∷ [])
        none
        []
        w).0
      ≡ ok (edge_row env repository_id symbols file_id caller callee id (env.now (suc w.tick)) ∷ [])
unfolding visit_calls new_row generate_id time_now pure attempt ◌>>=◌
call_after_function env repository_id file_id symbols d t v fun name id caller callee w n c k r =
    rw (n, c, k, r) refl
