-- ===== src/Pipeline/Growth/Edges.antt =====
-- The rows of call and import edges.
use synthy.Prelude.{String, List, [], ◌∷◌, Option, none, some, Dict}
use synthy.World.Keeps.{Keeps, Keeps-pure, Keeps-if, Keeps-bind, Keeps-wrapping}
use synthy.Model.{File, Symbol, CallEdge, ImportEdge}
use synthy.Db.{Db, insert_call_edge, insert_import_edge}
use synthy.World.{Env}
use synthy.World.Growth.{OnDb, Extends, insert_batch-Keeps, new_row-Keeps}
use synthy.Packages.{
  Package, SyntaxFile, Node, ImportSpec, gen_decl, func_decl, type_spec, value_spec, call_expr,
}
use synthy.Calls
use synthy.Imports

module _ (env : Env) (Q : Db → Type 0) (g : Extends Q) (id : String) (files : Dict File) where
  module _ (symbols : Dict Symbol) where
    record_call-Keeps :
        (file_id : String) (caller callee : Option Symbol) (edges : List CallEdge)
        → Keeps (OnDb Q) (Calls.record_call env id symbols file_id caller callee edges)
    record_call-Keeps file_id none callee edges = Keeps-pure edges
    record_call-Keeps file_id (some caller) none edges = Keeps-pure edges
    record_call-Keeps file_id (some caller) (some callee) edges =
        Keeps-bind _ _ (new_row-Keeps env Q _) (λ e. Keeps-pure _)

    visit_calls-Keeps :
        (file_id : String) (nodes : List Node) (caller : Option Symbol) (edges : List CallEdge)
        → Keeps (OnDb Q) (Calls.visit_calls env id symbols file_id nodes caller edges)
    unfolding Calls.visit_calls
    visit_calls-Keeps file_id [] caller edges = Keeps-pure edges
    visit_calls-Keeps file_id (func_decl d ∷ nodes) caller edges =
        visit_calls-Keeps file_id nodes _ edges
    visit_calls-Keeps file_id (call_expr c ∷ nodes) caller edges =
        Keeps-bind _ _ (record_call-Keeps file_id caller _ edges)
          (visit_calls-Keeps file_id nodes caller)
    visit_calls-Keeps file_id (gen_decl _ ∷ nodes) caller edges =
        visit_calls-Keeps file_id nodes caller edges
    visit_calls-Keeps file_id (type_spec _ ∷ nodes) caller edges =
        visit_calls-Keeps file_id nodes caller edges
    visit_calls-Keeps file_id (value_spec _ ∷ nodes) caller edges =
        visit_calls-Keeps file_id nodes caller edges

    file_calls-Keeps :
        (file : Option File) (f : SyntaxFile) (edges : List CallEdge)
        → Keeps (OnDb Q) (Calls.file_calls env id symbols files file f edges)
    file_calls-Keeps none f edges = Keeps-pure edges
    file_calls-Keeps (some file) f edges = visit_calls-Keeps file.id f.nodes none edges

    syntax_calls-Keeps :
        (fs : List SyntaxFile) (edges : List CallEdge)
        → Keeps (OnDb Q) (Calls.syntax_calls env id symbols files fs edges)
    unfolding Calls.syntax_calls
    syntax_calls-Keeps [] edges = Keeps-pure edges
    syntax_calls-Keeps (f ∷ fs) edges =
        Keeps-bind _ _ (file_calls-Keeps _ f edges) (syntax_calls-Keeps fs)

    build_calls_from-Keeps :
        (pkgs : List Package) (edges : List CallEdge)
        → Keeps (OnDb Q) (Calls.build_calls_from env id symbols files pkgs edges)
    unfolding Calls.build_calls_from
    build_calls_from-Keeps [] edges = Keeps-pure edges
    build_calls_from-Keeps (p ∷ pkgs) edges =
        Keeps-bind _ _ (syntax_calls-Keeps p.syntax edges) (build_calls_from-Keeps pkgs)

    save_calls-Keeps :
        (edges : List CallEdge) → Keeps (OnDb Q) (Calls.save_calls env id symbols files edges)
    save_calls-Keeps [] = Keeps-pure []
    save_calls-Keeps (e ∷ edges) =
        Keeps-bind _ _
          (Keeps-wrapping _ _ (insert_batch-Keeps env Q _ insert_call_edge g.call_edge (e ∷ edges)))
          (λ _. Keeps-pure _)

    pub build_and_save_calls-Keeps :
        (pkgs : List Package)
        → Keeps (OnDb Q) (Calls.build_and_save_calls env id symbols files pkgs)
    unfolding Calls.build_and_save_calls
    build_and_save_calls-Keeps pkgs =
        Keeps-bind _ _ (build_calls_from-Keeps pkgs []) save_calls-Keeps

  record_import-Keeps :
      (from : String) (imp : ImportSpec) (target : Option (Option (List String)))
      (edges : List ImportEdge)
      → Keeps (OnDb Q) (Imports.record_import env id files from imp target edges)
  record_import-Keeps from imp none edges = Keeps-pure edges
  record_import-Keeps from imp (some none) edges = Keeps-pure edges
  record_import-Keeps from imp (some (some go_files)) edges =
      Keeps-if _ _ _ (Keeps-pure edges) (Keeps-bind _ _ (new_row-Keeps env Q _) (λ e. Keeps-pure _))

  visit_imports-Keeps :
      (from : String) (imported : Dict (Option (List String))) (imps : List ImportSpec)
      (edges : List ImportEdge)
      → Keeps (OnDb Q) (Imports.visit_imports env id files from imported imps edges)
  unfolding Imports.visit_imports
  visit_imports-Keeps from imported [] edges = Keeps-pure edges
  visit_imports-Keeps from imported (imp ∷ imps) edges =
      Keeps-bind _ _ (record_import-Keeps from imp _ edges) (visit_imports-Keeps from imported imps)

  file_imports-Keeps :
      (file : Option File) (imported : Dict (Option (List String))) (f : SyntaxFile)
      (edges : List ImportEdge)
      → Keeps (OnDb Q) (Imports.file_imports env id files file imported f edges)
  file_imports-Keeps none imported f edges = Keeps-pure edges
  file_imports-Keeps (some file) imported f edges =
      visit_imports-Keeps file.id imported f.imports edges

  syntax_imports-Keeps :
      (imported : Dict (Option (List String))) (fs : List SyntaxFile) (edges : List ImportEdge)
      → Keeps (OnDb Q) (Imports.syntax_imports env id files imported fs edges)
  unfolding Imports.syntax_imports
  syntax_imports-Keeps imported [] edges = Keeps-pure edges
  syntax_imports-Keeps imported (f ∷ fs) edges =
      Keeps-bind _ _ (file_imports-Keeps _ imported f edges) (syntax_imports-Keeps imported fs)

  build_imports_from-Keeps :
      (pkgs : List Package) (edges : List ImportEdge)
      → Keeps (OnDb Q) (Imports.build_imports_from env id files pkgs edges)
  unfolding Imports.build_imports_from
  build_imports_from-Keeps [] edges = Keeps-pure edges
  build_imports_from-Keeps (p ∷ pkgs) edges =
      Keeps-bind _ _ (syntax_imports-Keeps p.imported p.syntax edges)
        (build_imports_from-Keeps pkgs)

  save_imports-Keeps :
      (edges : List ImportEdge) → Keeps (OnDb Q) (Imports.save_imports env id files edges)
  save_imports-Keeps [] = Keeps-pure []
  save_imports-Keeps (e ∷ edges) =
      Keeps-bind _ _
        (Keeps-wrapping _ _
          (insert_batch-Keeps env Q _ insert_import_edge g.import_edge (e ∷ edges)))
        (λ _. Keeps-pure _)

  pub build_and_save_imports-Keeps :
      (pkgs : List Package) → Keeps (OnDb Q) (Imports.build_and_save_imports env id files pkgs)
  unfolding Imports.build_and_save_imports
  build_and_save_imports-Keeps pkgs =
      Keeps-bind _ _ (build_imports_from-Keeps pkgs []) save_imports-Keeps
