-- ===== src/Pipeline/Growth/Sources.antt =====
-- The rows of files and symbols.
use synthy.Paths.Relative.{rel_path_calm}
use synthy.Prelude.{String, List, [], ◌∷◌, Option, none, some, Dict}
use synthy.Exec.{Exec}
use synthy.World.Keeps.{
  Keeps, Keeps-pure, Keeps-if, Keeps-bind, Keeps-wrapping, keeps_rules, Keeps-lift,
}
use synthy.Model.{File, Symbol}
use synthy.Db.{Db, insert_file, insert_symbol}
use synthy.World.{World, Env}
use synthy.World.Growth.{
  OnDb, Extends, statement-Keeps, insert_batch-Keeps, new_row-Keeps, growth_rules,
}
use synthy.Packages.{
  Package, SyntaxFile, Object, FuncDecl, TypeSpec, ValueSpec, ValueName, Token, Node, gen_decl,
  func_decl, type_spec, value_spec, call_expr, illegal_token,
}
use synthy.Files
use synthy.Files.{excluded}
use synthy.Symbols
use synthy.Symbols.{Extraction}

module _ (env : Env) (Q : Db → Type 0) (g : Extends Q) where
  save_file-Keeps : (id root path : String) → Keeps (OnDb Q) (Files.save_file env id root path)
  unfolding Files.save_file Files.compute_checksum
  save_file-Keeps id root path =
      search
        (
          growth_rules,
          Keeps-lift _ (rel_path_calm root path),
          λ (f : File). statement-Keeps env Q (insert_file f) (g.file f),
        )
        depth 9

  unless_known-Keeps :
      (id root : String) (only : Option (List String)) (known : Option File) (path : String)
      (files : Dict File)
      → Keeps (OnDb Q) (Files.unless_known env id root only known path files)
  unless_known-Keeps id root only (some f) path files = Keeps-pure files
  unless_known-Keeps id root only none path files =
      Keeps-if (excluded only path) _ _ (Keeps-pure files)
        (search (keeps_rules, save_file-Keeps id root path))

  process_syntax-Keeps :
      (id root : String) (only : Option (List String)) (fs : List SyntaxFile) (files : Dict File)
      → Keeps (OnDb Q) (Files.process_syntax env id root only fs files)
  unfolding Files.process_syntax
  process_syntax-Keeps id root only [] files = Keeps-pure files
  process_syntax-Keeps id root only (f ∷ fs) files =
      Keeps-bind _ _ (unless_known-Keeps id root only _ _ files)
        (process_syntax-Keeps id root only fs)

  process_packages-Keeps :
      (id root : String) (only : Option (List String)) (pkgs : List Package) (files : Dict File)
      → Keeps (OnDb Q) (Files.process_packages env id root only pkgs files)
  unfolding Files.process_packages
  process_packages-Keeps id root only [] files = Keeps-pure files
  process_packages-Keeps id root only (p ∷ pkgs) files =
      Keeps-bind _ _ (process_syntax-Keeps id root only p.syntax files)
        (process_packages-Keeps id root only pkgs)

  pub process_files-Keeps :
      (id root : String) (pkgs : List Package) (only : Option (List String))
      → Keeps (OnDb Q) (Files.process_files env id root pkgs only)
  unfolding Files.process_files
  process_files-Keeps id root pkgs only = process_packages-Keeps id root only pkgs []

  symbol-Keeps :
      (id file_id : String) (x : Extraction) (definition : Option Object)
      (build : Object → Exec World (Option Symbol))
      → ((obj : Object) → Keeps (OnDb Q) (build obj))
      → Keeps (OnDb Q) (Symbols.unless_seen env id file_id definition build x)
  symbol-Keeps id file_id x none build kb = Keeps-pure x
  symbol-Keeps id file_id x (some obj) build kb =
      Keeps-if _ _ _ (Keeps-pure x) (Keeps-bind _ _ (kb obj) (λ sym. Keeps-pure _))

  function_symbol-Keeps :
      (id file_id : String) (d : FuncDecl) (obj : Object) (name : Option String)
      → Keeps (OnDb Q) (Symbols.function_symbol env id file_id d obj name)
  function_symbol-Keeps id file_id d obj none = Keeps-pure none
  function_symbol-Keeps id file_id d obj (some name) = new_row-Keeps env Q _

  type_symbol-Keeps :
      (id file_id : String) (s : TypeSpec) (obj : Object) (pkg : Option String)
      → Keeps (OnDb Q) (Symbols.type_symbol env id file_id s obj pkg)
  type_symbol-Keeps id file_id s obj none = Keeps-pure none
  type_symbol-Keeps id file_id s obj (some pkg) = new_row-Keeps env Q _

  value_symbol-Keeps :
      (id file_id : String) (s : ValueSpec) (n : ValueName) (t : Token) (obj : Object)
      (pkg : Option String)
      → Keeps (OnDb Q) (Symbols.value_symbol env id file_id s n t obj pkg)
  value_symbol-Keeps id file_id s n t obj none = Keeps-pure none
  value_symbol-Keeps id file_id s n t obj (some pkg) = new_row-Keeps env Q _

  visit_names-Keeps :
      (id file_id : String) (s : ValueSpec) (t : Token) (names : List ValueName) (x : Extraction)
      → Keeps (OnDb Q) (Symbols.visit_names env id file_id s t names x)
  unfolding Symbols.visit_names
  visit_names-Keeps id file_id s t [] x = Keeps-pure x
  visit_names-Keeps id file_id s t (n ∷ names) x =
      Keeps-bind _ _
        (Keeps-if _ _ _ (Keeps-pure x) (
          symbol-Keeps id file_id x n.definition _
            (λ obj. value_symbol-Keeps id file_id s n t obj obj.pkg)))
        (visit_names-Keeps id file_id s t names)

  visit-Keeps :
      (id file_id : String) (nodes : List Node) (t : Token) (x : Extraction)
      → Keeps (OnDb Q) (Symbols.visit env id file_id nodes t x)
  unfolding Symbols.visit
  visit-Keeps id file_id [] t x = Keeps-pure x
  visit-Keeps id file_id (gen_decl u ∷ nodes) t x = visit-Keeps id file_id nodes u x
  visit-Keeps id file_id (func_decl d ∷ nodes) t x =
      Keeps-bind _ _
        (symbol-Keeps id file_id x d.definition _
          (λ obj. function_symbol-Keeps id file_id d obj obj.func_name))
        (visit-Keeps id file_id nodes t)
  visit-Keeps id file_id (type_spec s ∷ nodes) t x =
      Keeps-bind _ _
        (symbol-Keeps id file_id x s.definition _
          (λ obj. type_symbol-Keeps id file_id s obj obj.pkg))
        (visit-Keeps id file_id nodes t)
  visit-Keeps id file_id (value_spec s ∷ nodes) t x =
      Keeps-bind _ _ (visit_names-Keeps id file_id s t s.names x) (visit-Keeps id file_id nodes t)
  visit-Keeps id file_id (call_expr c ∷ nodes) t x = visit-Keeps id file_id nodes t x

  visit_file-Keeps :
      (id : String) (files : Dict File) (file : Option File) (f : SyntaxFile) (x : Extraction)
      → Keeps (OnDb Q) (Symbols.visit_file env id files file f x)
  visit_file-Keeps id files none f x = Keeps-pure x
  visit_file-Keeps id files (some file) f x = visit-Keeps id file.id f.nodes illegal_token x

  extract_syntax-Keeps :
      (id : String) (files : Dict File) (fs : List SyntaxFile) (x : Extraction)
      → Keeps (OnDb Q) (Symbols.extract_syntax env id files fs x)
  unfolding Symbols.extract_syntax
  extract_syntax-Keeps id files [] x = Keeps-pure x
  extract_syntax-Keeps id files (f ∷ fs) x =
      Keeps-bind _ _ (visit_file-Keeps id files _ f x) (extract_syntax-Keeps id files fs)

  extract_packages-Keeps :
      (id : String) (files : Dict File) (pkgs : List Package) (x : Extraction)
      → Keeps (OnDb Q) (Symbols.extract_packages env id files pkgs x)
  unfolding Symbols.extract_packages
  extract_packages-Keeps id files [] x = Keeps-pure x
  extract_packages-Keeps id files (p ∷ pkgs) x =
      Keeps-bind _ _ (extract_syntax-Keeps id files p.syntax x)
        (extract_packages-Keeps id files pkgs)

  pub extract-Keeps :
      (id : String) (files : Dict File) (pkgs : List Package)
      → Keeps (OnDb Q) (Symbols.extract env id files pkgs)
  unfolding Symbols.extract
  extract-Keeps id files pkgs =
      Keeps-bind _ _ (extract_packages-Keeps id files pkgs _) (λ x. Keeps-pure x.result)

  save-Keeps :
      (id : String) (files : Dict File) (symbols : List Symbol)
      → Keeps (OnDb Q) (Symbols.save env id files symbols)
  save-Keeps id files [] = Keeps-pure []
  save-Keeps id files (s ∷ symbols) =
      Keeps-bind _ _
        (Keeps-wrapping _ _ (insert_batch-Keeps env Q _ insert_symbol g.symbol (s ∷ symbols)))
        (λ _. Keeps-pure _)

  pub extract_and_save-Keeps :
      (id : String) (files : Dict File) (pkgs : List Package)
      → Keeps (OnDb Q) (Symbols.extract_and_save env id files pkgs)
  unfolding Symbols.extract_and_save
  extract_and_save-Keeps id files pkgs =
      Keeps-bind _ _ (extract-Keeps id files pkgs) (save-Keeps id files)
