-- ===== src/Imports.antt =====
-- internal/core/imports/service.go: an edge for each import of a package that has an indexed file.
pub mod Internal
use synthy.Prelude.{
  String, ℕ, false, ◌&&◌, List, [], ◌∷◌, ◌++◌, Option, none, some, Dict, lookup, ◌==◌,
  if◌then◌else◌,
}
use synthy.Exec.{Exec, pure, wrapping, ◌>>=◌, ◌>>◌}
use synthy.Model.{File, ImportEdge}
use synthy.Db.{insert_import_edge}
use synthy.World.{World, Env, new_row, insert_batch}
use synthy.Paths.{is_char}
use synthy.Packages.{Package, SyntaxFile, ImportSpec}

abbrev pub quote : ℕ
quote = 34

unfoldable pub trim_left_quotes : String → String
trim_left_quotes String.[] = ""
trim_left_quotes (String.◌∷◌ c s) = if is_char quote c then trim_left_quotes s else String.◌∷◌ c s

unfoldable pub trim_right_quotes : String → String
trim_right_quotes String.[] = ""
trim_right_quotes (String.◌∷◌ c s) =
    let rest = trim_right_quotes s in
    if is_char quote c && rest == "" then "" else String.◌∷◌ c rest

-- strings.Trim(s, `"`)
unfoldable pub trim_quotes : String → String
unfolding trim_left_quotes trim_right_quotes
trim_quotes s = trim_right_quotes (trim_left_quotes s)

-- `toFileID`: the first of the package's files that is in the map, "" if none is.
unfoldable pub to_file_id : Dict File → List String → String
to_file_id files [] = ""
to_file_id files (path ∷ paths) = elim (lookup path files) [
  | none ↦ to_file_id files paths
  | some f ↦ f.id
]

module _ (env : Env) (repository_id : String) (files : Dict File) where
  abbrev pub edge_row : String → String → String → Option String → String → ℕ → ImportEdge
  edge_row from_file_id to import_path alias id now = record {
    id = id;
    repository_id = repository_id;
    from_file_id = from_file_id;
    to_file_id = to;
    import_path = import_path;
    is_external = false;
    alias = alias;
    created_at = now;
    updated_at = now;
  }

  abbrev pub and_append : List ImportEdge → Option ImportEdge → List ImportEdge
  and_append edges none = edges
  and_append edges (some e) = edges ++ e ∷ []

  abbrev pub record_import :
      String
      → ImportSpec
      → Option (Option (List String))
      → List ImportEdge
      → Exec World (List ImportEdge)
  record_import from imp none edges = pure edges
  record_import from imp (some none) edges = pure edges
  record_import from imp (some (some go_files)) edges =
      if to_file_id files go_files == "" then pure edges else do
        e ←
            new_row env
              (edge_row from (to_file_id files go_files) (trim_quotes imp.path_value) imp.name)
        pure (and_append edges e)

  unfoldable pub visit_imports :
      String
      → Dict (Option (List String))
      → List ImportSpec
      → List ImportEdge
      → Exec World (List ImportEdge)
  visit_imports from imported [] edges = pure edges
  visit_imports from imported (imp ∷ imps) edges = do
    next ← record_import from imp (lookup (trim_quotes imp.path_value) imported) edges
    visit_imports from imported imps next

  abbrev pub file_imports :
      Option File
      → Dict (Option (List String))
      → SyntaxFile
      → List ImportEdge
      → Exec World (List ImportEdge)
  file_imports none imported f edges = pure edges
  file_imports (some file) imported f edges = visit_imports file.id imported f.imports edges

  unfoldable pub syntax_imports :
      Dict (Option (List String)) → List SyntaxFile → List ImportEdge → Exec World (List ImportEdge)
  unfolding visit_imports
  syntax_imports imported [] edges = pure edges
  syntax_imports imported (f ∷ fs) edges = do
    next ← file_imports (lookup f.file_path files) imported f edges
    syntax_imports imported fs next

  unfoldable pub build_imports_from : List Package → List ImportEdge → Exec World (List ImportEdge)
  unfolding syntax_imports
  build_imports_from [] edges = pure edges
  build_imports_from (pkg ∷ pkgs) edges = do
    next ← syntax_imports pkg.imported pkg.syntax edges
    build_imports_from pkgs next

  unfoldable pub build_imports : List Package → Exec World (List ImportEdge)
  unfolding build_imports_from
  build_imports pkgs = build_imports_from pkgs []

  abbrev pub save_imports : List ImportEdge → Exec World (List ImportEdge)
  save_imports [] = pure []
  save_imports (e ∷ edges) = do
    wrapping "insert import edges"
        (insert_batch env "insert import edge" insert_import_edge (e ∷ edges))
    pure (e ∷ edges)

  unfoldable pub build_and_save_imports : List Package → Exec World (List ImportEdge)
  unfolding build_imports
  build_and_save_imports pkgs = do edges ← build_imports pkgs; save_imports edges
