-- ===== src/Files.antt =====
-- internal/core/file/service.go: a row for each source file of the loaded packages. `fileMap` is
-- keyed by the absolute path.
pub mod Placed
use synthy.Prelude.{
  String, Bool, false, not, List, [], ◌∷◌, Option, none, some, Dict, lookup, insert, contains, ◌==◌,
  if◌then◌else◌,
}
use synthy.Exec.{Exec, pure, lift, wrapping, ◌>>=◌, ◌>>◌}
use synthy.Model.{File, Language, go_language, other_language}
use synthy.Db.{insert_file}
use synthy.World.{World, Env, read_file, generate_id, time_now, statement}
use synthy.Paths.{ext, rel_path, base, trim_dot}
use synthy.Packages.{Package, SyntaxFile}

abbrev pub language_of : String → Language
language_of path = if ext path == ".go" then go_language else other_language

-- `only != nil && !only[filePath]`
abbrev pub excluded : Option (List String) → String → Bool
excluded none path = false
excluded (some only) path = not (contains path only)

module _ (env : Env) where
  unfoldable pub compute_checksum : String → Exec World String
  compute_checksum path = do content ← read_file env path; pure (env.sha256hex content)

  -- The row of a file that is not in the map yet.
  unfoldable pub save_file : String → String → String → Exec World File
  unfolding compute_checksum
  save_file repository_id root path = do
    rel ← lift (rel_path root path)
    checksum ← wrapping "compute checksum" (compute_checksum path)
    id ← generate_id env
    now ← time_now env
    let file : File = record {
      id = id;
      repository_id = repository_id;
      path = rel;
      name = base path;
      extension = trim_dot (ext path);
      checksum = checksum;
      language = language_of path;
      is_binary = false;
      created_at = now;
      updated_at = now;
    }
    wrapping "insert file" (statement env (insert_file file))
    pure file

  module _ (repository_id root : String) (only : Option (List String)) where
    abbrev pub unless_known : Option File → String → Dict File → Exec World (Dict File)
    unless_known (some _) path files = pure files
    unless_known none path files =
        if excluded only path
        then pure files
        else do file ← save_file repository_id root path; pure (insert path file files)

    unfoldable pub process_syntax : List SyntaxFile → Dict File → Exec World (Dict File)
    process_syntax [] files = pure files
    process_syntax (f ∷ fs) files = do
      next ← unless_known (lookup f.file_path files) f.file_path files
      process_syntax fs next

    unfoldable pub process_packages : List Package → Dict File → Exec World (Dict File)
    unfolding process_syntax
    process_packages [] files = pure files
    process_packages (pkg ∷ pkgs) files = do
      next ← process_syntax pkg.syntax files
      process_packages pkgs next

  unfoldable pub process_files :
      String → String → List Package → Option (List String) → Exec World (Dict File)
  unfolding process_packages
  process_files repository_id root pkgs only = process_packages repository_id root only pkgs []
