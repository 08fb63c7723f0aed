-- ===== src/Files/Placed.antt =====
-- Which files are stored, and under which paths.
use mathlib.Core.Path.{subst}
use synthy.Prelude.{
  String, ◌≡◌, refl, inl, inr, arith, false, List, [], ◌∷◌, Option, none, some, Dict, lookup,
  insert, lookup-insert, Bool-cases, ◌==◌, ==_iff,
}
use synthy.Exec.{ok, pure, lift, wrapping}
use synthy.Exec.Rules.{>>=-eq-ok, ok_injective}
use synthy.Model.{File}
use synthy.World.{World, Env, generate_id, time_now}
use synthy.Packages.{Package, SyntaxFile}
use synthy.Paths.{rel_path}
use synthy.Files.{
  excluded, compute_checksum, save_file, unless_known, process_syntax, process_packages,
  process_files,
}

module _ (env : Env) (repository_id root : String) where
  -- The row of the file at an absolute path: of the repository, and under its path from the root.
  abbrev pub IsRowOf : String → File → Type 0
  IsRowOf path f = (f.repository_id ≡ repository_id) × (rel_path root path ≡ ok f.path)

  save_file-IsRowOf :
      (path : String) (f : File) (w : World)
      → (save_file env repository_id root path w).0 ≡ ok f
      → IsRowOf path f
  unfolding save_file lift pure
  save_file-IsRowOf path f w e =
      let (rel, got, e1) = >>=-eq-ok (lift (rel_path root path)) _ w e in
      let (checksum, _, e2) =
        >>=-eq-ok (wrapping "compute checksum" (compute_checksum env path)) _ _ e1 in
      let (id, _, e3) = >>=-eq-ok (generate_id env) _ _ e2 in
      let (now, _, e4) = >>=-eq-ok (time_now env) _ _ e3 in
      let (_, _, e5) = >>=-eq-ok _ _ _ e4 in subst (IsRowOf path) (ok_injective e5) (refl, got)

  module _ (only : Option (List String)) where
    -- Every entry of the map is the row of its path, which is one of the paths asked for.
    abbrev ArePlaced : Dict File → Type 0
    ArePlaced files =
        (path : String) (f : File)
        → lookup path files ≡ some f
        → IsRowOf path f × (excluded only path ≡ false)

    insert-ArePlaced :
        (path : String) (f : File) (files : Dict File)
        → IsRowOf path f
        → excluded only path ≡ false
        → ArePlaced files
        → ArePlaced (insert path f files)
    insert-ArePlaced path f files row wanted placed p g e = elim (Bool-cases (path == p)) [
      | inl same ↦
          let q = (==_iff path p).0 same in
          ground (arith, lookup-insert path p f files, row, wanted, q)
      | inr other ↦ placed p g (ground (arith, lookup-insert path p f files))
    ]

    unless_known-ArePlaced :
        (found : Option File) (path : String) (files out : Dict File) (w : World)
        → ArePlaced files
        → (unless_known env repository_id root only found path files w).0 ≡ ok out
        → ArePlaced out
    unfolding pure
    unless_known-ArePlaced (some g) path files out w placed e =
        subst ArePlaced (ok_injective e) placed
    unless_known-ArePlaced none path files out w placed e = elim (Bool-cases (excluded only path)) [
      | inl skipped ↦ subst ArePlaced (ok_injective (rw skipped at e)) placed
      | inr wanted ↦
          let (f, saved, h) =
            >>=-eq-ok (save_file env repository_id root path) _ w (rw wanted at e) in
          subst ArePlaced (ok_injective h)
            (insert-ArePlaced path f files (save_file-IsRowOf path f w saved) wanted placed)
    ]

    process_syntax-ArePlaced :
        (fs : List SyntaxFile) (files out : Dict File) (w : World)
        → ArePlaced files
        → (process_syntax env repository_id root only fs files w).0 ≡ ok out
        → ArePlaced out
    unfolding process_syntax pure
    process_syntax-ArePlaced [] files out w placed e = subst ArePlaced (ok_injective e) placed
    process_syntax-ArePlaced (f ∷ fs) files out w placed e =
        let found = lookup f.file_path files in
        let (next, first, rest) =
          >>=-eq-ok (unless_known env repository_id root only found f.file_path files) _ w e in
        process_syntax-ArePlaced fs next out _
          (unless_known-ArePlaced found f.file_path files next w placed first) rest

    process_packages-ArePlaced :
        (pkgs : List Package) (files out : Dict File) (w : World)
        → ArePlaced files
        → (process_packages env repository_id root only pkgs files w).0 ≡ ok out
        → ArePlaced out
    unfolding process_packages pure
    process_packages-ArePlaced [] files out w placed e = subst ArePlaced (ok_injective e) placed
    process_packages-ArePlaced (p ∷ pkgs) files out w placed e =
        let (next, first, rest) =
          >>=-eq-ok (process_syntax env repository_id root only p.syntax files) _ w e in
        process_packages-ArePlaced pkgs next out _
          (process_syntax-ArePlaced p.syntax files next w placed first) rest

    -- If the files of the packages are stored, then each entry of the map that is returned is a row
    -- of the repository whose path is the entry's absolute path relative to the root; and where the
    -- paths are restricted, the entry's path is one of those asked for.
    pub process_files-IsRowOf :
        (pkgs : List Package) (w : World) (out : Dict File) (path : String) (f : File)
        → (process_files env repository_id root pkgs only w).0 ≡ ok out
        → lookup path out ≡ some f
        → IsRowOf path f × (excluded only path ≡ false)
    unfolding process_files lookup
    process_files-IsRowOf pkgs w out path f e =
        process_packages-ArePlaced pkgs [] out w (λ path f m. cc) e path f
