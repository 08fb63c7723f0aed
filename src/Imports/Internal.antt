-- ===== src/Imports/Internal.antt =====
-- Which import edges are built.
use mathlib.Core.Path.{subst}
use synthy.Prelude.{
  String, ◌≡◌, refl, ◌⊎◌, inl, inr, arith, false, List, [], ◌∷◌, ◌++◌, Option, none, some, Dict,
  lookup, All, Option-cases, Bool-cases, ◌==◌,
}
use synthy.Exec.{ok, pure}
use synthy.Exec.Rules.{>>=-eq-ok, ok_injective}
use synthy.Model.{File, ImportEdge}
use synthy.World.{World, Env, new_row}
use synthy.World.NewRow.{new_row_made}
use synthy.Packages.{Package, SyntaxFile, ImportSpec}
use synthy.Imports.{
  trim_quotes, to_file_id, edge_row, record_import, visit_imports, file_imports, syntax_imports,
  build_imports_from, build_imports,
}

module _ (env : Env) (repository_id : String) (files : Dict File) where
  -- An id of a file that the map has under some path.
  abbrev IsIndexed : String → Type 0
  IsIndexed id = (path : String) × (f : File) × (lookup path files ≡ some f) × (id ≡ f.id)

  -- Between two files of the map.
  pub record IsInternal (e : ImportEdge) : Type 0 where
    pub repository : e.repository_id ≡ repository_id
    pub imports_from : IsIndexed e.from_file_id
    pub imports_to : IsIndexed e.to_file_id
    pub internal : e.is_external ≡ false

  to_file_id-IsIndexed :
      (paths : List String) → (to_file_id files paths ≡ "") ⊎ IsIndexed (to_file_id files paths)
  unfolding to_file_id
  to_file_id-IsIndexed [] = inl refl
  to_file_id-IsIndexed (path ∷ paths) = elim (Option-cases (lookup path files)) [
    | inl missing ↦ rw (to_file_id, missing) (to_file_id-IsIndexed paths)
    | inr (f, found) ↦ rw (to_file_id, found) (inr (path, f, found, refl))
  ]

  All-snoc :
      (edges : List ImportEdge) (e : ImportEdge)
      → All IsInternal edges
      → IsInternal e
      → All IsInternal (edges ++ e ∷ [])
  All-snoc [] e a i = (i, tt)
  All-snoc (d ∷ edges) e a i = (a.0, All-snoc edges e a.1 i)

  made-IsInternal :
      (from : String) (imp : ImportSpec) (go_files : List String) (edges out : List ImportEdge)
      (w : World)
      → IsIndexed from
      → All IsInternal edges
      → (record_import env repository_id files from imp (some (some go_files)) edges w).0 ≡ ok out
      → All IsInternal out
  unfolding pure
  made-IsInternal from imp go_files edges out w i a e =
      let to = to_file_id files go_files in
      elim (Bool-cases (to == "")) [
        | inl external ↦ subst (All IsInternal) (ok_injective (rw external at e)) a
        | inr inside ↦
            let make =
              edge_row env repository_id files from to (trim_quotes imp.path_value) imp.name in
            let (o, got, h) = >>=-eq-ok (new_row env make) _ w (rw inside at e) in
            subst (All IsInternal) (ok_injective h) (elim (new_row_made env make w o got) [
              | inl nothing ↦ rw nothing a
              | inr (id, now, made) ↦ rw made (
                  All-snoc edges (make id now) a (record {
                    repository = refl;
                    imports_from = i;
                    imports_to = elim (to_file_id-IsIndexed go_files) [
                      | inl empty ↦ ground (arith, inside, empty)
                      | inr indexed ↦ indexed
                    ];
                    internal = refl;
                  }))
            ])
      ]

  record_import-IsInternal :
      (from : String) (imp : ImportSpec) (found : Option (Option (List String)))
      (edges out : List ImportEdge) (w : World)
      → IsIndexed from
      → All IsInternal edges
      → (record_import env repository_id files from imp found edges w).0 ≡ ok out
      → All IsInternal out
  unfolding pure
  record_import-IsInternal from imp none edges out w i a e =
      subst (All IsInternal) (ok_injective e) a
  record_import-IsInternal from imp (some none) edges out w i a e =
      subst (All IsInternal) (ok_injective e) a
  record_import-IsInternal from imp (some (some go_files)) edges out w i a e =
      made-IsInternal from imp go_files edges out w i a e

  visit_imports-IsInternal :
      (from : String) (imported : Dict (Option (List String))) (imps : List ImportSpec)
      (edges out : List ImportEdge) (w : World)
      → IsIndexed from
      → All IsInternal edges
      → (visit_imports env repository_id files from imported imps edges w).0 ≡ ok out
      → All IsInternal out
  unfolding visit_imports pure
  visit_imports-IsInternal from imported [] edges out w i a e =
      subst (All IsInternal) (ok_injective e) a
  visit_imports-IsInternal from imported (imp ∷ imps) edges out w i a e =
      let found = lookup (trim_quotes imp.path_value) imported in
      let (next, first, rest) =
        >>=-eq-ok (record_import env repository_id files from imp found edges) _ w e in
      visit_imports-IsInternal from imported imps next out _ i
        (record_import-IsInternal from imp found edges next w i a first) rest

  file_imports-IsInternal :
      (path : String) (found : Option File) (imported : Dict (Option (List String)))
      (f : SyntaxFile) (edges out : List ImportEdge) (w : World)
      → lookup path files ≡ found
      → All IsInternal edges
      → (file_imports env repository_id files found imported f edges w).0 ≡ ok out
      → All IsInternal out
  unfolding pure
  file_imports-IsInternal path none imported f edges out w q a e =
      subst (All IsInternal) (ok_injective e) a
  file_imports-IsInternal path (some file) imported f edges out w q a e =
      visit_imports-IsInternal file.id imported f.imports edges out w (path, file, q, refl) a e

  syntax_imports-IsInternal :
      (imported : Dict (Option (List String))) (fs : List SyntaxFile) (edges out : List ImportEdge)
      (w : World)
      → All IsInternal edges
      → (syntax_imports env repository_id files imported fs edges w).0 ≡ ok out
      → All IsInternal out
  unfolding syntax_imports pure
  syntax_imports-IsInternal imported [] edges out w a e = subst (All IsInternal) (ok_injective e) a
  syntax_imports-IsInternal imported (f ∷ fs) edges out w a e =
      let found = lookup f.file_path files in
      let (next, first, rest) =
        >>=-eq-ok (file_imports env repository_id files found imported f edges) _ w e in
      syntax_imports-IsInternal imported fs next out _
        (file_imports-IsInternal f.file_path found imported f edges next w refl a first) rest

  packages_imports-IsInternal :
      (pkgs : List Package) (edges out : List ImportEdge) (w : World)
      → All IsInternal edges
      → (build_imports_from env repository_id files pkgs edges w).0 ≡ ok out
      → All IsInternal out
  unfolding build_imports_from pure
  packages_imports-IsInternal [] edges out w a e = subst (All IsInternal) (ok_injective e) a
  packages_imports-IsInternal (p ∷ pkgs) edges out w a e =
      let (next, first, rest) =
        >>=-eq-ok (syntax_imports env repository_id files p.imported p.syntax edges) _ w e in
      packages_imports-IsInternal pkgs next out _
        (syntax_imports-IsInternal p.imported p.syntax edges next w a first) rest

  -- Each import edge that is built for the packages belongs to the repository, leads from a file of
  -- the file map to a file of the file map, and is not marked external.
  pub build_imports-IsInternal :
      (pkgs : List Package) (w : World) (out : List ImportEdge)
      → (build_imports env repository_id files pkgs w).0 ≡ ok out
      → All IsInternal out
  unfolding build_imports
  build_imports-IsInternal pkgs w out e = packages_imports-IsInternal pkgs [] out w tt e
