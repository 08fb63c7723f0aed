-- ===== src/Symbols/Extracted.antt =====
-- Which symbols are extracted.
use mathlib.Core.Path.{subst}
use synthy.Prelude.{
  String, ◌≡◌, refl, inl, inr, Bool, List, [], ◌∷◌, Option, none, some, Dict, lookup, All,
  Bool-cases, exists, nat_eq, ◌==◌,
}
use synthy.Exec.{Exec, ok, pure}
use synthy.Exec.Rules.{>>=-eq-ok, ok_injective}
use synthy.Model.{File, Symbol, SymbolType, ReceiverType, go_language}
use synthy.World.{World, Env, new_row}
use synthy.World.NewRow.{new_row_made}
use synthy.Packages.{
  Object, Span, Token, FuncDecl, TypeSpec, ValueSpec, ValueName, Node, gen_decl, func_decl,
  type_spec, value_spec, call_expr, Package, SyntaxFile, illegal_token,
}
use synthy.Symbols.{
  symbol_row, Extraction, function_symbol, build_function_symbol, type_symbol, build_type_symbol,
  value_symbol, build_value_symbol, and_append, unless_seen, visit_names, visit, visit_file,
  extract_syntax, extract_packages, extract,
}

module _ (env : Env) (repository_id : String) (files : Dict File) where
  -- A Go symbol of the repository, without a parent, in a file that the map has under some path.
  pub record IsExtracted (s : Symbol) : Type 0 where
    pub repository : s.repository_id ≡ repository_id
    pub language : s.language ≡ go_language
    pub top_level : s.parent_symbol_id ≡ none
    pub path : String
    pub file : File
    pub indexed : lookup path files ≡ some file
    pub in_file : s.file_id ≡ file.id

  abbrev AreExtracted : Option Symbol → Type 0
  AreExtracted none = Unit
  AreExtracted (some s) = IsExtracted s

  appended :
      (result : List Symbol) (o : Option Symbol)
      → All IsExtracted result
      → AreExtracted o
      → All IsExtracted (and_append env repository_id "" result o)
  appended result none a i = a
  appended [] (some s) a i = (i, tt)
  appended (r ∷ result) (some s) a i = (a.0, appended result (some s) a.1 i)

  module _ (path : String) (file : File) (indexed : lookup path files ≡ some file) where
    -- What each of the three builders does.
    abbrev Builds : (Object → Exec World (Option Symbol)) → Type 0
    Builds build =
        (obj : Object) (o : Option Symbol) (w : World) → (build obj w).0 ≡ ok o → AreExtracted o

    row-AreExtracted :
        (span : Span) (fq_name : String) (kind : SymbolType) (signature : String)
        (receiver : Option ReceiverType) (exported : Bool) (o : Option Symbol) (w : World)
        → (new_row env
            (symbol_row repository_id file.id span fq_name kind signature receiver exported)
            w).0
          ≡ ok o
        → AreExtracted o
    row-AreExtracted span fq_name kind signature receiver exported o w e =
        elim (new_row_made env _ w o e) [
          | inl nothing ↦ rw nothing tt
          | inr (id, now, made) ↦ rw made (record {
            repository = refl;
            language = refl;
            top_level = refl;
            path = path;
            file = file;
            indexed = indexed;
            in_file = refl;
          })
        ]

    function_symbol-AreExtracted :
        (decl : FuncDecl) (obj : Object) (name : Option String) (o : Option Symbol) (w : World)
        → (function_symbol env repository_id file.id decl obj name w).0 ≡ ok o
        → AreExtracted o
    unfolding pure
    function_symbol-AreExtracted decl obj none o w e = subst AreExtracted (ok_injective e) tt
    function_symbol-AreExtracted decl obj (some name) o w e = row-AreExtracted _ _ _ _ _ _ o w e

    type_symbol-AreExtracted :
        (spec : TypeSpec) (obj : Object) (pkg : Option String) (o : Option Symbol) (w : World)
        → (type_symbol env repository_id file.id spec obj pkg w).0 ≡ ok o
        → AreExtracted o
    unfolding pure
    type_symbol-AreExtracted spec obj none o w e = subst AreExtracted (ok_injective e) tt
    type_symbol-AreExtracted spec obj (some pkg) o w e = row-AreExtracted _ _ _ _ _ _ o w e

    value_symbol-AreExtracted :
        (spec : ValueSpec) (name : ValueName) (tok : Token) (obj : Object) (pkg : Option String)
        (o : Option Symbol) (w : World)
        → (value_symbol env repository_id file.id spec name tok obj pkg w).0 ≡ ok o
        → AreExtracted o
    unfolding pure
    value_symbol-AreExtracted spec name tok obj none o w e = subst AreExtracted (ok_injective e) tt
    value_symbol-AreExtracted spec name tok obj (some pkg) o w e =
        row-AreExtracted _ _ _ _ _ _ o w e

    unless_seen-AreExtracted :
        (definition : Option Object) (build : Object → Exec World (Option Symbol))
        (x y : Extraction) (w : World)
        → Builds build
        → All IsExtracted x.result
        → (unless_seen env repository_id file.id definition build x w).0 ≡ ok y
        → All IsExtracted y.result
    unfolding pure
    unless_seen-AreExtracted none build x y w b a e =
        subst (λ z. All IsExtracted z.result) (ok_injective e) a
    unless_seen-AreExtracted (some obj) build x y w b a e =
        elim (Bool-cases (exists (nat_eq obj.identity) x.seen)) [
          | inl seen ↦ subst (λ z. All IsExtracted z.result) (ok_injective (rw seen at e)) a
          | inr fresh ↦
              let (o, got, h) = >>=-eq-ok (build obj) _ w (rw fresh at e) in
              subst (λ z. All IsExtracted z.result) (ok_injective h)
                (appended x.result o a (b obj o w got))
        ]

    visit_names-AreExtracted :
        (spec : ValueSpec) (tok : Token) (names : List ValueName) (x y : Extraction) (w : World)
        → All IsExtracted x.result
        → (visit_names env repository_id file.id spec tok names x w).0 ≡ ok y
        → All IsExtracted y.result
    unfolding visit_names build_value_symbol pure
    visit_names-AreExtracted spec tok [] x y w a e =
        subst (λ z. All IsExtracted z.result) (ok_injective e) a
    visit_names-AreExtracted spec tok (name ∷ names) x y w a e =
        let build = build_value_symbol env repository_id file.id spec name tok in
        let (next, first, rest) = >>=-eq-ok _ _ w e in
        visit_names-AreExtracted spec tok names next y _
          (elim (Bool-cases (name.name == "_")) [
            | inl blank ↦ subst (λ z. All IsExtracted z.result) (ok_injective (rw blank at first)) a
            | inr real ↦
                unless_seen-AreExtracted name.definition build x next w
                  (λ obj. value_symbol-AreExtracted spec name tok obj obj.pkg) a (rw real at first)
          ])
          rest

    visit-AreExtracted :
        (nodes : List Node) (tok : Token) (x y : Extraction) (w : World)
        → All IsExtracted x.result
        → (visit env repository_id file.id nodes tok x w).0 ≡ ok y
        → All IsExtracted y.result
    unfolding visit build_function_symbol build_type_symbol pure
    visit-AreExtracted [] tok x y w a e = subst (λ z. All IsExtracted z.result) (ok_injective e) a
    visit-AreExtracted (gen_decl t ∷ nodes) tok x y w a e = visit-AreExtracted nodes t x y w a e
    visit-AreExtracted (func_decl d ∷ nodes) tok x y w a e =
        let build = build_function_symbol env repository_id file.id d in
        let (next, first, rest) = >>=-eq-ok _ _ w e in
        visit-AreExtracted nodes tok next y _
          (unless_seen-AreExtracted d.definition build x next w
            (λ obj. function_symbol-AreExtracted d obj obj.func_name) a first)
          rest
    visit-AreExtracted (type_spec s ∷ nodes) tok x y w a e =
        let build = build_type_symbol env repository_id file.id s in
        let (next, first, rest) = >>=-eq-ok _ _ w e in
        visit-AreExtracted nodes tok next y _
          (unless_seen-AreExtracted s.definition build x next w
            (λ obj. type_symbol-AreExtracted s obj obj.pkg) a first)
          rest
    visit-AreExtracted (value_spec s ∷ nodes) tok x y w a e =
        let (next, first, rest) = >>=-eq-ok _ _ w e in
        visit-AreExtracted nodes tok next y _
          (visit_names-AreExtracted s tok s.names x next w a first) rest
    visit-AreExtracted (call_expr c ∷ nodes) tok x y w a e = visit-AreExtracted nodes tok x y w a e

  visit_file-AreExtracted :
      (path : String) (found : Option File) (f : SyntaxFile) (x y : Extraction) (w : World)
      → lookup path files ≡ found
      → All IsExtracted x.result
      → (visit_file env repository_id files found f x w).0 ≡ ok y
      → All IsExtracted y.result
  unfolding pure
  visit_file-AreExtracted path none f x y w q a e =
      subst (λ z. All IsExtracted z.result) (ok_injective e) a
  visit_file-AreExtracted path (some file) f x y w q a e =
      visit-AreExtracted path file q f.nodes illegal_token x y w a e

  extract_syntax-AreExtracted :
      (fs : List SyntaxFile) (x y : Extraction) (w : World)
      → All IsExtracted x.result
      → (extract_syntax env repository_id files fs x w).0 ≡ ok y
      → All IsExtracted y.result
  unfolding extract_syntax pure
  extract_syntax-AreExtracted [] x y w a e =
      subst (λ z. All IsExtracted z.result) (ok_injective e) a
  extract_syntax-AreExtracted (f ∷ fs) x y w a e =
      let found = lookup f.file_path files in
      let (next, first, rest) = >>=-eq-ok (visit_file env repository_id files found f x) _ w e in
      extract_syntax-AreExtracted fs next y _
        (visit_file-AreExtracted f.file_path found f x next w refl a first) rest

  extract_packages-AreExtracted :
      (pkgs : List Package) (x y : Extraction) (w : World)
      → All IsExtracted x.result
      → (extract_packages env repository_id files pkgs x w).0 ≡ ok y
      → All IsExtracted y.result
  unfolding extract_packages pure
  extract_packages-AreExtracted [] x y w a e =
      subst (λ z. All IsExtracted z.result) (ok_injective e) a
  extract_packages-AreExtracted (p ∷ pkgs) x y w a e =
      let (next, first, rest) =
        >>=-eq-ok (extract_syntax env repository_id files p.syntax x) _ w e in
      extract_packages-AreExtracted pkgs next y _
        (extract_syntax-AreExtracted p.syntax x next w a first) rest

  -- Each symbol that is extracted from the packages is a Go symbol of the repository, has no parent
  -- and lies in a file of the file map.
  pub extract-IsExtracted :
      (pkgs : List Package) (w : World) (out : List Symbol)
      → (extract env repository_id files pkgs w).0 ≡ ok out
      → All IsExtracted out
  unfolding extract pure
  extract-IsExtracted pkgs w out e =
      let (x, got, h) =
        >>=-eq-ok
          (extract_packages env repository_id files pkgs (record { result = []; seen = [] })) _ w
          e in
      subst (All IsExtracted) (ok_injective h) (extract_packages-AreExtracted pkgs _ x w tt got)
