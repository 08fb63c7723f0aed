-- ===== src/Calls/Sound.antt =====
-- Which call edges are built.
use synthy.World.NewRow.{new_row_made}
use mathlib.Core.Path.{subst}
use synthy.Prelude.{
  String, ◌≡◌, refl, List, [], ◌∷◌, ◌++◌, Option, none, some, Dict, lookup, All, inl, inr,
}
use synthy.Exec.{ok, pure}
use synthy.Exec.Rules.{>>=-eq-ok, ok_injective}
use synthy.Model.{File, Symbol, CallEdge}
use synthy.World.{World, Env, new_row}
use synthy.Packages.{
  Package, SyntaxFile, Node, gen_decl, func_decl, type_spec, value_spec, call_expr,
}
use synthy.Calls.{
  callee_name, func_of, find_symbol, caller_after, edge_row, record_call, visit_calls, file_calls,
  syntax_calls, build_calls_from, build_calls,
}

module _ (env : Env) (repository_id : String) (symbols : Dict Symbol) where
  -- A symbol that the map has under some name.
  abbrev pub IsKnown : Symbol → Type 0
  IsKnown s = (name : String) × (lookup name symbols ≡ some s)

  abbrev AreKnown : Option Symbol → Type 0
  AreKnown none = Unit
  AreKnown (some s) = IsKnown s

  looked_up : (name : String) → AreKnown (lookup name symbols)
  looked_up name = go (lookup name symbols) refl
    where
      go : (o : Option Symbol) → lookup name symbols ≡ o → AreKnown o
      go none e = tt
      go (some s) e = (name, e)

  find_symbol-AreKnown :
      (name : Option String) → AreKnown (find_symbol env repository_id symbols name)
  find_symbol-AreKnown none = tt
  find_symbol-AreKnown (some name) = looked_up name

  caller_after-AreKnown :
      (name : Option String) (caller : Option Symbol)
      → AreKnown caller
      → AreKnown (caller_after env repository_id symbols name caller)
  caller_after-AreKnown none caller k = k
  caller_after-AreKnown (some name) caller k = looked_up name

  module _ (files : Dict File) where
    -- Between two known symbols, in an indexed file of the repository.
    pub record IsSound (e : CallEdge) : Type 0 where
      pub repository : e.repository_id ≡ repository_id
      pub caller : Symbol
      pub caller_known : IsKnown caller
      pub calls_from : e.caller_symbol_id ≡ caller.id
      pub callee : Symbol
      pub callee_known : IsKnown callee
      pub calls_to : e.callee_symbol_id ≡ callee.id
      pub path : String
      pub file : File
      pub indexed : lookup path files ≡ some file
      pub in_file : e.file_id ≡ file.id

    All-snoc :
        (edges : List CallEdge) (e : CallEdge)
        → All IsSound edges
        → IsSound e
        → All IsSound (edges ++ e ∷ [])
    All-snoc [] e a s = (s, tt)
    All-snoc (d ∷ edges) e a s = (a.0, All-snoc edges e a.1 s)

    record_call-IsSound :
        (path : String) (file : File) (caller callee : Option Symbol) (edges out : List CallEdge)
        (w : World)
        → lookup path files ≡ some file
        → AreKnown caller
        → AreKnown callee
        → All IsSound edges
        → (record_call env repository_id symbols file.id caller callee edges w).0 ≡ ok out
        → All IsSound out
    unfolding pure
    record_call-IsSound path file none callee edges out w f k l a e =
        subst (All IsSound) (ok_injective e) a
    record_call-IsSound path file (some caller) none edges out w f k l a e =
        subst (All IsSound) (ok_injective e) a
    record_call-IsSound path file (some caller) (some callee) edges out w f k l a e =
        let make = edge_row env repository_id symbols file.id caller callee in
        let (o, got, h) = >>=-eq-ok (new_row env make) _ w e in
        subst (All IsSound) (ok_injective h) (elim (new_row_made env make w o got) [
          | inl nothing ↦ rw nothing a
          | inr (id, now, made) ↦ rw made (
              All-snoc edges (make id now) a (record {
                repository = refl;
                caller = caller;
                caller_known = k;
                calls_from = refl;
                callee = callee;
                callee_known = l;
                calls_to = refl;
                path = path;
                file = file;
                indexed = f;
                in_file = refl;
              }))
        ])

    visit_calls-IsSound :
        (path : String) (file : File) (nodes : List Node) (caller : Option Symbol)
        (edges out : List CallEdge) (w : World)
        → lookup path files ≡ some file
        → AreKnown caller
        → All IsSound edges
        → (visit_calls env repository_id symbols file.id nodes caller edges w).0 ≡ ok out
        → All IsSound out
    unfolding visit_calls pure
    visit_calls-IsSound path file [] caller edges out w f k a e =
        subst (All IsSound) (ok_injective e) a
    visit_calls-IsSound path file (func_decl d ∷ nodes) caller edges out w f k a e =
        visit_calls-IsSound path file nodes _ edges out w f
          (caller_after-AreKnown (func_of d.definition) caller k) a e
    visit_calls-IsSound path file (call_expr c ∷ nodes) caller edges out w f k a e =
        let callee = find_symbol env repository_id symbols (callee_name c) in
        let (next, first, rest) =
          >>=-eq-ok (record_call env repository_id symbols file.id caller callee edges) _ w e in
        visit_calls-IsSound path file nodes caller next out _ f k
          (record_call-IsSound path file caller callee edges next w f k
            (find_symbol-AreKnown (callee_name c)) a first)
          rest
    visit_calls-IsSound path file (gen_decl t ∷ nodes) caller edges out w f k a e =
        visit_calls-IsSound path file nodes caller edges out w f k a e
    visit_calls-IsSound path file (type_spec t ∷ nodes) caller edges out w f k a e =
        visit_calls-IsSound path file nodes caller edges out w f k a e
    visit_calls-IsSound path file (value_spec t ∷ nodes) caller edges out w f k a e =
        visit_calls-IsSound path file nodes caller edges out w f k a e

    file_calls-IsSound :
        (path : String) (found : Option File) (f : SyntaxFile) (edges out : List CallEdge)
        (w : World)
        → lookup path files ≡ found
        → All IsSound edges
        → (file_calls env repository_id symbols files found f edges w).0 ≡ ok out
        → All IsSound out
    unfolding pure
    file_calls-IsSound path none f edges out w q a e = subst (All IsSound) (ok_injective e) a
    file_calls-IsSound path (some file) f edges out w q a e =
        visit_calls-IsSound path file f.nodes none edges out w q tt a e

    syntax_calls-IsSound :
        (fs : List SyntaxFile) (edges out : List CallEdge) (w : World)
        → All IsSound edges
        → (syntax_calls env repository_id symbols files fs edges w).0 ≡ ok out
        → All IsSound out
    unfolding syntax_calls pure
    syntax_calls-IsSound [] edges out w a e = subst (All IsSound) (ok_injective e) a
    syntax_calls-IsSound (f ∷ fs) edges out w a e =
        let found = lookup f.file_path files in
        let (next, first, rest) =
          >>=-eq-ok (file_calls env repository_id symbols files found f edges) _ w e in
        syntax_calls-IsSound fs next out _
          (file_calls-IsSound f.file_path found f edges next w refl a first) rest

    packages_calls-IsSound :
        (pkgs : List Package) (edges out : List CallEdge) (w : World)
        → All IsSound edges
        → (build_calls_from env repository_id symbols files pkgs edges w).0 ≡ ok out
        → All IsSound out
    unfolding build_calls_from pure
    packages_calls-IsSound [] edges out w a e = subst (All IsSound) (ok_injective e) a
    packages_calls-IsSound (p ∷ pkgs) edges out w a e =
        let (next, first, rest) =
          >>=-eq-ok (syntax_calls env repository_id symbols files p.syntax edges) _ w e in
        packages_calls-IsSound pkgs next out _ (syntax_calls-IsSound p.syntax edges next w a first)
          rest

    -- Each call edge that is built for the packages belongs to the repository, leads from a symbol
    -- of the map to a symbol of the map, and is recorded for a file of the file map.
    pub build_calls-IsSound :
        (pkgs : List Package) (w : World) (out : List CallEdge)
        → (build_calls env repository_id symbols files pkgs w).0 ≡ ok out
        → All IsSound out
    unfolding build_calls
    build_calls-IsSound pkgs w out e = packages_calls-IsSound pkgs [] out w tt e
