-- ===== src/Symbols.antt =====
-- internal/core/symbol/service.go: the symbols that the packages declare.
pub mod Extracted
use Prim.Native.String.{◌++◌ as append}
use synthy.Prelude.{
  String, ℕ, Bool, true, false, List, [], ◌∷◌, ◌++◌, Option, none, some, Dict, lookup, insert,
  exists, nat_eq, ◌==◌, if◌then◌else◌,
}
use synthy.Exec.{Exec, pure, wrapping, ◌>>=◌, ◌>>◌}
use synthy.Model.{
  File, Symbol, SymbolType, ReceiverType, SymbolVisibility, go_language, pointer, value,
}
use synthy.Db.{insert_symbol}
use synthy.World.{World, Env, new_row, insert_batch}
use synthy.Packages.{
  Package, SyntaxFile, Node, Object, Token, TypeExpr, FuncDecl, TypeSpec, ValueSpec, ValueName,
  Span, gen_decl, func_decl, type_spec, value_spec, call_expr, illegal_token, const_token,
  star_expr, interface_type,
}

unfoldable pub to_fq_name_map_from : List Symbol → Dict Symbol → Dict Symbol
to_fq_name_map_from [] m = m
to_fq_name_map_from (s ∷ symbols) m = to_fq_name_map_from symbols (insert s.fq_name s m)

-- ToFqNameMap: the last symbol of a name stays.
unfoldable pub to_fq_name_map : List Symbol → Dict Symbol
unfolding to_fq_name_map_from
to_fq_name_map symbols = to_fq_name_map_from symbols []

abbrev pub visibility_of : Bool → SymbolVisibility
visibility_of true = SymbolVisibility.public
visibility_of false = SymbolVisibility.private

abbrev pub receiver_type_of : Option TypeExpr → Option ReceiverType
receiver_type_of none = none
receiver_type_of (some star_expr) = some pointer
receiver_type_of (some _) = some value

abbrev pub type_symbol_type : TypeExpr → SymbolType
type_symbol_type interface_type = SymbolType.interface
type_symbol_type _ = SymbolType.type

abbrev pub value_symbol_type : Token → SymbolType
value_symbol_type const_token = SymbolType.constant
value_symbol_type _ = SymbolType.variable

-- fmt.Sprintf("%s.%s", obj.Pkg().Path(), obj.Name())
abbrev pub qualified : String → Object → String
qualified pkg obj = append pkg (append "." obj.name)

abbrev pub symbol_row :
    String
    → String
    → Span
    → String
    → SymbolType
    → String
    → Option ReceiverType
    → Bool
    → String
    → ℕ
    → Symbol
symbol_row repository_id file_id span fq_name kind signature receiver exported id now = record {
  id = id;
  file_id = file_id;
  repository_id = repository_id;
  fq_name = fq_name;
  type = kind;
  language = go_language;
  signature = signature;
  receiver_type = receiver;
  visibility = visibility_of exported;
  parent_symbol_id = none;
  start_line = span.start_line;
  end_line = span.end_line;
  start_column = span.start_column;
  end_column = span.end_column;
  created_at = now;
  updated_at = now;
}

-- `result` and `seen` of Extract
pub record Extraction : Type 0 where
  pub result : List Symbol
  pub seen : List ℕ

module _ (env : Env) (repository_id : String) where
  module _ (file_id : String) where
    abbrev pub function_symbol : FuncDecl → Object → Option String → Exec World (Option Symbol)
    function_symbol decl obj none = pure none
    function_symbol decl obj (some full_name) = new_row env (
        symbol_row repository_id file_id decl.span full_name SymbolType.function obj.type_string
          (receiver_type_of decl.receiver) decl.is_exported)

    unfoldable pub build_function_symbol : FuncDecl → Object → Exec World (Option Symbol)
    build_function_symbol decl obj = function_symbol decl obj obj.func_name

    abbrev pub type_symbol : TypeSpec → Object → Option String → Exec World (Option Symbol)
    type_symbol spec obj none = pure none
    type_symbol spec obj (some pkg) = new_row env (
        symbol_row repository_id file_id spec.span (qualified pkg obj)
          (type_symbol_type spec.type_expr) obj.type_string none spec.is_exported)

    unfoldable pub build_type_symbol : TypeSpec → Object → Exec World (Option Symbol)
    build_type_symbol spec obj = type_symbol spec obj obj.pkg

    abbrev pub value_symbol :
        ValueSpec → ValueName → Token → Object → Option String → Exec World (Option Symbol)
    value_symbol spec name tok obj none = pure none
    value_symbol spec name tok obj (some pkg) = new_row env (
        symbol_row repository_id file_id spec.span (qualified pkg obj) (value_symbol_type tok)
          obj.type_string none name.is_exported)

    unfoldable pub build_value_symbol :
        ValueSpec → ValueName → Token → Object → Exec World (Option Symbol)
    build_value_symbol spec name tok obj = value_symbol spec name tok obj obj.pkg

    abbrev pub and_append : List Symbol → Option Symbol → List Symbol
    and_append result none = result
    and_append result (some sym) = result ++ sym ∷ []

    -- `obj, ok := Defs[name]; if !ok || seen[obj] { … }`, and else the object's symbol
    abbrev pub unless_seen :
        Option Object → (Object → Exec World (Option Symbol)) → Extraction → Exec World Extraction
    unless_seen none build x = pure x
    unless_seen (some obj) build x = if exists (nat_eq obj.identity) x.seen then pure x else do
      sym ← build obj
      pure (record { result = and_append x.result sym; seen = obj.identity ∷ x.seen })

    unfoldable pub visit_names :
        ValueSpec → Token → List ValueName → Extraction → Exec World Extraction
    unfolding build_value_symbol
    visit_names spec tok [] x = pure x
    visit_names spec tok (name ∷ names) x = do
      next ←
          (if name.name == "_"
            then pure x
            else unless_seen name.definition (build_value_symbol spec name tok) x)
      visit_names spec tok names next

    -- The callback of ast.Inspect: `currentDeclTok` is the second argument.
    unfoldable pub visit : List Node → Token → Extraction → Exec World Extraction
    unfolding visit_names build_function_symbol build_type_symbol
    visit [] tok x = pure x
    visit (gen_decl t ∷ nodes) tok x = visit nodes t x
    visit (func_decl d ∷ nodes) tok x = do
      next ← unless_seen d.definition (build_function_symbol d) x
      visit nodes tok next
    visit (type_spec s ∷ nodes) tok x = do
      next ← unless_seen s.definition (build_type_symbol s) x
      visit nodes tok next
    visit (value_spec s ∷ nodes) tok x = do next ← visit_names s tok s.names x; visit nodes tok next
    visit (call_expr _ ∷ nodes) tok x = visit nodes tok x

  module _ (files : Dict File) where
    abbrev pub visit_file : Option File → SyntaxFile → Extraction → Exec World Extraction
    visit_file none f x = pure x
    visit_file (some file) f x = visit file.id f.nodes illegal_token x

    unfoldable pub extract_syntax : List SyntaxFile → Extraction → Exec World Extraction
    extract_syntax [] x = pure x
    extract_syntax (f ∷ fs) x = do
      next ← visit_file (lookup f.file_path files) f x
      extract_syntax fs next

    unfoldable pub extract_packages : List Package → Extraction → Exec World Extraction
    unfolding extract_syntax
    extract_packages [] x = pure x
    extract_packages (pkg ∷ pkgs) x = do
      next ← extract_syntax pkg.syntax x
      extract_packages pkgs next

    unfoldable pub extract : List Package → Exec World (List Symbol)
    unfolding extract_packages
    extract pkgs = do x ← extract_packages pkgs (record { result = []; seen = [] }); pure x.result

    abbrev pub save : List Symbol → Exec World (List Symbol)
    save [] = pure []
    save (s ∷ symbols) = do
      wrapping "insert symbols" (insert_batch env "insert symbol" insert_symbol (s ∷ symbols))
      pure (s ∷ symbols)

    unfoldable pub extract_and_save : List Package → Exec World (List Symbol)
    unfolding extract
    extract_and_save pkgs = do symbols ← extract pkgs; save symbols
