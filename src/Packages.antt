-- ===== src/Packages.antt =====
-- What golang.org/x/tools/go/packages, go/ast and go/types give the code: loaded packages with
-- their files. ast.Inspect hands a callback the nodes of a file in depth-first order, so a file is
-- the list of its nodes in that order; a node that no callback looks at is left out.
use synthy.Prelude.{String, ℕ, Bool, List, Option}

-- types.Object, with the identity by which Go compares it
pub record Object : Type 0 where
  pub identity : ℕ
  -- the path of Pkg(), unless that is nil
  pub pkg : Option String
  pub name : String
  -- types.TypeString of its type
  pub type_string : String
  -- FullName, if the object is a *types.Func
  pub func_name : Option String

-- the Position of the node's Pos and End
pub record Span : Type 0 where
  pub start_line : ℕ
  pub end_line : ℕ
  pub start_column : ℕ
  pub end_column : ℕ

pub data Token : Type 0 where
  illegal_token import_token const_token type_token var_token : Token

-- the type expression of a receiver or of a type declaration, as far as it is looked at
pub data TypeExpr : Type 0 where
  star_expr struct_type interface_type other_expr : TypeExpr

pub record FuncDecl : Type 0 where
  pub span : Span
  pub name : String
  pub is_exported : Bool
  -- the type of the first receiver
  pub receiver : Option TypeExpr
  -- pkg.TypesInfo.Defs[decl.Name]
  pub definition : Option Object

pub record TypeSpec : Type 0 where
  pub span : Span
  pub is_exported : Bool
  pub type_expr : TypeExpr
  pub definition : Option Object

-- one name of a ValueSpec
pub record ValueName : Type 0 where
  pub name : String
  pub is_exported : Bool
  pub definition : Option Object

pub record ValueSpec : Type 0 where
  pub span : Span
  pub names : List ValueName

-- the callee of a call, by the lookups that the code makes for it
pub data CallFun : Type 0 where
  -- *ast.Ident: Uses[fun]
  ident : Option Object → CallFun
  -- *ast.SelectorExpr: Selections[fun] and its Obj(), and Uses[fun.Sel]
  selector : Option Object → Option Object → CallFun
  other_fun : CallFun

pub data Node : Type 0 where
  gen_decl : Token → Node
  func_decl : FuncDecl → Node
  type_spec : TypeSpec → Node
  value_spec : ValueSpec → Node
  call_expr : CallFun → Node

pub record ImportSpec : Type 0 where
  -- imp.Path.Value, quotes included
  pub path_value : String
  pub name : Option String

pub record SyntaxFile : Type 0 where
  -- pkg.Fset.File(f.Pos()).Name()
  pub file_path : String
  pub nodes : List Node
  pub imports : List ImportSpec

pub record Package : Type 0 where
  pub syntax : List SyntaxFile
  -- pkg.Imports, each with its GoFiles; a nil package is `none`
  pub imported : List (String × Option (List String))

-- Where a node of a freshly parsed file lies: byte offsets and lines of its Pos and End.
pub record Extent : Type 0 where
  pub filename : String
  pub start_offset : ℕ
  pub end_offset : ℕ
  pub start_line : ℕ
  pub end_line : ℕ

pub data Spec : Type 0 where
  type_decl : TypeExpr → Extent → Spec
  other_spec : Spec

-- The nodes of a file of parser.ParseFile that chunking looks at, in depth-first order.
pub data Decl : Type 0 where
  function_decl : Extent → Decl
  general_decl : List Spec → Decl

pub record ParsedFile : Type 0 where
  pub decls : List Decl
  pub whole : Extent
