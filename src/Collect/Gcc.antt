-- ===== src/Collect/Gcc.antt =====
-- What boundary/collect.py reads of the objects of the GCC Python plugin.
use plugsched.Common.{ℕ, Bool, Option, List}
use plugsched.Common.Text.{Text}
use plugsched.Common.Dict.{Dict}

-- `decl.location`, with lines and columns from 1
pub record GccLocation : Type 0 where
  pub file : Text
  pub line : ℕ
  pub column : ℕ

-- `type.name`: None, an identifier, or the declaration of a typedef, with `is_builtin`
pub data TypeName : Type 0 where
  unnamed : TypeName
  identifier : Text → TypeName
  type_decl : Text → Bool → TypeName

-- A type; an enumeration and a struct have the location of their definition.
pub data GccType : Type 0 where
  pointer : GccType → GccType
  array : GccType → GccType
  enumeral : TypeName → GccLocation → GccType
  struct_type : TypeName → GccLocation → GccType
  other_type : TypeName → GccType

-- `val[0]` of an attribute
pub record AttributeValue : Type 0 where
  pub constant : Text
  pub str_no_uid : Text

-- `decl.result` or one of `decl.arguments`
pub record Typed : Type 0 where
  pub typ : GccType
  pub str_no_uid : Text

-- A declaration, with its identity; `function` holds the start and the end of the body of a function that has one.
pub record Decl : Type 0 where
  pub uid : ℕ
  pub name : Text
  pub location : GccLocation
  pub is_global : Bool
  pub function : Option (GccLocation × GccLocation)
  pub attributes : Dict Text (List AttributeValue)
  pub external : Bool
  pub public : Bool
  pub static : Bool
  pub inline : Bool
  pub result : Typed
  pub arguments : List Typed
  pub typ : GccType
  pub str_decl : Text

-- `op.field.context`, a struct: its identity, the file of its definition, its name, and the names of
-- its fields
pub record StructDecl : Type 0 where
  pub uid : ℕ
  pub stub : Text
  pub name : Option Text
  pub fields : List (Option Text)

-- An access to a field: its identity, that of its target where the target is one too, the name of the
-- field, and the struct the field belongs to.
pub record ComponentRef : Type 0 where
  pub uid : ℕ
  pub target : Option ℕ
  pub field : Option Text
  pub context : StructDecl

-- An object that `walk_tree` visits.
pub data Op : Type 0 where
  function_decl : Decl → Op
  component_ref : ComponentRef → Op
  other_op : Op

-- A statement, with all that `walk_tree` visits in it. A call has its operands, the callee first,
-- which may be None, and the declaration of the function that it calls directly.
pub data Stmt : Type 0 where
  call : List (Option (List Op)) → Option Decl → List Op → Stmt
  other_stmt : List Op → Stmt

-- A node of the call graph, with `bb.gimple` of its basic blocks
pub record Node : Type 0 where
  pub decl : Decl
  pub basic_blocks : List (Option (List Stmt))

-- A variable: its declaration, whether that has a location, the name of its type, and what
-- `walk_tree` visits in its initial value
pub record Variable : Type 0 where
  pub decl : Decl
  pub has_location : Bool
  pub type_name : TypeName
  pub initial : Option (List Op)

-- what `__init__` and the plugin tell about the run: the working directory, the file that is
-- compiled, and the configuration
pub record Collection : Type 0 where
  pub cwd : List Text
  pub src_f : Text
  pub mod_srcs : List Text
  pub mod_hdrs : List Text
  pub sdcr_srcs : List Text
  pub interface : List Text
  pub interface_prefix : List Text
