-- ===== src/Collect/Structs.antt =====
-- `collect_struct` of boundary/collect.py: which fields of the structs of the module's headers each
-- function uses.
pub mod Groups
pub mod Parents
use plugsched.Common.{
  ℕ, suc, zero, Bool, true, false, ◌&&◌, ◌||◌, Option, none, some, List, [], ◌∷◌, ◌++◌,
  if◌then◌else◌, ◌==◌, length, filter_map, map, Eq, nat_eq, pair_eq,
}
use plugsched.Common.Sets.{member}
use plugsched.Common.Text.{Text, codes, text_eq}
use plugsched.Common.Dict.{Dict, lookup, insert}
use plugsched.Common.Order.{text_le}
use plugsched.Common.Errors.{Result, ok, err, recursion, attribute_error, ◌>>=◌}
use plugsched.Extract.Paths.{relpath}
use plugsched.Analyze.Meta.{Sym, StructMeta}
use plugsched.Collect.Gcc.{
  Decl, Collection, StructDecl, ComponentRef, Op, function_decl, component_ref, other_op, Stmt,
  call, other_stmt, Node,
}
use plugsched.Collect.Functions.{decl_sig}
use plugsched.Collect.Graph.{each_stmt}

-- the user `(node.decl, field)` of a struct; a set holds one for the identity of the declaration and
-- the field
abbrev pub User : Type 0
User = Decl × Text

abbrev pub same_user : User → User → Bool
same_user (decl, field) (decl', field') = nat_eq.beq decl.uid decl'.uid && field == field'

abbrev pub has_user : User → List User → Bool
has_user user [] = false
has_user user (u ∷ users) = same_user user u || has_user user users

unfoldable pub add_user : User → List User → List User
add_user user users = if has_user user users then users else users ++ user ∷ []

-- `public_fields`, by the identity of the struct
abbrev pub PublicFields : Type 0
PublicFields = Dict ℕ (StructDecl × List User)

-- `parent_component_ref`, by the identity of the target
abbrev pub Parents : Type 0
Parents = Dict ℕ ComponentRef

-- `if isinstance(op.target, gcc.ComponentRef)`
abbrev pub add_parent : ComponentRef → Option ℕ → Parents → Parents
add_parent op none parents = parents
add_parent op (some target) parents = insert target op parents

-- one round, where `next` goes on from the access around
abbrev pub climb :
    (ComponentRef → Result ComponentRef)
    → ComponentRef
    → Option Text
    → Option ComponentRef
    → Result ComponentRef
climb next op (some name) parent = ok op
climb next op none none = ok op
climb next op none (some parent) = next parent

-- The loop up to an access whose field has a name. A chain of targets does not come back to itself, so
-- one round more than there are parents is enough.
unfoldable pub named_parent : ℕ → Parents → ComponentRef → Result ComponentRef
named_parent zero parents op = err recursion
named_parent (suc rounds) parents op =
    climb (named_parent rounds parents) op op.field (lookup op.uid parents)

-- `op.field.name or '<unknown>'`
abbrev pub field_of : Option Text → Text
field_of none = codes "<unknown>"
field_of (some []) = codes "<unknown>"
field_of (some (c ∷ name)) = c ∷ name

-- `public_fields[context].add((node.decl, field))`
abbrev pub users_of : Option (StructDecl × List User) → List User
users_of none = []
users_of (some (_, users)) = users

unfoldable pub mark_user : StructDecl → User → PublicFields → PublicFields
mark_user context user fields =
    insert context.uid (context, add_user user (users_of (lookup context.uid fields))) fields

abbrev pub mark_if : Bool → Option Text → StructDecl → User → PublicFields → PublicFields
mark_if true (some name) context user fields = mark_user context user fields
mark_if true none context user fields = fields
mark_if false name context user fields = fields

-- one visit
unfoldable pub mark_public_field :
    Collection → Decl → Op → Parents × PublicFields → Result (Parents × PublicFields)
mark_public_field config decl (component_ref op) (parents, fields) =
    let parents' = add_parent op op.target parents in
    do
      named ← named_parent (suc (length parents')) parents' op
      loc_file ← relpath config.cwd op.context.stub (codes ".")
      ok (
        parents',
        mark_if (member loc_file config.mod_hdrs) op.context.name op.context
            (decl, field_of named.field) fields,
      )
mark_public_field config decl (function_decl _) state = ok state
mark_public_field config decl other_op state = ok state

unfoldable pub mark_ops :
    Collection → Decl → List Op → Parents × PublicFields → Result (Parents × PublicFields)
mark_ops config decl [] state = ok state
mark_ops config decl (op ∷ ops) state = do
  state' ← mark_public_field config decl op state
  mark_ops config decl ops state'

-- what `walk_tree` visits in a statement
abbrev pub visited : Stmt → List Op
visited (call rhs fndecl ops) = ops
visited (other_stmt ops) = ops

-- the loop over the statements of a function, each with no parents at first
unfoldable pub mark_stmts : Collection → Decl → List Stmt → PublicFields → Result PublicFields
mark_stmts config decl [] fields = ok fields
mark_stmts config decl (stmt ∷ stmts) fields = do
  state ← mark_ops config decl (visited stmt) ([], fields)
  mark_stmts config decl stmts state.1

unfoldable pub mark_nodes : Collection → List Node → PublicFields → Result PublicFields
mark_nodes config [] fields = ok fields
mark_nodes config (node ∷ nodes) fields =
    elim (node.decl.function) [
      | none ↦ ok fields
      | some _ ↦ mark_stmts config node.decl (each_stmt node) fields
    ]
    >>= λ fields'. mark_nodes config nodes fields'

-- `sorted(it, key=grouper)`, which keeps the order of users with the same field
unfoldable pub insert_user : User → List User → List User
insert_user user [] = user ∷ []
insert_user user (u ∷ users) =
    let rest = u ∷ insert_user user users in if text_le user.1 u.1 then user ∷ u ∷ users else rest

unfoldable pub sort_users : List User → List User
sort_users [] = []
sort_users (user ∷ users) = insert_user user (sort_users users)

-- `_groupby`; in a sorted list no field has two groups
abbrev pub add_to_groups : User → Dict Text (List Decl) → Dict Text (List Decl)
add_to_groups user [] = (user.1, user.0 ∷ []) ∷ []
add_to_groups user ((field, decls) ∷ groups) =
    if user.1 == field
    then (field, user.0 ∷ decls) ∷ groups
    else (user.1, user.0 ∷ []) ∷ (field, decls) ∷ groups

unfoldable pub groups_of : List User → Dict Text (List Decl)
groups_of [] = []
groups_of (user ∷ users) = add_to_groups user (groups_of users)

unfoldable pub groupby : List User → Dict Text (List Decl)
groupby users = groups_of (sort_users users)

-- `selector`, over the groups
unfoldable pub sigs : Collection → List Decl → Result (List Sym)
sigs config [] = ok []
sigs config (decl ∷ decls) = do
  sig ← decl_sig config decl
  rest ← sigs config decls
  ok (sig ∷ rest)

unfoldable pub select : Collection → Dict Text (List Decl) → Result (Dict Text (List Sym))
select config [] = ok []
select config ((field, decls) ∷ groups) = do
  users ← sigs config decls
  rest ← select config groups
  ok ((field, users) ∷ rest)

-- `f.name`, for the fields that have one
abbrev pub field_name : Option Text → Option Text
field_name none = none
field_name (some []) = none
field_name (some (c ∷ name)) = some (c ∷ name)

-- `struct.name.name`
abbrev pub struct_name : Option Text → Result Text
struct_name none = err attribute_error
struct_name (some name) = ok name

-- the last loop
unfoldable pub struct_entries :
    Collection → PublicFields → Dict Text StructMeta → Result (Dict Text StructMeta)
struct_entries config [] struct_prop = ok struct_prop
struct_entries config ((_, (struct, user_fields)) ∷ fields) struct_prop = do
  name ← struct_name struct.name
  public_fields ← select config (groupby user_fields)
  struct_entries config fields (
      insert name
        (record { all_fields = filter_map field_name struct.fields; public_fields = public_fields })
        struct_prop)

unfoldable pub collect_struct : Collection → List Node → Result (Dict Text StructMeta)
collect_struct config nodes = do
  public_fields ← mark_nodes config nodes []
  struct_entries config public_fields []
