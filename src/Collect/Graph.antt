-- ===== src/Collect/Graph.antt =====
-- `collect_edge` and `collect_callback` of boundary/collect.py: the call graph and the functions whose
-- address is taken.
pub mod Exact
pub mod Callbacks
use plugsched.Common.{
  Bool, true, false, not, ◌&&◌, Option, none, some, List, [], ◌∷◌, ◌++◌, if◌then◌else◌, ◌==◌,
}
use plugsched.Common.Text.{Text, codes, text_eq, replace}
use plugsched.Common.Dict.{get_item}
use plugsched.Common.Errors.{Result, ok, err, index_error, ◌>>=◌}
use plugsched.Common.Gather.{gather}
use plugsched.Analyze.Meta.{Sym, RawEdge}
use plugsched.Collect.Gcc.{
  GccLocation, AttributeValue, TypeName, unnamed, identifier, type_decl, Decl, Collection, Op,
  function_decl, component_ref, other_op, Stmt, call, other_stmt, Node, Variable,
}
use plugsched.Collect.Functions.{decl_in_section, decl_sig}

-- the statements of the basic blocks that have some
unfoldable pub stmts_of : List (Option (List Stmt)) → List Stmt
stmts_of [] = []
stmts_of (none ∷ blocks) = stmts_of blocks
stmts_of (some stmts ∷ blocks) = stmts ++ stmts_of blocks

unfoldable pub each_stmt : Node → List Stmt
each_stmt node = stmts_of node.basic_blocks

-- the calls among statements: the declarations of their callees
unfoldable pub calls : List Stmt → List (Option Decl)
calls [] = []
calls (call rhs fndecl ops ∷ stmts) = fndecl ∷ calls stmts
calls (other_stmt ops ∷ stmts) = calls stmts

unfoldable pub each_call_stmt : Node → List (Option Decl)
each_call_stmt node = calls (stmts_of node.basic_blocks)

-- `node.decl.attributes['alias'][0]`
abbrev pub first_value : List AttributeValue → Result AttributeValue
first_value [] = err index_error
first_value (val ∷ _) = ok val

-- the edge from an alias to the function that it names, in a file not known yet
unfoldable pub alias_edge : Collection → Decl → Result (List RawEdge)
alias_edge config decl = do
  alias ← get_item (codes "alias") decl.attributes
  val ← first_value alias
  from ← decl_sig config decl
  ok (record { from = from; to = (replace (codes "\"") [] val.str_no_uid, codes "?") } ∷ [])

-- the edge for a call
unfoldable pub call_edge : Collection → Decl → Option Decl → Result (List RawEdge)
call_edge config decl none = ok []
call_edge config decl (some fndecl) = do
  from ← decl_sig config decl
  to ← decl_sig config fndecl
  ok (record { from = from; to = to } ∷ [])

-- by `node.decl.function`
abbrev pub function_edges :
    Collection → Node → Option (GccLocation × GccLocation) → Result (List RawEdge)
function_edges config node none = alias_edge config node.decl
function_edges config node (some _) = gather (call_edge config node.decl) (each_call_stmt node)

-- the body of the loop, which skips the functions of `.init.text`
abbrev pub edges_if : Collection → Node → Bool → Result (List RawEdge)
edges_if config node true = ok []
edges_if config node false = function_edges config node node.decl.function

unfoldable pub node_edges : Collection → Node → Result (List RawEdge)
node_edges config node = do
  init ← decl_in_section node.decl (codes ".init.text")
  edges_if config node init

unfoldable pub collect_edge : Collection → List Node → Result (List RawEdge)
collect_edge config nodes = gather (node_edges config) nodes

-- one visit
abbrev pub sig_if : Collection → Decl → Bool → Result (List Sym)
sig_if config op true = ok []
sig_if config op false = decl_sig config op >>= λ sig. ok (sig ∷ [])

unfoldable pub mark_callback : Collection → Op → Result (List Sym)
mark_callback config other_op = ok []
mark_callback config (component_ref op) = ok []
mark_callback config (function_decl op) = do
  init ← decl_in_section op (codes ".init.text")
  sig_if config op init

-- `walk_tree`, which goes on since `mark_callback` returns None
abbrev pub walk_tree : Collection → List Op → Result (List Sym)
walk_tree config ops = gather (mark_callback config) ops

abbrev pub walk_unless : Collection → Bool → List Op → Result (List Sym)
walk_unless config true ops = ok []
walk_unless config false ops = walk_tree config ops

abbrev pub walk_operand : Collection → Option (List Op) → Result (List Sym)
walk_operand config none = ok []
walk_operand config (some ops) = walk_tree config ops

-- the operands but for the first, which is the callee
abbrev pub walk_operands : Collection → List (Option (List Op)) → Result (List Sym)
walk_operands config [] = ok []
walk_operands config (_ ∷ rhs) = gather (walk_operand config) rhs

unfoldable pub stmt_callbacks : Collection → Stmt → Result (List Sym)
stmt_callbacks config (call rhs fndecl ops) = walk_operands config rhs
stmt_callbacks config (other_stmt ops) = walk_tree config ops

-- by `node.decl.function`
abbrev pub body_callbacks :
    Collection → Node → Option (GccLocation × GccLocation) → Result (List Sym)
body_callbacks config node none = ok []
body_callbacks config node (some _) = gather (stmt_callbacks config) (each_stmt node)

unfoldable pub node_callbacks : Collection → Node → Result (List Sym)
node_callbacks config node = body_callbacks config node node.decl.function

-- `'' if not decl.type.name else decl.type.name.name`
abbrev pub name_or_empty : TypeName → Text
name_or_empty unnamed = []
name_or_empty (identifier name) = name
name_or_empty (type_decl name builtin) = name

-- by `decl.initial` and by the test on the name of the type
abbrev pub value_callbacks : Collection → Decl → Option (List Op) → Bool → Result (List Sym)
value_callbacks config decl none private = ok []
value_callbacks config decl (some ops) true = ok []
value_callbacks config decl (some ops) false =
    decl_in_section decl (codes ".discard.addressable") >>= λ discarded.
    walk_unless config discarded ops

unfoldable pub var_callbacks : Collection → Variable → Result (List Sym)
var_callbacks config var =
    value_callbacks config var.decl var.initial (name_or_empty var.type_name == codes "sched_class")

unfoldable pub collect_callback : Collection → List Node → List Variable → Result (List Sym)
collect_callback config nodes vars = do
  in_bodies ← gather (node_callbacks config) nodes
  in_values ← gather (var_callbacks config) vars
  ok (in_bodies ++ in_values)
