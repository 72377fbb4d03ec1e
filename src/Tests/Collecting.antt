-- ===== src/Tests/Collecting.antt =====
-- The theorems about boundary/collect.py, on a call graph of three functions.
use Prim.Native.String.{String}
use plugsched.Common.{
  ℕ, true, false, Option, none, some, List, [], ◌∷◌, ◌≡◌, refl, ◌↔◌, ◌⊎◌, filter, map, any,
  filter_map,
}
use mathlib.Core.List.{Memᴰ}
use plugsched.Common.Sets.{member}
use plugsched.Common.Text.{
  codes, text_eq, starts_with, drop_text, occurs, is_space, replace, before,
}
use plugsched.Common.Dict.{lookup, insert, get_item}
use plugsched.Common.Order.{text_le}
use plugsched.Common.Errors.{Result, ok, err, attribute_error}
use plugsched.Common.Gather.{gather}
use plugsched.Analyze.Meta.{Sym, FnMeta, RawEdge}
use plugsched.Extract.Paths.{split_at, walk, absolute, ups, lead, join_names, relpath}
use plugsched.Collect.Gcc.{
  GccLocation, unnamed, identifier, pointer, array, enumeral, struct_type, other_type, Typed, Decl,
  Collection, StructDecl, function_decl, component_ref, call, other_stmt, Node, Variable,
}
use plugsched.Collect.Bugs.{
  array_at, last_array, array_pointers, array_pointer, base_type, typedef, insert_found,
  insert_before_last, enum_type_name, array_size, is_val_list, va_list, fix, variadic_function,
  var_decl_start_loc,
}
use plugsched.Collect.Functions.{
  Collected, nothing_collected, relpath_of, decl_sig, in_section, decl_in_section, decl_is_weak,
  params_of, decl_str_of, is_candidate, is_interface_name, properties, collect_node, collect_fn,
}
use plugsched.Collect.Functions.Entries.{Entries}
use plugsched.Collect.Functions.Exact.{is_interface, IsDeclared, collect_fn_interfaces}
use plugsched.Collect.Graph.{
  stmts_of, each_stmt, calls, each_call_stmt, alias_edge, call_edge, node_edges, collect_edge,
  mark_callback, stmt_callbacks, node_callbacks, var_callbacks, collect_callback,
}
use plugsched.Collect.Graph.Callbacks.{InBody, InValue, collect_callback_exact}
use plugsched.Collect.Graph.Exact.{IsEdge, collect_edge_exact}
use plugsched.Collect.Structs.{
  User, add_user, named_parent, mark_user, mark_public_field, mark_ops, mark_stmts, mark_nodes,
  insert_user, sort_users, groups_of, groupby, sigs, select, struct_entries, collect_struct,
}
use plugsched.Collect.Structs.Groups.{with_field, unless_empty, lookup-groupby}
use plugsched.Collect.Vars.{
  trim_left, trim_right, extern_decl, var_properties, collect_variable, collect_var,
}
use plugsched.Collect.Info.{CollectedInfo, collect_all, collect_info}
use plugsched.Collect.Info.Declared.{Declared, interface_is_Declared}
use plugsched.Tests.Samples.{is_ok, value_or, ok-value_or}

abbrev loc : String → ℕ → ℕ → GccLocation
loc file line column = record { file = codes file; line = line; column = column }

abbrev int : Typed
int = record { typ = other_type (identifier (codes "int")); str_no_uid = codes "int" }

-- an array of masks, which GCC prints before the name
abbrev masks : Typed
masks = record {
  typ = pointer (array (struct_type (identifier (codes "cpumask")) (loc "k/sched.h" 3 1)));
  str_no_uid = codes "struct cpumask[1] *doms";
}

abbrev function : ℕ → String → List Typed → Decl
function uid name arguments = record {
  uid = uid;
  name = codes name;
  location = loc "k/core.c" 10 5;
  is_global = true;
  function = some (loc "k/core.c" 11 1, loc "k/core.c" 13 1);
  attributes = [];
  external = true;
  public = true;
  static = false;
  inline = false;
  result = int;
  arguments = arguments;
  typ = other_type unnamed;
  str_decl = codes name;
}

abbrev scheduler : Decl
scheduler = function 1 "scheduler" (masks ∷ int ∷ [])

abbrev tick : Decl
tick = function 2 "tick" []

-- an alias of `scheduler`
abbrev sys_yield : Decl
sys_yield = record (function 3 "sys_yield" []) {
  function = none;
  attributes =
      (codes "alias", record { constant = []; str_no_uid = codes "\"scheduler\"" } ∷ []) ∷ [];
}

abbrev run_queue : StructDecl
run_queue = record {
  uid = 7;
  stub = codes "k/sched.h";
  name = some (codes "rq");
  fields = some (codes "lock") ∷ none ∷ some (codes "nr") ∷ [];
}

-- `scheduler` calls `tick`, hands it on, and reads `rq->nr`.
abbrev nodes : List Node
nodes =
    record {
      decl = scheduler;
      basic_blocks =
          none
          ∷ some (
              call (none ∷ some (function_decl tick ∷ []) ∷ []) (some tick) []
              ∷ other_stmt (
                  component_ref (record {
                    uid = 1;
                    target = none;
                    field = some (codes "nr");
                    context = run_queue;
                  })
                  ∷ [])
              ∷ [])
          ∷ [];
    }
    ∷ record { decl = tick; basic_blocks = [] }
    ∷ record { decl = sys_yield; basic_blocks = [] }
    ∷ []

abbrev config : Collection
config = record {
  cwd = codes "linux" ∷ [];
  src_f = codes "k/core.c";
  mod_srcs = codes "k/core.c" ∷ [];
  mod_hdrs = codes "k/sched.h" ∷ [];
  sdcr_srcs = [];
  interface = codes "scheduler" ∷ [];
  interface_prefix = [];
}

abbrev load : Variable
load = record {
  decl = record (function 4 "load" []) {
    function = none;
    str_decl = codes "static int load = 3;";
    typ = other_type (identifier (codes "int"));
  };
  has_location = true;
  type_name = identifier (codes "int");
  initial = none;
}

unfoldable collecting : Unit {0}
unfolding filter member any filter_map text_eq starts_with drop_text occurs is_space replace before
    lookup insert get_item text_le gather split_at walk absolute ups lead join_names relpath
    array_at last_array array_pointers array_pointer base_type typedef insert_found
    insert_before_last enum_type_name array_size is_val_list va_list fix variadic_function
    var_decl_start_loc relpath_of decl_sig in_section decl_in_section decl_is_weak params_of
    decl_str_of is_candidate is_interface_name properties collect_node collect_fn stmts_of each_stmt
    calls each_call_stmt alias_edge call_edge node_edges collect_edge mark_callback stmt_callbacks
    node_callbacks var_callbacks collect_callback add_user named_parent mark_user mark_public_field
    mark_ops mark_stmts mark_nodes insert_user sort_users groups_of groupby sigs select
    struct_entries collect_struct trim_left trim_right extern_decl var_properties collect_variable
    collect_var collect_all collect_info
collecting = tt

array_pointer_run :
    array_pointer (codes "struct cpumask[1] *doms_cur") ≡ codes "struct cpumask (*doms_cur)[1]"
unfolding collecting
array_pointer_run = refl

-- An enumeration without a name has no text to put "enum" in.
unnamed_enum : fix (enumeral unnamed (loc "k/core.c" 1 1)) (codes "flags") ≡ err attribute_error
unfolding collecting
unnamed_enum = refl

abbrev no_info : CollectedInfo
no_info = record {
  meta = record { fn = []; interface = []; callback = []; edge = []; struct = [] };
  var = [];
}

abbrev of_info : Option CollectedInfo → CollectedInfo
of_info none = no_info
of_info (some info) = info

abbrev run : Result (Option CollectedInfo)
run = collect_info config (codes "*free_lang_data") nodes (load ∷ [])

abbrev info : CollectedInfo
info = of_info (value_or none run)

ends : run ≡ ok (some info)
unfolding collecting
ends = refl

abbrev sig : String → Sym
sig name = (codes name, codes "k/core.c")

interfaces : info.meta.interface ≡ sig "scheduler" ∷ []
unfolding collecting
interfaces = refl

callbacks : info.meta.callback ≡ sig "tick" ∷ []
unfolding collecting
callbacks = refl

edges :
    info.meta.edge
    ≡ record { from = sig "scheduler"; to = sig "tick" }
      ∷ record { from = (codes "sys_yield", codes "?"); to = (codes "scheduler", codes "?") }
      ∷ []
unfolding collecting
edges = refl

structs :
    info.meta.struct
    ≡ (
      codes "rq",
      record {
        all_fields = codes "lock" ∷ codes "nr" ∷ [];
        public_fields = (codes "nr", sig "scheduler" ∷ []) ∷ [];
      },
    )
      ∷ []
unfolding collecting
structs = refl

decl_strs :
    map (λ (fn : FnMeta). fn.decl_str) info.meta.fn
    ≡ some (record {
      fn = codes "scheduler";
      ret = codes "int";
      params = codes "struct cpumask (*doms)[1], int";
    })
      ∷ some (record { fn = codes "tick"; ret = codes "int"; params = codes "void" })
      ∷ []
unfolding collecting
decl_strs = refl

vars : map (λ v. v.decl_str) info.var ≡ some (codes "extern int load;") ∷ []
unfolding collecting
vars = refl

other_pass : collect_info config (codes "inline") nodes [] ≡ ok none
unfolding collecting
other_pass = refl

listed : Memᴰ (sig "scheduler") info.meta.interface
unfolding collecting
listed = Memᴰ.head refl

interface_is_Declared_example : Declared info (sig "scheduler")
interface_is_Declared_example =
    interface_is_Declared config (codes "*free_lang_data") nodes (load ∷ []) info ends
      (sig "scheduler") listed

abbrev decls : List Decl
decls = scheduler ∷ tick ∷ sys_yield ∷ []

abbrev collected : Collected
collected = value_or nothing_collected (collect_fn config decls nothing_collected)

collects : is_ok (collect_fn config decls nothing_collected) ≡ true
unfolding collecting
collects = refl

collect_fn_interfaces_example :
    Entries config decls collected.fn_prop
    × (collected.intf_prop
        ≡ map (λ fn. fn.signature) (filter (is_interface config) collected.fn_prop))
    × ((fn : FnMeta) → Memᴰ fn collected.fn_prop → IsDeclared config fn)
collect_fn_interfaces_example =
    collect_fn_interfaces config decls collected
      (ok-value_or nothing_collected (collect_fn config decls nothing_collected) collects)

abbrev call_graph : List RawEdge
call_graph = value_or [] (collect_edge config nodes)

links : is_ok (collect_edge config nodes) ≡ true
unfolding collecting
links = refl

abbrev alias : RawEdge
alias = record { from = (codes "sys_yield", codes "?"); to = (codes "scheduler", codes "?") }

collect_edge_exact_example :
    Memᴰ alias call_graph ↔ ((node : Node) × Memᴰ node nodes × IsEdge config node alias)
collect_edge_exact_example =
    collect_edge_exact config nodes call_graph (ok-value_or [] (collect_edge config nodes) links)
      alias

abbrev users : List User
users = (scheduler, codes "nr") ∷ (tick, codes "lock") ∷ (tick, codes "nr") ∷ []

lookup-groupby_example :
    lookup (codes "nr") (groupby users) ≡ unless_empty (with_field (codes "nr") users)
lookup-groupby_example = lookup-groupby (codes "nr") users

grouped : groupby users ≡ (codes "lock", tick ∷ []) ∷ (codes "nr", scheduler ∷ tick ∷ []) ∷ []
unfolding collecting
grouped = refl

abbrev callback_sigs : List Sym
callback_sigs = value_or [] (collect_callback config nodes (load ∷ []))

marks : is_ok (collect_callback config nodes (load ∷ [])) ≡ true
unfolding collecting
marks = refl

collect_callback_exact_example :
    Memᴰ (sig "tick") callback_sigs
    ↔ ((node : Node) × Memᴰ node nodes × InBody config node (sig "tick"))
      ⊎ ((var : Variable) × Memᴰ var (load ∷ []) × InValue config var (sig "tick"))
collect_callback_exact_example =
    collect_callback_exact config nodes (load ∷ []) callback_sigs
      (ok-value_or [] (collect_callback config nodes (load ∷ [])) marks) (sig "tick")
