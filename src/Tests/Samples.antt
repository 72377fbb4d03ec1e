-- ===== src/Tests/Samples.antt =====
-- A kernel of three files: the scheduler with an interface, a callback and three helpers, a sidecar
-- file, and a user of one helper.
use Prim.Native.String.{String}
use plugsched.Common.{Bool, true, false, some, List, [], ◌∷◌, ◌≡◌, refl, filter, filter_map, ◌++◌}
use plugsched.Common.Sets.{member, add, from_list, union, diff, inter}
use plugsched.Common.Text.{
  Text, codes, text_eq, starts_with, ends_with, occurs, drop_text, before, basename, split,
  is_space,
}
use plugsched.Common.Dict.{Dict, lookup, get_item, insert}
use plugsched.Common.Errors.{Result, ok, err}
use plugsched.Common.Order.{
  text_le, ranked_le, text_order, ranked_order, ranked_eq, insert_sorted, sorted,
}
use plugsched.Analyze.Meta.{Sym, sym_eq, FnMeta, RawEdge, Meta, Config}
use plugsched.Analyze.Inflect.{inflect_one, inflect_loop, inflect}
use plugsched.Analyze.Sidecar.{follow, visit_edges, sidecar_dfs, sidecar_loop, sidecar_inflect}
use plugsched.Analyze.Redirect.{judge, check_edges, check_redirect_mangled}
use plugsched.Analyze.Linkage
use plugsched.Analyze.Linkage.{
  definition, record_global, scan_fn, scan_fns, scan_interface, scan_meta, first_pass, link,
  link_all, mod_hdrs, mod_srcs, sdcr_srcs,
}
use plugsched.Analyze.Resolve.{lookup_if_global, scan_callbacks, resolve_edge, second_pass}
use plugsched.Analyze.Classes.{
  FuncClass, cb_opt, callback, border, initial_insider, inflect_cut, classify,
  func_class_arithmetics,
}
use plugsched.Analyze.Vmlinux
use plugsched.Analyze.Vmlinux.{
  get_in_any, position, set_file, see_notype, see_mangled, local_file, see_local, see_func,
  see_entry, find_in_vmlinux,
}
use plugsched.Analyze.Structs.{scan_fields, scan_struct, scan_structs, struct_properties}
use plugsched.Analyze.Emit.{
  format_decl, is_local, decl_strs_from, get_func_decl_strs, und_pos, taint_pos, digits_from,
  decimal, taint_line, und_item, tainted_functions, undefined_functions,
}
use plugsched.Analyze.Main.{
  all_files, fullname, files, given, sanity_checks, Output, no_edges, analyze, metas,
}

-- what a test has to unfold
unfoldable pub program : Unit {0}
unfolding filter filter_map member add from_list union diff inter text_eq starts_with ends_with
    occurs drop_text before basename split is_space lookup get_item insert text_le ranked_le
    text_order ranked_order ranked_eq insert_sorted sorted sym_eq inflect_one inflect_loop inflect
    follow visit_edges sidecar_dfs sidecar_loop sidecar_inflect judge check_edges
    check_redirect_mangled definition record_global scan_fn scan_fns scan_interface scan_meta
    first_pass link link_all mod_hdrs mod_srcs sdcr_srcs lookup_if_global scan_callbacks
    resolve_edge second_pass cb_opt callback border initial_insider inflect_cut classify
    func_class_arithmetics get_in_any position set_file see_notype see_mangled local_file see_local
    see_func see_entry find_in_vmlinux scan_fields scan_struct scan_structs struct_properties
    format_decl is_local decl_strs_from get_func_decl_strs und_pos taint_pos digits_from decimal
    taint_line und_item tainted_functions undefined_functions all_files fullname files given
    sanity_checks analyze
program = tt

abbrev pub sym : String → String → Sym
sym name file = (codes name, codes file)

abbrev pub function : Bool → Bool → String → String → FnMeta
function public weak name file = record {
  name = codes name;
  init = false;
  file = codes file;
  l_brace_loc = (1, 0);
  r_brace_loc = (3, 0);
  name_loc = (0, 5);
  external = public;
  public = public;
  static = false;
  inline = false;
  weak = weak;
  signature = sym name file;
  decl_str = some (record { fn = codes name; ret = codes "int"; params = codes "void" });
}

abbrev pub call : Sym → Sym → RawEdge
call caller callee = record { from = caller; to = callee }

abbrev pub schedule : Sym
schedule = sym "schedule" "k/core.c"

abbrev pub pick : Sym
pick = sym "pick" "k/core.c"

abbrev pub leaf : Sym
leaf = sym "leaf" "k/core.c"

abbrev pub helper : Sym
helper = sym "helper" "k/core.c"

abbrev pub util : Sym
util = sym "util" "k/core.c"

abbrev pub tick : Sym
tick = sym "tick" "k/core.c"

abbrev pub kick : Sym
kick = sym "kick" "lib/kick.c"

abbrev pub aux : Sym
aux = sym "aux" "lib/kick.c"

abbrev pub user : Sym
user = sym "user" "mm/user.c"

abbrev pub core_meta : Meta
core_meta = record {
  fn =
      function true false "schedule" "k/core.c"
      ∷ function false false "pick" "k/core.c"
      ∷ function false false "leaf" "k/core.c"
      ∷ function true false "helper" "k/core.c"
      ∷ function false false "util" "k/core.c"
      ∷ function false false "tick" "k/core.c"
      ∷ [];
  interface = schedule ∷ [];
  callback = tick ∷ [];
  edge =
      call schedule pick
      ∷ call pick leaf
      ∷ call helper util
      ∷ call tick leaf
      ∷ call leaf (sym "memcpy" "?")
      ∷ [];
  struct =
      (
        codes "rq",
        record {
          all_fields = codes "curr" ∷ codes "lock" ∷ [];
          public_fields = (codes "curr", pick ∷ []) ∷ [];
        },
      )
      ∷ [];
}

abbrev pub kick_meta : Meta
kick_meta = record {
  fn = function true false "kick" "lib/kick.c" ∷ function false false "aux" "lib/kick.c" ∷ [];
  interface = [];
  callback = [];
  edge = call kick aux ∷ call kick (sym "helper" "?") ∷ [];
  struct = [];
}

abbrev pub user_meta : Meta
user_meta = record {
  fn = function true false "user" "mm/user.c" ∷ function true true "helper" "mm/user.c" ∷ [];
  interface = [];
  callback = [];
  edge = call user (sym "helper" "?") ∷ [];
  struct =
      (
        codes "rq",
        record {
          all_fields = codes "curr" ∷ codes "lock" ∷ [];
          public_fields = (codes "lock", user ∷ []) ∷ [];
        },
      )
      ∷ [];
}

abbrev pub config : Config
config = record { mod_files = codes "k/core.c" ∷ codes "k/sched.h" ∷ []; sidecar = kick ∷ [] }

abbrev pub meta_files : Dict Text Meta
meta_files =
    (codes "k/core.c.boundary", core_meta)
    ∷ (codes "lib/kick.c.boundary", kick_meta)
    ∷ (codes "mm/user.c.boundary", user_meta)
    ∷ []

abbrev pub row : String → String → String → Text
row symtype scope key =
    codes "1: 0 8 " ++ codes symtype ++ codes " " ++ codes scope ++ codes " DEFAULT 1 " ++ codes key

abbrev pub lines : List Text
lines =
    row "FILE" "LOCAL" "user.c"
    ∷ row "FUNC" "LOCAL" "pick"
    ∷ row "FILE" "LOCAL" "core.c"
    ∷ row "FUNC" "LOCAL" "pick"
    ∷ row "FUNC" "LOCAL" "leaf.isra.0"
    ∷ row "FUNC" "LOCAL" "util"
    ∷ row "FUNC" "LOCAL" "tick"
    ∷ row "FUNC" "GLOBAL" "schedule"
    ∷ row "FUNC" "GLOBAL" "helper"
    ∷ row "FUNC" "GLOBAL" "kick"
    ∷ row "FUNC" "GLOBAL" "user"
    ∷ []

abbrev pub pass : Linkage.Pass
pass = first_pass config (metas meta_files) Linkage.start

-- the value of a run, for the runs that end without an error
abbrev pub value_or {ℓ} : {A : Type ℓ} → A → Result A → A
value_or a (ok b) = b
value_or a (err e) = a

abbrev pub is_ok {ℓ} : {A : Type ℓ} → Result A → Bool
is_ok (ok b) = true
is_ok (err e) = false

pub ok-value_or {ℓ} : {A : Type ℓ} (a : A) (r : Result A) → is_ok r ≡ true → r ≡ ok (value_or a r)
ok-value_or a (ok b) h = refl
ok-value_or a (err e) h = absurd (cc)

abbrev pub no_globals : Linkage.Globals
no_globals = record { linked = []; fake_global = []; warned = [] }

abbrev pub globals : Linkage.Globals
globals = value_or no_globals (link_all pass.global_fn_dict)

linked_helper : lookup (codes "helper") globals.linked ≡ some (codes "k/core.c")
unfolding program
linked_helper = refl

abbrev pub no_classes : FuncClass
no_classes = record {
  callback = [];
  cb_opt = [];
  border = [];
  sdcr_left = [];
  sdcr_out = [];
  insider = [];
  sched_outsider = [];
  outsider_opt = [];
  public_user = [];
  tainted = [];
  und = [];
}

abbrev pub no_output : Output
no_output = record {
  globals = no_globals;
  resolved = no_edges;
  scan = Vmlinux.start;
  classes = no_classes;
  structs = [];
  tainted_functions = [];
  undefined_functions = [];
  export_jump = [];
}

-- the run of the whole program on the kernel
abbrev pub output : Output
output = value_or no_output (analyze 3 config meta_files lines)

ends : is_ok (analyze 3 config meta_files lines) ≡ true
unfolding program
ends = refl

pub analyze-output : analyze 3 config meta_files lines ≡ ok output
analyze-output = ok-value_or no_output (analyze 3 config meta_files lines) ends

-- `helper` is called from mm/user.c, and `util` by `helper`, so both leave the module.
insiders : output.classes.insider ≡ leaf ∷ pick ∷ []
unfolding program
insiders = refl

outsiders : output.classes.sched_outsider ≡ util ∷ helper ∷ []
unfolding program
outsiders = refl

second_pick : lookup pick output.scan.local_sympos ≡ some 2
unfolding program
second_pick = refl

header :
    output.export_jump
    ≡ codes "EXPORT_CALLBACK(tick, int, void)\n"
      ∷ codes "EXPORT_PLUGSCHED(kick, int, void)\n"
      ∷ codes "EXPORT_PLUGSCHED(schedule, int, void)\n"
      ∷ []
unfolding program
header = refl
