-- ===== src/Tests/Extraction.antt =====
-- The theorems about boundary/extract.py, on a few functions, variables and lines.
use Prim.Native.String.{String}
use plugsched.Common.{
  not, ℕ, Bool, true, false, List, [], ◌∷◌, ◌++◌, ◌≡◌, refl, ◌↔◌, ◌⊎◌, some, none, arith, length,
  ◌≤◌, ◌<◌, filter,
}
use plugsched.Common.Sets.{member, add}
use plugsched.Common.Text.{Text, codes, text_eq, starts_with, occurs, is_space}
use plugsched.Common.Errors.{ok, err, index_error}
use plugsched.Analyze.Meta.{Sym, sym_eq, FnMeta}
use plugsched.Extract.Locate.{
  Boundary, nothing_located, place, locate, function_location, VarMeta, VarConfig, defined_vars,
  sort_var, sort_vars, var_location,
}
use plugsched.Extract.Locate.Exact.{IsSorted, DefinedAs, function_location_exact, signatures}
use plugsched.Extract.Locate.Vars.{is_defined, is_shared, is_private, var_location_exact}
use plugsched.Extract.Lines.{
  get_elem?, strip, close_up, terminator, merge_up, merge_up_lines, count, merge_down,
  merge_down_fn,
}
use plugsched.Extract.Lines.Up.{or_blank, Stop, joined, merge_up_lines_exact}
use plugsched.Extract.Lines.Down.{is_open, merge_down_fn_exact}
use plugsched.Tests.Samples.{function, schedule, helper, tick}
use mathlib.Core.List.{Memᴰ}

abbrev boundary : Boundary
boundary = record {
  init = [];
  sched_outsider = helper ∷ [];
  sdcr_out = [];
  callback = tick ∷ [];
  interface = schedule ∷ [];
  sidecar = [];
}

abbrev meta_fn : List FnMeta
meta_fn =
    function true false "schedule" "k/core.c"
    ∷ function false false "pick" "k/core.c"
    ∷ function true false "helper" "k/core.c"
    ∷ function true false "helper" "k/core.c"
    ∷ function false false "tick" "k/core.c"
    ∷ function false false "leaf" "k/sched.h"
    ∷ []

function_location_exact_example :
    IsSorted boundary (function_location boundary (codes "k/core.c") meta_fn nothing_located)
    × ((s : Sym)
        → (member s (function_location boundary (codes "k/core.c") meta_fn nothing_located).unique
            ≡ true)
          ↔ ∥ ((fn : FnMeta) × Memᴰ fn meta_fn × DefinedAs (codes "k/core.c") s fn) ∥₁)
function_location_exact_example = function_location_exact boundary (codes "k/core.c") meta_fn

-- `helper` comes twice in the metadata.
removed :
    signatures (function_location boundary (codes "k/core.c") meta_fn nothing_located).fn_list
    ≡ helper ∷ []
unfolding function_location locate place member add sym_eq text_eq
removed = refl

abbrev var : Bool → String → VarMeta
var public name = record {
  name = codes name;
  file = codes "k/core.c";
  name_loc = (4, 10);
  decl_start_line = 4;
  external = false;
  public = public;
  static = not public;
  decl_str = none;
}

abbrev var_config : VarConfig
var_config = record { extra_public = codes "rqs" ∷ []; force_private = codes "nohz" ∷ [] }

abbrev meta_var : List VarMeta
meta_var = var true "load" ∷ var false "rqs" ∷ var false "cache" ∷ var true "nohz" ∷ []

var_location_exact_example :
    (member (codes "k/core.c") [] ≡ true
      → var_location var_config (codes "k/core.c") [] meta_var ≡ record {
        shared_var_list = filter (is_defined (codes "k/core.c")) meta_var;
        static_var_list = [];
      })
    × (member (codes "k/core.c") [] ≡ false
        → var_location var_config (codes "k/core.c") [] meta_var ≡ record {
          shared_var_list = filter (is_shared var_config (codes "k/core.c")) meta_var;
          static_var_list = filter (is_private var_config (codes "k/core.c")) meta_var;
        })
var_location_exact_example = var_location_exact var_config (codes "k/core.c") [] meta_var

sorted_vars : var_location var_config (codes "k/core.c") [] meta_var ≡ record {
  shared_var_list = var true "load" ∷ var false "rqs" ∷ [];
  static_var_list = var false "cache" ∷ [];
}
unfolding var_location defined_vars sort_vars sort_var filter member text_eq
sorted_vars = refl

abbrev lines : List Text
lines =
    codes "int a;\n"
    ∷ codes "static int\n"
    ∷ codes "pick(struct rq *rq,\n"
    ∷ codes "     int n) ;\n"
    ∷ []

merge_up_lines_exact_example :
    (first : ℕ) × (lines' : List Text) × (merge_up_lines lines 3 ≡ ok (first, lines'))
    × Stop lines 3 (omega arith) 3 first
    × (length lines' ≡ length lines)
    × (get_elem? lines' first
        ≡ some (close_up (joined lines first 3 ++ strip (codes "     int n) ;\n")) ++ codes "\n"))
    × ((i : ℕ) → first < i → i ≤ 3 → get_elem? lines' i ≡ some [])
    × ((i : ℕ) → (i < first) ⊎ (3 < i) → get_elem? lines' i ≡ get_elem? lines i)
merge_up_lines_exact_example =
    merge_up_lines_exact lines 3 (codes "     int n) ;\n") refl (omega arith)

merged :
    merge_up_lines lines 3
    ≡ ok (1, codes "int a;\n" ∷ codes "static int pick(struct rq *rq, int n);\n" ∷ [] ∷ [] ∷ [])
unfolding merge_up_lines merge_up strip is_space close_up terminator occurs starts_with text_eq
merged = refl

abbrev definition : List Text
definition = codes "int __init f(void)\n" ∷ codes "{\n" ∷ codes "}\n" ∷ codes "\n" ∷ []

closed_by_third : is_open definition 0 2 ≡ false
unfolding count
closed_by_third = refl

merge_down_fn_exact_example :
    (stop : ℕ) × (lines' : List Text) × (merge_down_fn definition 0 ≡ ok (stop, lines'))
    × (0 ≤ stop)
    × (stop ≤ 2)
    × (is_open definition 0 stop ≡ false)
    × ((i : ℕ) → 0 ≤ i → i < stop → is_open definition 0 i ≡ true)
    × (length lines' ≡ length definition)
    × (get_elem? lines' 0 ≡ some (joined definition 0 stop ++ or_blank (get_elem? definition stop)))
    × ((i : ℕ) → 0 < i → i ≤ stop → get_elem? lines' i ≡ some [])
    × ((i : ℕ) → (i < 0) ⊎ (stop < i) → get_elem? lines' i ≡ get_elem? definition i)
merge_down_fn_exact_example =
    merge_down_fn_exact definition 0 2 (omega arith) (omega arith) closed_by_third

one_line :
    merge_down_fn definition 0
    ≡ ok (2, codes "int __init f(void) { }\n" ∷ [] ∷ [] ∷ codes "\n" ∷ [])
unfolding merge_down_fn merge_down strip is_space count
one_line = refl

unclosed : merge_down_fn (codes "{\n" ∷ []) 0 ≡ err index_error
unfolding merge_down_fn merge_down strip is_space count
unclosed = refl
