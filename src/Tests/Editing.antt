-- ===== src/Tests/Editing.antt =====
-- The theorems about the edits of boundary/extract.py, on a file with an outsider, a variable and an
-- include.
use plugsched.Common.{
  ℕ, true, false, none, some, List, [], ◌∷◌, ◌++◌, ◌≡◌, refl, arith, length, ◌≤◌, ◌<◌, ◌⊎◌, take,
  any, if◌then◌else◌, filter,
}
use plugsched.Common.Sets.{member, add}
use plugsched.Common.Text.{
  Text, codes, text_eq, starts_with, ends_with, drop_text, occurs, replace, basename, is_space,
}
use plugsched.Common.Errors.{ok, err, index_error}
use plugsched.Analyze.Meta.{sym_eq, FnMeta}
use plugsched.Extract.Locate.{
  VarMeta, place, locate, function_location, defined_vars, sort_var, sort_vars, var_location,
}
use plugsched.Extract.Lines.{
  count, merge_down, merge_down_fn, get_elem?, strip, close_up, terminator, merge_up,
  merge_up_lines,
}
use plugsched.Extract.Lines.Up.{Stop, joined}
use plugsched.Extract.Functions.{
  edit_all, clear_lines, remove_body, edit_outsider, function_extract,
}
use plugsched.Extract.Functions.Removal.{cut_lines, remove_body_exact}
use plugsched.Extract.Vars.{
  delete_definition, declare_var, declare_vars, merge_var, merge_down_var, mark_static, share_vars,
  var_extract,
}
use plugsched.Extract.Paths.{
  or_dot, split_at, split_on, walk, absolute, ups, lead, join_names, relpath, join_path,
  up_to_slash, dirname,
}
use plugsched.Extract.Paths.Names.{IsName, All}
use plugsched.Extract.Fixes.{
  swallow, Extraction, extract_sdcr_srcs, dst_file, fix_include, is_deleted, last_class, substitute,
  fix_line, fix_lines, fix_up, extract_file,
}
use plugsched.Extract.Vars.Declared.{starts_at, declarations, declare_vars_exact}
use plugsched.Extract.Vars.Ends.{NoSemicolon, IsJoined, merge_down_var_exact}
use plugsched.Extract.Fixes.Reached.{IsFixed}
use plugsched.Extract.Fixes.Exact.{fix_up_exact}
use plugsched.Extract.Fixes.Include.{fix_include_resolves}
use plugsched.Extract.Preserved.File.{extract_file-KeepsLength}
use plugsched.Tests.Samples.{function, helper}

abbrev config : Extraction
config = record {
  cwd = codes "linux" ∷ [];
  src_file = codes "k/core.c";
  mod_dir = codes "k/mod/";
  mod_files = codes "k/core.c" ∷ codes "k/sched.h" ∷ [];
  boundary = record {
    init = [];
    sched_outsider = helper ∷ [];
    sdcr_out = [];
    callback = [];
    interface = [];
    sidecar = [];
  };
  outsider_opt = [];
  interface_prefix = [];
  var_config = record { extra_public = []; force_private = [] };
}

abbrev outsider : FnMeta
outsider = function true false "helper" "k/core.c"

abbrev cache : VarMeta
cache = record {
  name = codes "cache";
  file = codes "k/core.c";
  name_loc = (4, 11);
  decl_start_line = 4;
  external = false;
  public = false;
  static = true;
  decl_str = none;
}

abbrev lines : List Text
lines =
    codes "int helper(void)\n"
    ∷ codes "{\n"
    ∷ codes "\treturn 0;\n"
    ∷ codes "}\n"
    ∷ codes "static int cache;\n"
    ∷ codes "#include \"../u/user.h\"\n"
    ∷ []

remove_body_exact_example :
    (first : ℕ) × (lines' : List Text) × (remove_body outsider lines ≡ ok lines')
    × Stop (cut_lines outsider (codes "{\n") lines) 1 (omega arith) 1 first
    × (get_elem? lines' first
        ≡ some (
            close_up (
              joined (cut_lines outsider (codes "{\n") lines) first 1
              ++ strip (take 0 (codes "{\n") ++ codes ";\n"))
            ++ codes "\n"))
    × ((i : ℕ) → first < i → i ≤ 3 → get_elem? lines' i ≡ some [])
    × ((i : ℕ) → (i < first) ⊎ (3 < i) → get_elem? lines' i ≡ get_elem? lines i)
remove_body_exact_example =
    remove_body_exact outsider lines (codes "{\n") refl (omega arith) (omega arith) (omega arith)

unfoldable extraction : Unit {0}
unfolding declare_vars filter member add text_eq starts_with ends_with drop_text occurs replace
    basename is_space sym_eq place locate function_location defined_vars sort_var sort_vars
    var_location strip close_up terminator merge_up merge_up_lines edit_all clear_lines remove_body
    edit_outsider function_extract mark_static share_vars var_extract split_at walk absolute ups
    lead join_names relpath join_path up_to_slash dirname extract_sdcr_srcs dst_file fix_include
    is_deleted last_class substitute fix_line fix_lines fix_up extract_file
extraction = tt

abbrev new_lines : List Text
new_lines =
    codes "int helper(void);\n"
    ∷ []
    ∷ []
    ∷ []
    ∷ codes "static __used int cache;\n"
    ∷ codes "#include \"../../u/user.h\"\n"
    ∷ []

extracted : extract_file config (outsider ∷ []) (cache ∷ []) lines ≡ ok new_lines
unfolding extraction
extracted = refl

extract_file-KeepsLength_example : length new_lines ≡ length lines
extract_file-KeepsLength_example =
    extract_file-KeepsLength config (outsider ∷ []) (cache ∷ []) lines new_lines extracted

abbrev include : Text
include = codes "#include \"../u/user.h\"\n"

abbrev new_include : Text
new_include = codes "#include \"../../u/user.h\"\n"

fixed : fix_include config include ≡ ok new_include
unfolding extraction
fixed = refl

cwd_names : All IsName config.cwd
unfolding member text_eq
cwd_names = (record { part = refl; nonempty = refl; no_dot = refl; no_dots = refl }, tt)

fix_include_resolves_example :
    (old rel : Text) × (get_elem? (split_on b'"' include) 1 ≡ some old)
    × (absolute config.cwd rel ≡ absolute config.cwd (join_path (dirname config.src_file) old))
    × ((names : List Text)
        → absolute config.cwd (join_path (dirname config.src_file) old) ≡ config.cwd ++ names
        → rel ≡ or_dot names)
    × ((member rel config.mod_files ≡ true) × (new_include ≡ include)
        ⊎ (member rel config.mod_files ≡ false)
          × ((new : Text) × (new_include ≡ replace old new include)
              × (absolute (absolute config.cwd (dirname (dst_file config))) new
                  ≡ absolute config.cwd (join_path (dirname config.src_file) old))))
fix_include_resolves_example = fix_include_resolves config include new_include cwd_names fixed

-- an include, an init function over three lines, and a class of the scheduler
abbrev late_lines : List Text
late_lines =
    codes "#include \"../u/user.h\"\n"
    ∷ codes "void __init f(void)\n"
    ∷ codes "{\n"
    ∷ codes "}\n"
    ∷ codes "const struct sched_class rt_sched_class = {\n"
    ∷ []

abbrev fixed_lines : List Text
fixed_lines =
    codes "#include \"../../u/user.h\"\n"
    ∷ []
    ∷ []
    ∷ []
    ∷ codes "struct sched_class shadow_rt_sched_class = {\n"
    ∷ []

fixes : fix_up config late_lines ≡ ok fixed_lines
unfolding extraction swallow merge_down_fn merge_down count
fixes = refl

fix_up_exact_example :
    (fixed : Text) × (get_elem? fixed_lines 4 ≡ some fixed)
    × IsFixed config late_lines (codes "const struct sched_class rt_sched_class = {\n") 4 fixed
fix_up_exact_example =
    fix_up_exact config late_lines fixed_lines fixes 4
      (codes "const struct sched_class rt_sched_class = {\n") refl

abbrev table : List Text
table = codes "int table[] =\n" ∷ codes "  { 1 };\n" ∷ []

merge_down_var_exact_example :
    ((stop : ℕ) × (lines' : List Text) × (merge_down_var table 0 ≡ ok (stop, lines'))
      × IsJoined table 0 stop lines')
    ⊎ (merge_down_var table 0 ≡ err index_error) × NoSemicolon table 0
merge_down_var_exact_example = merge_down_var_exact table 0

joins : merge_down_var table 0 ≡ ok (1, codes "int table[] =   { 1 };\n" ∷ [] ∷ [])
unfolding extraction merge_down_var merge_var
joins = refl

past_the_end : merge_down_var (codes "int a\n" ∷ []) 0 ≡ err index_error
unfolding extraction merge_down_var merge_var
past_the_end = refl

-- two variables that are defined on one line
abbrev shared : List VarMeta
shared =
    record cache { name = codes "a"; decl_start_line = 0; decl_str = some (codes "extern int a;") }
    ∷ record cache {
      name = codes "b";
      decl_start_line = 0;
      decl_str = some (codes "extern int b;");
    }
    ∷ []

abbrev declared_lines : List Text
declared_lines = codes "extern int a;\nextern int b;\n" ∷ codes "int c;\n" ∷ []

declares : declare_vars shared (codes "int a, b;\n" ∷ codes "int c;\n" ∷ []) ≡ ok declared_lines
unfolding extraction delete_definition declare_var
declares = refl

declare_vars_exact_example : get_elem? declared_lines 0 ≡ (
    if any (starts_at 0) shared
    then some (declarations 0 shared)
    else get_elem? (codes "int a, b;\n" ∷ codes "int c;\n" ∷ []) 0)
declare_vars_exact_example =
    declare_vars_exact shared (codes "int a, b;\n" ∷ codes "int c;\n" ∷ []) declared_lines declares
      0
