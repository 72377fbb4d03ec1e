-- ===== src/Extract/Locate.antt =====
-- `function_location` and `var_location` of boundary/extract.py: which functions and variables of
-- the file are to be edited, and how.
pub mod Exact
pub mod Vars
use plugsched.Common.{
  Bool, true, false, not, ◌||◌, List, [], ◌∷◌, ◌++◌, if◌then◌else◌, ◌==◌, ℕ, filter, Option,
}
use plugsched.Common.Sets.{member, add}
use plugsched.Common.Text.{Text, text_eq}
use plugsched.Analyze.Meta.{Sym, sym_eq, FnMeta, Location}

-- what the method reads of boundary_extract.yaml
pub record Boundary : Type 0 where
  pub init : List Sym
  pub sched_outsider : List Sym
  pub sdcr_out : List Sym
  pub callback : List Sym
  pub interface : List Sym
  pub sidecar : List Sym

-- the lists of `Extraction` that the method fills, and its local set
pub record Located : Type 0 where
  pub unique : List Sym
  pub fn_list : List FnMeta
  pub callback_list : List FnMeta
  pub interface_list : List FnMeta
  pub sidecar_list : List FnMeta

abbrev pub nothing_located : Located
nothing_located = record {
  unique = [];
  fn_list = [];
  callback_list = [];
  interface_list = [];
  sidecar_list = [];
}

-- from `if obj in self.config['function']['init']` on
unfoldable pub place : Boundary → FnMeta → Located → Located
place config fn found =
    let obj = fn.signature in
    if member obj config.init
    then found
    else if member obj config.sched_outsider || member obj config.sdcr_out
    then record found { fn_list = found.fn_list ++ fn ∷ [] }
    else if member obj config.callback
    then record found { callback_list = found.callback_list ++ fn ∷ [] }
    else if member obj config.interface
    then record found { interface_list = found.interface_list ++ fn ∷ [] }
    else if member obj config.sidecar
    then record found { sidecar_list = found.sidecar_list ++ fn ∷ [] }
    else found

-- the body of the loop
unfoldable pub locate : Boundary → Text → FnMeta → Located → Located
locate config src_file fn found =
    if not (fn.file == src_file)
    then found
    else if member fn.signature found.unique
    then found
    else place config fn (record found { unique = add fn.signature found.unique })

unfoldable pub function_location : Boundary → Text → List FnMeta → Located → Located
function_location config src_file [] found = found
function_location config src_file (fn ∷ meta_fn) found =
    function_location config src_file meta_fn (locate config src_file fn found)

-- An entry of meta['var'].
pub record VarMeta : Type 0 where
  pub name : Text
  pub file : Text
  pub name_loc : Location
  pub decl_start_line : ℕ
  pub external : Bool
  pub public : Bool
  pub static : Bool
  pub decl_str : Option Text

pub record VarConfig : Type 0 where
  pub extra_public : List Text
  pub force_private : List Text

pub record VarLists : Type 0 where
  pub shared_var_list : List VarMeta
  pub static_var_list : List VarMeta

-- the first loop
unfoldable pub defined_vars : Text → List VarMeta → List VarMeta
defined_vars src_file meta_var =
    filter (λ (var : VarMeta). not (not (var.file == src_file) || var.external)) meta_var

-- the body of the second loop
unfoldable pub sort_var : VarConfig → VarMeta → VarLists → VarLists
sort_var var_config var lists =
    if not (var.public || member var.name var_config.extra_public)
    then record lists { static_var_list = lists.static_var_list ++ var ∷ [] }
    else if not (member var.name var_config.force_private)
    then record lists { shared_var_list = lists.shared_var_list ++ var ∷ [] }
    else lists

unfoldable pub sort_vars : VarConfig → List VarMeta → VarLists → VarLists
sort_vars var_config [] lists = lists
sort_vars var_config (var ∷ meta_var) lists =
    sort_vars var_config meta_var (sort_var var_config var lists)

unfoldable pub var_location : VarConfig → Text → List Text → List VarMeta → VarLists
var_location var_config src_file sdcr_srcs meta_var =
    let defined = defined_vars src_file meta_var in
    if member src_file sdcr_srcs
    then record { shared_var_list = defined; static_var_list = [] }
    else sort_vars var_config defined (record { shared_var_list = []; static_var_list = [] })
