-- ===== src/Collect/Functions.antt =====
-- `collect_fn` and `collect_var` of boundary/collect.py, and the methods of `Collection` that read a
-- declaration.
pub mod Entries
pub mod Exact
use plugsched.Common.{
  ℕ, ◌-◌, Bool, true, false, not, ◌&&◌, ◌||◌, Option, none, some, List, [], ◌∷◌, ◌++◌,
  if◌then◌else◌, ◌==◌, any,
}
use plugsched.Common.Sets.{member}
use plugsched.Common.Text.{Text, codes, text_eq, starts_with, replace}
use plugsched.Common.Dict.{Dict, lookup}
use plugsched.Common.Errors.{Result, ok, err, assertion, ◌>>=◌}
use plugsched.Analyze.Meta.{Sym, Location, DeclStr, FnMeta}
use plugsched.Extract.Paths.{relpath}
use plugsched.Extract.Locate.{VarMeta}
use plugsched.Collect.Gcc.{GccLocation, AttributeValue, Typed, Decl, Collection}
use plugsched.Collect.Bugs.{fix, variadic_function, var_decl_start_loc}

-- `self.relpath(decl)`
unfoldable pub relpath_of : Collection → Decl → Result Text
relpath_of config decl = relpath config.cwd decl.location.file (codes ".")

unfoldable pub decl_sig : Collection → Decl → Result Sym
decl_sig config decl = elim (decl.function) [
  | none ↦ ok (decl.name, codes "?")
  | some _ ↦ relpath_of config decl >>= λ file. ok (decl.name, file)
]

-- the value of the section attribute
abbrev pub is_section : Text → List AttributeValue → Result Bool
is_section section [] = err assertion
is_section section (val ∷ []) = ok (val.constant == section)
is_section section (_ ∷ _ ∷ _) = err assertion

unfoldable pub in_section : Text → Dict Text (List AttributeValue) → Result Bool
in_section section [] = ok false
in_section section ((name, val) ∷ attributes) =
    let rest = in_section section attributes in
    if name == codes "section" || name == codes "__section__" then is_section section val else rest

unfoldable pub decl_in_section : Decl → Text → Result Bool
decl_in_section decl section = in_section section decl.attributes

-- `name in decl.attributes`
abbrev pub is_found : Option (List AttributeValue) → Bool
is_found none = false
is_found (some _) = true

abbrev pub has_attribute : Text → Decl → Bool
has_attribute name decl = is_found (lookup name decl.attributes)

unfoldable pub decl_is_weak : Decl → Bool
decl_is_weak decl = has_attribute (codes "__weak__") decl || has_attribute (codes "weak") decl

-- `(loc.line - 1, loc.column - 1)`
abbrev pub position_of : GccLocation → Location
position_of loc = (loc.line - 1, loc.column - 1)

-- `', '.join(GccBugs.fix(arg, arg.type.str_no_uid) for arg in decl.arguments)`
unfoldable pub params_of : List Typed → Result Text
params_of [] = ok []
params_of (arg ∷ []) = fix arg.typ arg.str_no_uid
params_of (arg ∷ next ∷ arguments) = do
  first ← fix arg.typ arg.str_no_uid
  rest ← params_of (next ∷ arguments)
  ok (first ++ (codes ", " ++ rest))

abbrev pub or_void : List Typed → Result Text
or_void [] = ok (codes "void")
or_void (arg ∷ arguments) = params_of (arg ∷ arguments)

-- the block that makes `decl_str`
unfoldable pub decl_str_of : Decl → Result DeclStr
decl_str_of decl = do
  ret ← fix decl.result.typ decl.result.str_no_uid
  params ← or_void decl.arguments
  ok (record { fn = decl.name; ret = ret; params = variadic_function decl.str_decl params })

-- whether the file that is compiled belongs to the module or is a sidecar's
unfoldable pub is_candidate : Collection → Bool
is_candidate config = member config.src_f (config.mod_srcs ++ config.sdcr_srcs)

unfoldable pub is_interface_name : Collection → Text → Bool
is_interface_name config name =
    member name config.interface || any (λ prefix. starts_with prefix name) config.interface_prefix

abbrev pub decl_str_if : Bool → Decl → Result (Option DeclStr)
decl_str_if false decl = ok none
decl_str_if true decl = decl_str_of decl >>= λ d. ok (some d)

-- `properties`
unfoldable pub properties : Collection → Decl → GccLocation → GccLocation → Result FnMeta
properties config decl l_loc r_loc = do
  init ← decl_in_section decl (codes ".init.text")
  file ← relpath_of config decl
  signature ← decl_sig config decl
  decl_str ← decl_str_if (is_candidate config) decl
  ok (record {
    name = decl.name;
    init = init;
    file = file;
    l_brace_loc = position_of l_loc;
    r_brace_loc = position_of r_loc;
    name_loc = position_of decl.location;
    external = decl.external;
    public = decl.public;
    static = decl.static;
    inline = decl.inline || has_attribute (codes "always_inline") decl;
    weak = decl_is_weak decl;
    signature = signature;
    decl_str = decl_str;
  })

-- `self.fn_prop` and `self.intf_prop`
pub record Collected : Type 0 where
  pub fn_prop : List FnMeta
  pub intf_prop : List Sym

abbrev pub nothing_collected : Collected
nothing_collected = record { fn_prop = []; intf_prop = [] }

abbrev pub add_fn : Collection → FnMeta → Collected → Collected
add_fn config fn collected = record {
  fn_prop = collected.fn_prop ++ fn ∷ [];
  intf_prop =
      if is_candidate config
        && (member config.src_f config.mod_srcs && is_interface_name config fn.name)
      then collected.intf_prop ++ fn.signature ∷ []
      else collected.intf_prop;
}

-- the body of the loop; the nodes stand for their declarations
unfoldable pub collect_node : Collection → Decl → Collected → Result Collected
collect_node config decl collected =
    if not decl.is_global then ok collected else elim (decl.function) [
      | none ↦ ok collected
      | some (l_loc, r_loc) ↦
          properties config decl l_loc r_loc >>= λ fn. ok (add_fn config fn collected)
    ]

unfoldable pub collect_fn : Collection → List Decl → Collected → Result Collected
collect_fn config [] collected = ok collected
collect_fn config (decl ∷ nodes) collected = do
  collected' ← collect_node config decl collected
  collect_fn config nodes collected'
