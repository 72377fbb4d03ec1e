-- ===== src/Collect/Vars.antt =====
-- `collect_var` of boundary/collect.py.
use plugsched.Common.{
  ℕ, ◌-◌, Bool, true, false, not, ◌&&◌, ◌||◌, Option, none, some, List, [], ◌∷◌, ◌++◌,
  if◌then◌else◌, ◌==◌, nat_eq,
}
use plugsched.Common.Sets.{member}
use plugsched.Common.Text.{Text, codes, text_eq, before, replace}
use plugsched.Common.Errors.{Result, ok, ◌>>=◌}
use plugsched.Common.Gather.{gather}
use plugsched.Extract.Locate.{VarMeta}
use plugsched.Collect.Gcc.{Decl, Collection, Variable}
use plugsched.Collect.Bugs.{fix, var_decl_start_loc}
use plugsched.Collect.Functions.{relpath_of, position_of}

-- `t.strip(' ;')`, from the left and from the right
abbrev pub is_padding : ℕ → Bool
is_padding c = c == b' ' || c == b';'

unfoldable pub trim_left : Text → Text
trim_left [] = []
trim_left (c ∷ t) = let rest = trim_left t in if is_padding c then rest else c ∷ t

unfoldable pub trim_right : Text → Text
trim_right [] = []
trim_right (c ∷ t) = let rest = trim_right t in if is_padding c && rest == [] then [] else c ∷ rest

-- the declaration without its initial value, as an external one
unfoldable pub extern_decl : Text → Text
extern_decl str_decl =
    replace (codes "static ") (codes "extern ")
      (trim_right (trim_left (before b'=' str_decl)) ++ codes ";")

abbrev pub var_decl_str_if : Bool → Decl → Result (Option Text)
var_decl_str_if false decl = ok none
var_decl_str_if true decl = fix decl.typ (extern_decl decl.str_decl) >>= λ s. ok (some s)

-- `properties`
unfoldable pub var_properties : Collection → Decl → Result VarMeta
var_properties config decl = do
  file ← relpath_of config decl
  decl_str ← var_decl_str_if (member decl.location.file (config.mod_srcs ++ config.sdcr_srcs)) decl
  ok (record {
    name = decl.name;
    file = file;
    name_loc = position_of decl.location;
    decl_start_line = (var_decl_start_loc decl).line - 1;
    external = decl.external;
    public = decl.public;
    static = decl.static;
    decl_str = decl_str;
  })

-- the body of the loop
unfoldable pub collect_variable : Collection → Variable → Result (List VarMeta)
collect_variable config var =
    if not var.has_location || not var.decl.is_global
    then ok []
    else (var_properties config var.decl >>= λ properties. ok (properties ∷ []))

unfoldable pub collect_var : Collection → List Variable → Result (List VarMeta)
collect_var config vars = gather (collect_variable config) vars
