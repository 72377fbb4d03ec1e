-- ===== src/Extract/Vars.antt =====
-- `merge_down_var` and `var_extract` of boundary/extract.py: the definitions of the variables that
-- the module shares with vmlinux become declarations.
pub mod Ends
pub mod Declared
use plugsched.Common.{
  ℕ, zero, suc, ◌-◌, ◌&&◌, Bool, true, false, Option, none, some, List, [], ◌∷◌, ◌++◌,
  if◌then◌else◌, length, ◌==◌, nat_eq, pair_eq,
}
use plugsched.Common.Text.{Text, codes, text_eq, occurs, replace}
use plugsched.Common.Errors.{Result, ok, err, recursion, type_error, ◌>>=◌}
use plugsched.Extract.Lines.{get_elem?, get_line, set_line, strip}
use plugsched.Extract.Locate.{VarMeta, VarLists}
use plugsched.Extract.Functions.{edit_all, put_line, replace_line, clear_lines}

-- the loop of `merge_down_var`; it ends at the latest below the last line
unfoldable pub merge_var : ℕ → ℕ → Text → List Text → Result (ℕ × Text × List Text)
merge_var zero curr merged lines = err recursion
merge_var (suc fuel) curr merged lines = elim (get_elem? lines curr) [
  | none ↦ ok (curr, merged, lines)
  | some line ↦
      let rest =
        merge_var fuel (suc curr) (merged ++ strip line ++ codes " ") (set_line curr [] lines) in
      if occurs (codes ";") line then ok (curr, merged, lines) else rest
]

unfoldable pub merge_down_var : List Text → ℕ → Result (ℕ × List Text)
merge_down_var lines start = do
  r ← merge_var (suc (length lines)) start [] lines
  last ← get_line r.2 r.0
  lines' ← put_line start (r.1 ++ last) (set_line r.0 [] r.2)
  ok (r.0, lines')

-- the body of the first loop
unfoldable pub mark_static : VarMeta → List Text → Result (List Text)
mark_static var lines = replace_line var.name_loc.0 (codes "static ") (codes "static __used ") lines

-- the loop over `replace_list`: the line with its macro replaced, if it has one
abbrev pub declare_as : Text → Text → Text → Text
declare_as p repl line = replace (codes "static ") [] (replace p repl line)

unfoldable pub declare_macro : Text → Option Text
declare_macro line =
    if occurs (codes "DEFINE_PER_CPU") line
    then some (declare_as (codes "DEFINE_PER_CPU") (codes "DECLARE_PER_CPU") line)
    else if occurs (codes "DEFINE_STATIC_KEY") line
    then some (declare_as (codes "DEFINE_STATIC_KEY") (codes "DECLARE_STATIC_KEY") line)
    else none

-- Whether two entries of meta['var'] are equal, as `list.remove` compares them.
abbrev pub option_beq : Option Text → Option Text → Bool
option_beq none none = true
option_beq (some s) (some t) = s == t
option_beq _ _ = false

abbrev pub bool_beq : Bool → Bool → Bool
bool_beq true b = b
bool_beq false true = false
bool_beq false false = true

unfoldable pub same_var : VarMeta → VarMeta → Bool
same_var v w =
    v.name == w.name
    && v.file == w.file
    && v.name_loc == w.name_loc
    && v.decl_start_line == w.decl_start_line
    && bool_beq v.external w.external
    && bool_beq v.public w.public
    && bool_beq v.static w.static
    && option_beq v.decl_str w.decl_str

-- `self.shared_var_list.remove(var)`
unfoldable pub remove : VarMeta → List VarMeta → List VarMeta
remove var [] = []
remove var (v ∷ vars) = let rest = v ∷ remove var vars in if same_var v var then vars else rest

-- the body of the second loop, with the lines and `shared_var_list`
abbrev pub finish_share :
    VarMeta → Option Text → List VarMeta → List Text → List Text × List VarMeta
finish_share var none shared lines = (lines, shared)
finish_share var (some line) shared lines =
    (set_line var.decl_start_line line lines, remove var shared)

unfoldable pub share_var : VarMeta → List Text × List VarMeta → Result (List Text × List VarMeta)
share_var var (lines, shared) = do
  let row_start = var.decl_start_line
  a ← clear_lines (suc row_start) (var.name_loc.0 - suc row_start) lines
  b ← merge_down_var a row_start
  line ← get_line b.1 row_start
  ok (finish_share var (declare_macro line) shared b.1)

unfoldable pub share_vars :
    List VarMeta → List Text × List VarMeta → Result (List Text × List VarMeta)
share_vars [] state = ok state
share_vars (var ∷ vars) state = do state' ← share_var var state; share_vars vars state'

-- the bodies of the last two loops
unfoldable pub delete_definition : VarMeta → List Text → Result (List Text)
delete_definition var lines = put_line var.decl_start_line [] lines

abbrev pub as_text : Option Text → Result Text
as_text none = err type_error
as_text (some t) = ok t

unfoldable pub declare_var : VarMeta → List Text → Result (List Text)
declare_var var lines = do
  line ← get_line lines var.decl_start_line
  decl_str ← as_text var.decl_str
  ok (set_line var.decl_start_line (line ++ (decl_str ++ codes "\n")) lines)

-- the last two loops
unfoldable pub declare_vars : List VarMeta → List Text → Result (List Text)
declare_vars shared lines = do
  lines' ← edit_all delete_definition shared lines
  edit_all declare_var shared lines'

unfoldable pub var_extract : VarLists → List Text → Result (List Text)
var_extract vars lines = do
  a ← edit_all mark_static vars.static_var_list lines
  b ← share_vars vars.shared_var_list (a, vars.shared_var_list)
  declare_vars b.1 b.0
