-- ===== src/Extract/Functions.antt =====
-- `function_extract` of boundary/extract.py: the bodies of the outsiders are taken out of the file,
-- and the border functions are marked.
pub mod Removal
use plugsched.Common.{
  ℕ, zero, suc, ◌-◌, Bool, true, false, List, [], ◌∷◌, ◌++◌, if◌then◌else◌, any, take,
}
use plugsched.Common.Sets.{member}
use plugsched.Common.Text.{Text, codes, starts_with, replace}
use plugsched.Common.Errors.{Result, ok, ◌>>=◌}
use plugsched.Analyze.Meta.{Sym, sym_eq, DeclStr, FnMeta}
use plugsched.Analyze.Emit.{as_decl}
use plugsched.Extract.Lines.{get_line, set_line, merge_up_lines}
use plugsched.Extract.Locate.{Located}

-- `for x in xs: edit(x, lines)`
unfoldable pub edit_all {ℓ} :
    {X : Type ℓ} → (X → List Text → Result (List Text)) → List X → List Text → Result (List Text)
edit_all edit [] lines = ok lines
edit_all edit (x ∷ xs) lines = do lines' ← edit x lines; edit_all edit xs lines'

-- `lines[i] = line`
abbrev pub put_line : ℕ → Text → List Text → Result (List Text)
put_line i line lines = get_line lines i >>= λ _. ok (set_line i line lines)

-- `lines[i] += text`
abbrev pub append_line : ℕ → Text → List Text → Result (List Text)
append_line i text lines = get_line lines i >>= λ line. ok (set_line i (line ++ text) lines)

-- `lines[i] = lines[i].replace(old, new)`
abbrev pub replace_line : ℕ → Text → Text → List Text → Result (List Text)
replace_line i old new lines =
    get_line lines i >>= λ line. ok (set_line i (replace old new line) lines)

-- `for i in range(row, row + n): lines[i] = ''`
unfoldable pub clear_lines : ℕ → ℕ → List Text → Result (List Text)
clear_lines row zero lines = ok lines
clear_lines row (suc n) lines = do lines' ← put_line row [] lines; clear_lines (suc row) n lines'

-- the three warnings and the declaration
unfoldable pub warn : Text → Text
warn name = codes "/* DON'T MODIFY INLINE EXTERNAL FUNCTION " ++ (name ++ codes " */\n")

unfoldable pub cb_warn : Text → Text
cb_warn name = codes "/* DON'T MODIFY SIGNATURE OF CALLBACK FUNCTION " ++ (name ++ codes " */\n")

unfoldable pub if_warn : Text → Text
if_warn name = codes "/* DON'T MODIFY SIGNATURE OF INTERFACE FUNCTION " ++ (name ++ codes " */\n")

unfoldable pub declare : DeclStr → Text
declare d =
    codes "extern " ++ (d.ret ++ (codes " " ++ (d.fn ++ (codes "(" ++ (d.params ++ codes ");\n")))))

-- the `else` branch for an outsider: its body becomes ";"
unfoldable pub remove_body : FnMeta → List Text → Result (List Text)
remove_body fn lines = do
  line ← get_line lines fn.l_brace_loc.0
  let cut = take fn.l_brace_loc.1 line ++ codes ";\n"
  r ← merge_up_lines (set_line fn.l_brace_loc.0 cut lines) fn.l_brace_loc.0
  clear_lines (suc fn.l_brace_loc.0) (fn.r_brace_loc.0 - fn.l_brace_loc.0) r.1

-- the body of the first loop
unfoldable pub edit_outsider : List Sym → FnMeta → List Text → Result (List Text)
edit_outsider outsider_opt fn lines =
    if member fn.signature outsider_opt
    then append_line fn.r_brace_loc.0 (warn fn.name) lines
    else remove_body fn lines

-- the body of the second loop
unfoldable pub edit_callback : FnMeta → List Text → Result (List Text)
edit_callback fn lines = do
  let new_name = codes "__cb_" ++ fn.name
  lines' ← replace_line fn.name_loc.0 fn.name (codes "__used " ++ new_name) lines
  line ← get_line lines' fn.r_brace_loc.0
  d ← as_decl fn.decl_str
  ok (set_line fn.r_brace_loc.0 (line ++ (codes "\n" ++ (cb_warn new_name ++ declare d))) lines')

-- the body of the third loop
unfoldable pub edit_interface : List Text → FnMeta → List Text → Result (List Text)
edit_interface interface_prefix fn lines =
    if any (λ prefix. starts_with prefix fn.name) interface_prefix
    then ok lines
    else (if fn.public
        then ok lines
        else replace_line fn.name_loc.0 fn.name (codes "__used " ++ fn.name) lines)
      >>= λ lines'. append_line fn.r_brace_loc.0 (if_warn fn.name) lines'

unfoldable pub function_extract : List Sym → List Text → Located → List Text → Result (List Text)
function_extract outsider_opt interface_prefix located lines = do
  a ← edit_all (edit_outsider outsider_opt) located.fn_list lines
  b ← edit_all edit_callback located.callback_list a
  edit_all (edit_interface interface_prefix) (located.interface_list ++ located.sidecar_list) b
