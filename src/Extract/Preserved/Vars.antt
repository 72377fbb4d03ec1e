-- ===== src/Extract/Preserved/Vars.antt =====
-- `var_extract` keeps the number of lines.
use plugsched.Common.{
  ℕ, zero, suc, Option, none, some, List, [], ◌∷◌, ◌++◌, ◌≡◌, ◌∙◌, sym, ap, refl, arith, length,
  Option-cases, inl, inr, ◌-◌,
}
use plugsched.Common.Text.{Text, codes}
use plugsched.Common.Errors.{ok, >>=-eq-ok, ok-injective}
use plugsched.Extract.Lines.{get_elem?, get_line, set_line, strip}
use plugsched.Extract.Lines.Access.{length-set_line}
use plugsched.Extract.Locate.{VarMeta, VarLists}
use plugsched.Extract.Functions.{edit_all, put_line, clear_lines}
use plugsched.Extract.Vars.{
  merge_var, merge_down_var, mark_static, finish_share, share_var, share_vars, delete_definition,
  declare_var, declare_macro, declare_vars, var_extract, as_text,
}
use plugsched.Extract.Preserved.{
  KeepsLength, edit_all-KeepsLength, put_line-KeepsLength, replace_line-KeepsLength,
  clear_lines-KeepsLength,
}

merge_var-length :
    (fuel curr : ℕ) (merged : Text) (lines : List Text) (r : ℕ × Text × List Text)
    → merge_var fuel curr merged lines ≡ ok r
    → length r.2 ≡ length lines
unfolding merge_var
merge_var-length zero curr merged lines r h = absurd (cc)
merge_var-length (suc fuel) curr merged lines r h = elim (Option-cases (get_elem? lines curr)) [
  | inl outside ↦ ground arith
  | inr (line, e) ↦ ground (
    arith,
    merge_var-length fuel (suc curr) (merged ++ strip line ++ codes " ") (set_line curr [] lines) r,
    length-set_line curr [] lines,
  )
]

merge_down_var-length :
    (lines : List Text) (start : ℕ) (r : ℕ × List Text)
    → merge_down_var lines start ≡ ok r
    → length r.1 ≡ length lines
unfolding merge_down_var
merge_down_var-length lines start r h =
    let (t, e, h₁) = >>=-eq-ok (merge_var (suc (length lines)) start [] lines) _ h in
    let (last, _, h₂) = >>=-eq-ok (get_line t.2 t.0) _ h₁ in
    let (lines', e', h₃) = >>=-eq-ok (put_line start (t.1 ++ last) (set_line t.0 [] t.2)) _ h₂ in
    ap (λ (r : ℕ × List Text). length r.1) (sym (ok-injective _ r h₃))
    ∙ put_line-KeepsLength start (t.1 ++ last) (set_line t.0 [] t.2) lines' e'
    ∙ length-set_line t.0 [] t.2
    ∙ merge_var-length (suc (length lines)) start [] lines t e

finish_share-length :
    (var : VarMeta) (o : Option Text) (shared : List VarMeta) (lines : List Text)
    → length (finish_share var o shared lines).0 ≡ length lines
finish_share-length var none shared lines = refl
finish_share-length var (some line) shared lines = length-set_line var.decl_start_line line lines

share_var-length :
    (var : VarMeta) (lines : List Text) (shared : List VarMeta) (r : List Text × List VarMeta)
    → share_var var (lines, shared) ≡ ok r
    → length r.0 ≡ length lines
unfolding share_var
share_var-length var lines shared r h =
    let (a, e, h₁) =
      >>=-eq-ok
        (clear_lines (suc var.decl_start_line) (var.name_loc.0 - suc var.decl_start_line) lines) _
        h in
    let (b, e', h₂) = >>=-eq-ok (merge_down_var a var.decl_start_line) _ h₁ in
    let (line, _, h₃) = >>=-eq-ok (get_line b.1 var.decl_start_line) _ h₂ in
    ap (λ (r : List Text × List VarMeta). length r.0) (sym (ok-injective _ r h₃))
    ∙ finish_share-length var (declare_macro line) shared b.1
    ∙ merge_down_var-length a var.decl_start_line b e'
    ∙ clear_lines-KeepsLength (suc var.decl_start_line) _ lines a e

share_vars-length :
    (vars : List VarMeta) (state r : List Text × List VarMeta)
    → share_vars vars state ≡ ok r
    → length r.0 ≡ length state.0
unfolding share_vars
share_vars-length [] state r h =
    ap (λ (r : List Text × List VarMeta). length r.0) (sym (ok-injective state r h))
share_vars-length (var ∷ vars) (lines, shared) r h =
    let (mid, first, rest) = >>=-eq-ok (share_var var (lines, shared)) _ h in
    share_vars-length vars mid r rest ∙ share_var-length var lines shared mid first

delete_definition-KeepsLength : (var : VarMeta) → KeepsLength (delete_definition var)
unfolding delete_definition
delete_definition-KeepsLength var = put_line-KeepsLength var.decl_start_line []

mark_static-KeepsLength : (var : VarMeta) → KeepsLength (mark_static var)
unfolding mark_static
mark_static-KeepsLength var = replace_line-KeepsLength var.name_loc.0 _ _

declare_var-KeepsLength : (var : VarMeta) → KeepsLength (declare_var var)
unfolding declare_var
declare_var-KeepsLength var lines lines' h =
    let (line, _, h₁) = >>=-eq-ok (get_line lines var.decl_start_line) _ h in
    let (decl_str, _, h₂) = >>=-eq-ok (as_text var.decl_str) _ h₁ in
    ap length (sym (ok-injective _ lines' h₂)) ∙ length-set_line var.decl_start_line _ lines

declare_vars-KeepsLength : (vars : List VarMeta) → KeepsLength (declare_vars vars)
unfolding declare_vars
declare_vars-KeepsLength vars lines lines' h =
    let (mid, e, h₁) = >>=-eq-ok (edit_all delete_definition vars lines) _ h in
    edit_all-KeepsLength declare_var declare_var-KeepsLength vars mid lines' h₁
    ∙ edit_all-KeepsLength delete_definition delete_definition-KeepsLength vars lines mid e

pub var_extract-KeepsLength : (vars : VarLists) → KeepsLength (var_extract vars)
unfolding var_extract
var_extract-KeepsLength vars lines lines' h =
    let (a, e, h₁) = >>=-eq-ok (edit_all mark_static vars.static_var_list lines) _ h in
    let (b, e', h₂) = >>=-eq-ok (share_vars vars.shared_var_list (a, vars.shared_var_list)) _ h₁ in
    declare_vars-KeepsLength b.1 b.0 lines' h₂
    ∙ share_vars-length vars.shared_var_list (a, vars.shared_var_list) b e'
    ∙ edit_all-KeepsLength mark_static mark_static-KeepsLength vars.static_var_list lines a e
