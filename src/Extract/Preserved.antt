-- ===== src/Extract/Preserved.antt =====
-- No pass over the lines adds or removes one, so the rows of the metadata stay right throughout.
pub mod Vars
pub mod File
use plugsched.Common.{
  ℕ, zero, suc, Bool, true, false, Option, none, some, List, [], ◌∷◌, ◌++◌, ◌≡◌, ◌∙◌, sym, ap, refl,
  inl, inr, arith, length, any, Bool-cases, Option-cases, if◌then◌else◌,
}
use plugsched.Common.Text.{Text, codes, starts_with, replace}
use plugsched.Common.Sets.{member}
use plugsched.Common.Errors.{Result, ok, err, ◌>>=◌, >>=-eq-ok, ok-injective}
use plugsched.Analyze.Meta.{Sym, sym_eq, FnMeta}
use plugsched.Analyze.Emit.{as_decl}
use plugsched.Extract.Lines.{
  set_line, strip, terminator, merge_up, merge_up_lines, merge_down, merge_down_fn, get_line,
}
use plugsched.Extract.Lines.Access.{length-set_line}
use plugsched.Extract.Locate.{Located, VarMeta, VarLists}
use plugsched.Extract.Functions.{
  edit_all, clear_lines, remove_body, edit_outsider, edit_callback, edit_interface,
  function_extract, put_line, append_line, replace_line, warn, if_warn,
}
use plugsched.Extract.Vars.{
  merge_var, merge_down_var, mark_static, finish_share, share_var, share_vars, delete_definition,
  declare_var, var_extract,
}
use plugsched.Extract.Fixes.{Extraction, swallow, fix_line, fix_lines, fix_up, extract_file}

-- a pass that keeps the number of lines
abbrev pub KeepsLength : (List Text → Result (List Text)) → Type 0
KeepsLength edit =
    (lines lines' : List Text) → edit lines ≡ ok lines' → length lines' ≡ length lines

pub edit_all-KeepsLength {ℓ} :
    {X : Type ℓ} (edit : X → List Text → Result (List Text))
    → ((x : X) → KeepsLength (edit x))
    → (xs : List X) → KeepsLength (edit_all edit xs)
unfolding edit_all
edit_all-KeepsLength edit keeps [] lines lines' h = ap length (sym (ok-injective lines lines' h))
edit_all-KeepsLength edit keeps (x ∷ xs) lines lines' h =
    let (mid, first, rest) = >>=-eq-ok (edit x lines) _ h in
    edit_all-KeepsLength edit keeps xs mid lines' rest ∙ keeps x lines mid first

pub put_line-KeepsLength : (i : ℕ) (line : Text) → KeepsLength (put_line i line)
put_line-KeepsLength i line lines lines' h =
    let (_, _, e) = >>=-eq-ok (get_line lines i) _ h in
    ap length (sym (ok-injective _ lines' e)) ∙ length-set_line i line lines

pub append_line-KeepsLength : (i : ℕ) (text : Text) → KeepsLength (append_line i text)
append_line-KeepsLength i text lines lines' h =
    let (line, _, e) = >>=-eq-ok (get_line lines i) _ h in
    ap length (sym (ok-injective _ lines' e)) ∙ length-set_line i (line ++ text) lines

pub replace_line-KeepsLength : (i : ℕ) (old new : Text) → KeepsLength (replace_line i old new)
replace_line-KeepsLength i old new lines lines' h =
    let (line, _, e) = >>=-eq-ok (get_line lines i) _ h in
    ap length (sym (ok-injective _ lines' e)) ∙ length-set_line i (replace old new line) lines

pub clear_lines-KeepsLength : (row n : ℕ) → KeepsLength (clear_lines row n)
unfolding clear_lines
clear_lines-KeepsLength row zero lines lines' h = ap length (sym (ok-injective lines lines' h))
clear_lines-KeepsLength row (suc n) lines lines' h =
    let (mid, first, rest) = >>=-eq-ok (put_line row [] lines) _ h in
    clear_lines-KeepsLength (suc row) n mid lines' rest
    ∙ put_line-KeepsLength row [] lines mid first

merge_up-length :
    (curr : ℕ) (merged : Text) (lines : List Text) (r : ℕ × Text × List Text)
    → merge_up curr merged lines ≡ ok r
    → length r.2 ≡ length lines
unfolding merge_up
merge_up-length zero merged lines r h =
    ap (λ (r : ℕ × Text × List Text). length r.2) (sym (ok-injective _ r h))
merge_up-length (suc curr) merged lines r h =
    let (line, found, rest) = >>=-eq-ok (get_line lines curr) _ h in
    ground (
      arith,
      merge_up-length curr (strip line ++ codes " " ++ merged) (set_line (suc curr) [] lines) r,
      length-set_line (suc curr) [] lines,
    )

merge_up_lines-length :
    (lines : List Text) (curr : ℕ) (r : ℕ × List Text)
    → merge_up_lines lines curr ≡ ok r
    → length r.1 ≡ length lines
unfolding merge_up_lines
merge_up_lines-length lines curr r h =
    let (line, _, h₁) = >>=-eq-ok (get_line lines curr) _ h in
    let (t, e, h₂) = >>=-eq-ok (merge_up curr (strip line) lines) _ h₁ in
    ap (λ (r : ℕ × List Text). length r.1) (sym (ok-injective _ r h₂))
    ∙ length-set_line t.0 _ t.2
    ∙ merge_up-length curr (strip line) lines t e

remove_body-KeepsLength : (fn : FnMeta) → KeepsLength (remove_body fn)
unfolding remove_body
remove_body-KeepsLength fn lines lines' h =
    let (line, _, h₁) = >>=-eq-ok (get_line lines fn.l_brace_loc.0) _ h in
    let (r, e, h₂) = >>=-eq-ok (merge_up_lines _ fn.l_brace_loc.0) _ h₁ in
    clear_lines-KeepsLength (suc fn.l_brace_loc.0) _ r.1 lines' h₂
    ∙ merge_up_lines-length _ fn.l_brace_loc.0 r e
    ∙ length-set_line fn.l_brace_loc.0 _ lines

edit_outsider-KeepsLength :
    (outsider_opt : List Sym) (fn : FnMeta) → KeepsLength (edit_outsider outsider_opt fn)
unfolding edit_outsider
edit_outsider-KeepsLength outsider_opt fn lines lines' h =
    elim (Bool-cases (member fn.signature outsider_opt)) [
      | inl kept ↦
          append_line-KeepsLength fn.r_brace_loc.0 (warn fn.name) lines lines' (rw kept at h)
      | inr removed ↦ remove_body-KeepsLength fn lines lines' (rw removed at h)
    ]

edit_callback-KeepsLength : (fn : FnMeta) → KeepsLength (edit_callback fn)
unfolding edit_callback
edit_callback-KeepsLength fn lines lines' h =
    let (mid, first, h₁) = >>=-eq-ok (replace_line fn.name_loc.0 fn.name _ lines) _ h in
    let (line, _, h₂) = >>=-eq-ok (get_line mid fn.r_brace_loc.0) _ h₁ in
    let (d, _, h₃) = >>=-eq-ok (as_decl fn.decl_str) _ h₂ in
    ap length (sym (ok-injective _ lines' h₃))
    ∙ length-set_line fn.r_brace_loc.0 _ mid
    ∙ replace_line-KeepsLength fn.name_loc.0 fn.name _ lines mid first

edit_interface-KeepsLength :
    (interface_prefix : List Text) (fn : FnMeta) → KeepsLength (edit_interface interface_prefix fn)
unfolding edit_interface
edit_interface-KeepsLength interface_prefix fn lines lines' h =
    elim (Bool-cases (any (λ prefix. starts_with prefix fn.name) interface_prefix)) [
      | inl syscall ↦ ap length (sym (ok-injective lines lines' (rw syscall at h)))
      | inr other ↦ marked (rw other at h)
    ]
  where
    marked :
        ((if fn.public
              then ok lines
              else replace_line fn.name_loc.0 fn.name (codes "__used " ++ fn.name) lines)
            >>= λ m. append_line fn.r_brace_loc.0 (if_warn fn.name) m)
          ≡ ok lines'
        → length lines' ≡ length lines
    marked h =
        let (mid, first, rest) =
          >>=-eq-ok
            (if fn.public
              then ok lines
              else replace_line fn.name_loc.0 fn.name (codes "__used " ++ fn.name) lines)
            _ h in
        append_line-KeepsLength fn.r_brace_loc.0 (if_warn fn.name) mid lines' rest
        ∙ elim (Bool-cases fn.public) [
          | inl public ↦ ap length (sym (ok-injective lines mid (rw public at first)))
          | inr local ↦
              replace_line-KeepsLength fn.name_loc.0 fn.name _ lines mid (rw local at first)
        ]

pub function_extract-KeepsLength :
    (outsider_opt : List Sym) (interface_prefix : List Text) (located : Located)
    → KeepsLength (function_extract outsider_opt interface_prefix located)
unfolding function_extract
function_extract-KeepsLength outsider_opt interface_prefix located lines lines' h =
    let (a, first, h₁) =
      >>=-eq-ok (edit_all (edit_outsider outsider_opt) located.fn_list lines) _ h in
    let (b, second, third) = >>=-eq-ok (edit_all edit_callback located.callback_list a) _ h₁ in
    edit_all-KeepsLength (edit_interface interface_prefix)
      (edit_interface-KeepsLength interface_prefix) _ b lines' third
    ∙ edit_all-KeepsLength edit_callback edit_callback-KeepsLength _ a b second
    ∙ edit_all-KeepsLength (edit_outsider outsider_opt) (edit_outsider-KeepsLength outsider_opt) _
        lines a first
