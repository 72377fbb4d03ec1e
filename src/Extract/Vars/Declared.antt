-- ===== src/Extract/Vars/Declared.antt =====
-- The definitions of the shared variables are replaced by their declarations.
use plugsched.Common.{
  ℕ, Bool, true, false, Option, none, some, List, [], ◌∷◌, ◌++◌, ◌||◌, ◌==◌, nat_eq, any, ◌≡◌, ◌∙◌,
  refl, sym, ap, arith, inl, inr, if◌then◌else◌, Bool-cases, Option-cases, append-nil,
}
use mathlib.Core.List.{append_assoc}
use plugsched.Common.Text.{Text, codes}
use plugsched.Common.Errors.{ok, >>=-eq-ok, ok-injective}
use plugsched.Extract.Lines.{get_elem?, or_index_error, get_line, set_line}
use plugsched.Extract.Lines.Access.{
  get_elem?-set_line_self, get_elem?-set_line_other, lt_of_get_elem?,
}
use plugsched.Extract.Locate.{VarMeta}
use plugsched.Extract.Functions.{edit_all}
use plugsched.Extract.Vars.{delete_definition, as_text, declare_var, declare_vars}

-- whether the definition of a variable starts at the row
abbrev pub starts_at : ℕ → VarMeta → Bool
starts_at row var = var.decl_start_line == row

abbrev pub decl_line : Option Text → Text
decl_line none = []
decl_line (some t) = t ++ codes "\n"

-- the declarations of the variables that start at the row
unfoldable pub declarations : ℕ → List VarMeta → Text
declarations row [] = []
declarations row (var ∷ vars) =
    let rest = declarations row vars in
    if starts_at row var then decl_line var.decl_str ++ rest else rest

abbrev append_to : Option Text → Text → Option Text
append_to none t = none
append_to (some line) t = some (line ++ t)

append_to-nil : (o : Option Text) → append_to o [] ≡ o
append_to-nil none = refl
append_to-nil (some line) = ap (λ l. some l) (append-nil line)

append_to-append :
    (o : Option Text) (s t : Text) → append_to (append_to o s) t ≡ append_to o (s ++ t)
append_to-append none s t = refl
append_to-append (some line) s t = ap (λ l. some l) (append_assoc line s t)

get_line_found :
    (lines : List Text) (i : ℕ) (line : Text)
    → get_line lines i ≡ ok line
    → get_elem? lines i ≡ some line
get_line_found lines i line h = elim (Option-cases (get_elem? lines i)) [
  | inl missing ↦ absurd (cc)
  | inr (l, found) ↦
      found ∙ ap (λ l. some l) (ok-injective l line (sym (ap or_index_error found) ∙ h))
]

as_text_found : (o : Option Text) (t : Text) → as_text o ≡ ok t → o ≡ some t
as_text_found none t h = absurd (cc)
as_text_found (some s) t h = ap (λ t. some t) (ok-injective s t h)

if_append : (b : Bool) (s t : Text) → (if b then s else []) ++ t ≡ (if b then s ++ t else t)
if_append true s t = refl
if_append false s t = refl

no_declarations :
    (row : ℕ) (vars : List VarMeta) → any (starts_at row) vars ≡ false → declarations row vars ≡ []
unfolding any declarations
no_declarations row [] h = refl
no_declarations row (var ∷ vars) h = ground (arith, no_declarations row vars)

set_line_at :
    (i row : ℕ) (line old : Text) (lines : List Text)
    → get_elem? lines i ≡ some old
    → get_elem? (set_line i line lines) row ≡ (if i == row then some line else get_elem? lines row)
set_line_at i row line old lines found = elim (Bool-cases (i == row)) [
  | inl same ↦
      let e : row ≡ i = ground arith in
      rw same (
        ap (get_elem? (set_line i line lines)) e
        ∙ get_elem?-set_line_self i line lines (lt_of_get_elem? i old lines found))
  | inr other ↦ rw other (get_elem?-set_line_other row i line lines (λ e. absurd (ground arith)))
]

if_twice :
    (a b : Bool) (x y : Option Text)
    → (if b then x else (if a then x else y)) ≡ (if a || b then x else y)
if_twice true true x y = refl
if_twice true false x y = refl
if_twice false true x y = refl
if_twice false false x y = refl

-- the first of the two loops
deleted :
    (row : ℕ) (vars : List VarMeta) (lines lines' : List Text)
    → edit_all delete_definition vars lines ≡ ok lines'
    → get_elem? lines' row ≡ (if any (starts_at row) vars then some [] else get_elem? lines row)
unfolding edit_all delete_definition any
deleted row [] lines lines' h = ap (λ ls. get_elem? ls row) (sym (ok-injective lines lines' h))
deleted row (var ∷ vars) lines lines' h =
    let start = var.decl_start_line in
    let (mid, e, rest) = >>=-eq-ok (delete_definition var lines) _ h in
    let (line, found, e₁) = >>=-eq-ok (get_line lines start) _ e in
    let here =
      ap (λ ls. get_elem? ls row) (sym (ok-injective _ mid e₁))
      ∙ set_line_at start row [] line lines (get_line_found lines start line found) in
    deleted row vars mid lines' rest
    ∙ ap (λ o. if any (starts_at row) vars then some [] else o) here
    ∙ if_twice (starts_at row var) (any (starts_at row) vars) (some []) (get_elem? lines row)

-- one declaration
declared_line :
    (row : ℕ) (var : VarMeta) (lines mid : List Text)
    → declare_var var lines ≡ ok mid
    → get_elem? mid row
      ≡ append_to (get_elem? lines row) (if starts_at row var then decl_line var.decl_str else [])
unfolding declare_var
declared_line row var lines mid h =
    let start = var.decl_start_line in
    let (line, found, h₁) = >>=-eq-ok (get_line lines start) _ h in
    let (t, e, h₂) = >>=-eq-ok (as_text var.decl_str) _ h₁ in
    let there = get_line_found lines start line found in
    let here =
      ap (λ ls. get_elem? ls row) (sym (ok-injective _ mid h₂))
      ∙ set_line_at start row (line ++ (t ++ codes "\n")) line lines there in
    elim (Bool-cases (starts_at row var)) [
      | inl same ↦
          let at_row : row ≡ start = ground arith in
          rw (same, ap (get_elem? lines) at_row ∙ there, as_text_found var.decl_str t e)
            (rw same at here)
      | inr other ↦ rw other (rw other at here ∙ sym (append_to-nil (get_elem? lines row)))
    ]

declared :
    (row : ℕ) (vars : List VarMeta) (lines lines' : List Text)
    → edit_all declare_var vars lines ≡ ok lines'
    → get_elem? lines' row ≡ append_to (get_elem? lines row) (declarations row vars)
unfolding edit_all declarations
declared row [] lines lines' h =
    ap (λ ls. get_elem? ls row) (sym (ok-injective lines lines' h))
    ∙ sym (append_to-nil (get_elem? lines row))
declared row (var ∷ vars) lines lines' h =
    let (mid, e, rest) = >>=-eq-ok (declare_var var lines) _ h in
    declared row vars mid lines' rest
    ∙ ap (λ o. append_to o (declarations row vars)) (declared_line row var lines mid e)
    ∙ append_to-append (get_elem? lines row)
        (if starts_at row var then decl_line var.decl_str else []) (declarations row vars)
    ∙ ap (append_to (get_elem? lines row))
        (if_append (starts_at row var) (decl_line var.decl_str) (declarations row vars))

-- When the last two loops of `var_extract` end without an error, a row at which shared variables
-- start holds the declarations of all of these, each on a line, in their order; any other row is as
-- it was.
pub declare_vars_exact :
    (vars : List VarMeta) (lines lines' : List Text)
    → declare_vars vars lines ≡ ok lines'
    → (row : ℕ)
    → get_elem? lines' row
      ≡ (if any (starts_at row) vars then some (declarations row vars) else get_elem? lines row)
unfolding declare_vars
declare_vars_exact vars lines lines' h row =
    let (mid, e, rest) = >>=-eq-ok (edit_all delete_definition vars lines) _ h in
    let cleared = deleted row vars lines mid e in
    let here = declared row vars mid lines' rest in
    elim (Bool-cases (any (starts_at row) vars)) [
      | inl some_var ↦
          rw some_var
            (here ∙ ap (λ o. append_to o (declarations row vars)) (rw some_var at cleared))
      | inr no_var ↦ rw no_var (
          here
          ∙ ap (λ t. append_to (get_elem? mid row) t) (no_declarations row vars no_var)
          ∙ append_to-nil (get_elem? mid row)
          ∙ rw no_var at cleared)
    ]
