-- ===== src/Analyze/Emit/Laws.antt =====
-- What the emitted headers hold.
use plugsched.Common.{
  true, false, not, Option, none, some, List, [], ◌∷◌, ◌≡◌, ◌≢◌, inl, inr, arith, Bool-cases,
  Option-cases, sym, ◌∙◌, if◌then◌else◌,
}
use plugsched.Common.Sets.{member, add, IsDistinct}
use plugsched.Common.Sets.Laws.{member-nil, member-cons, member-cons_self, member-add}
use plugsched.Common.Text.{Text, text_eq}
use plugsched.Common.Dict.{Dict, lookup, get_item}
use plugsched.Common.Errors.{ok, assert, assert-eq-true, >>=-eq-ok}
use plugsched.Analyze.Meta.{Sym, sym_eq, DeclStr}
use plugsched.Analyze.Emit.{format_decl, as_decl, is_local, decl_strs_from, get_func_decl_strs}
use mathlib.Core.List.{Memᴰ}
use mathlib.Core.List.Memᴰ

module _ (global_fn_dict : Dict Text Text) (decls : Dict Sym (Option DeclStr)) (head : Text) where
  -- the names of the functions that are not the linked ones of their names
  abbrev local_names : List Sym → List Text
  local_names [] = []
  local_names (fn ∷ fns) =
      let rest = local_names fns in if is_local global_fn_dict fn then fn.0 ∷ rest else rest

  -- the line of a function is among the lines
  abbrev pub HasLine : List Text → Sym → Type 0
  HasLine lines fn =
      (d : DeclStr) × (lookup fn decls ≡ some (some d)) × (member (format_decl head d) lines ≡ true)

  get_item-eq-ok :
      (fn : Sym) (o : Option DeclStr) → get_item fn decls ≡ ok o → lookup fn decls ≡ some o
  unfolding get_item
  get_item-eq-ok fn o h = ground arith

  as_decl-eq-ok : (o : Option DeclStr) (d : DeclStr) → as_decl o ≡ ok d → o ≡ some d
  as_decl-eq-ok none d h = absurd (cc)
  as_decl-eq-ok (some e) d h = ground arith

  -- one round of the loop
  decl_strs_step :
      (fn : Sym) (fns : List Sym) (strs locals : List Text) (r : List Text)
      → decl_strs_from global_fn_dict decls head (fn ∷ fns) strs locals ≡ ok r
      → (d : DeclStr) × (lookup fn decls ≡ some (some d))
        × ((if is_local global_fn_dict fn then not (member fn.0 locals) else true) ≡ true)
        × (decl_strs_from global_fn_dict decls head fns
              (add (format_decl head d) strs)
              (if is_local global_fn_dict fn then add fn.0 locals else locals)
            ≡ ok r)
  unfolding decl_strs_from
  decl_strs_step fn fns strs locals r h =
      let (o, found, h₁) = >>=-eq-ok (get_item fn decls) _ h in
      let (d, decl, h₂) = >>=-eq-ok (as_decl o) _ h₁ in
      let (_, fresh, h₃) =
        >>=-eq-ok (assert (if is_local global_fn_dict fn then not (member fn.0 locals) else true)) _
          h₂ in
      let looked = get_item-eq-ok fn o found in
      let shape = as_decl-eq-ok o d decl in (d, cc, assert-eq-true _ fresh, h₃)

  decl_strs_lines :
      (fns : List Sym) (strs locals r : List Text)
      → decl_strs_from global_fn_dict decls head fns strs locals ≡ ok r
      → ((s : Text) → member s strs ≡ true → member s r ≡ true)
        × ((fn : Sym) → Memᴰ fn fns → HasLine r fn)
        × ((name : Text) → member name locals ≡ true → member name (local_names fns) ≡ false)
        × IsDistinct (local_names fns)
  unfolding decl_strs_from
  decl_strs_lines [] strs locals r h =
      (λ s m. ground arith, λ fn m. absurd (Memᴰ.not-nil m), λ name m. member-nil name, tt)
  decl_strs_lines (fn ∷ fns) strs locals r h =
      let (d, found, fresh, rest) = decl_strs_step fn fns strs locals r h in
      let locals' = if is_local global_fn_dict fn then add fn.0 locals else locals in
      let (keeps, lines, apart, distinct) =
        decl_strs_lines fns (add (format_decl head d) strs) locals' r rest in
      let line = format_decl head d in
      (
        λ s m. keeps s (ground (arith, member-add s line strs)),
        λ g m. elim (Memᴰ.cases_cons m) [
          | inl same ↦ rw same (
            d,
            found,
            keeps line (ground (arith, member-add line line strs, text_eq.beq_iff line line)),
          )
          | inr later ↦ lines g later
        ],
        λ name m. elim (Bool-cases (is_local global_fn_dict fn)) [
          | inl locally ↦ rw locally (
              ground (
                arith,
                member-cons name fn.0 (local_names fns),
                apart name,
                member-add name fn.0 locals,
                text_eq.beq_iff name fn.0,
              ))
          | inr linked ↦ rw linked (apart name (rw linked m))
        ],
        elim (Bool-cases (is_local global_fn_dict fn)) [
          | inl locally ↦ rw locally (
            apart fn.0 (ground (arith, member-add fn.0 fn.0 locals, text_eq.beq_iff fn.0 fn.0)),
            distinct,
          )
          | inr linked ↦ rw linked distinct
        ],
      )

is_local-eq-false :
    (global_fn_dict : Dict Text Text) (fn : Sym)
    → is_local global_fn_dict fn ≡ false
    → lookup fn.0 global_fn_dict ≡ some fn.1
unfolding is_local
is_local-eq-false global_fn_dict (name, file) h = elim (Option-cases (lookup name global_fn_dict)) [
  | inl missing ↦ absurd (ground arith)
  | inr (linked, found) ↦ ground (arith, text_eq.beq_iff file linked)
]

is_local-eq-true :
    (global_fn_dict : Dict Text Text) (fn : Sym)
    → lookup fn.0 global_fn_dict ≢ some fn.1
    → is_local global_fn_dict fn ≡ true
is_local-eq-true global_fn_dict fn apart = elim (Bool-cases (is_local global_fn_dict fn)) [
  | inl locally ↦ locally
  | inr linked ↦ absurd (apart (is_local-eq-false global_fn_dict fn linked))
]

module _ (global_fn_dict : Dict Text Text) (decls : Dict Sym (Option DeclStr)) (head : Text) where
  member-local_names :
      (fns : List Sym) (fn : Sym)
      → Memᴰ fn fns
      → is_local global_fn_dict fn ≡ true
      → member fn.0 (local_names global_fn_dict decls head fns) ≡ true
  member-local_names [] fn m locally = absurd (Memᴰ.not-nil m)
  member-local_names (g ∷ fns) fn m locally =
      let rest = local_names global_fn_dict decls head fns in
      elim (Memᴰ.cases_cons m) [
        | inl same ↦ rw (← same, locally) (member-cons_self fn.0 rest)
        | inr later ↦
            let found = member-local_names fns fn later locally in
            elim (Bool-cases (is_local global_fn_dict g)) [
              | inl here ↦ rw here (ground (arith, member-cons fn.0 g.0 rest))
              | inr linked ↦ rw linked found
            ]
      ]

  local_names-injective :
      (fns : List Sym) (fn g : Sym)
      → IsDistinct (local_names global_fn_dict decls head fns)
      → Memᴰ fn fns
      → Memᴰ g fns
      → is_local global_fn_dict fn ≡ true
      → is_local global_fn_dict g ≡ true
      → fn.0 ≡ g.0
      → fn ≡ g
  local_names-injective [] fn g distinct m n locally locally' same = absurd (Memᴰ.not-nil m)
  local_names-injective (f ∷ fns) fn g distinct m n locally locally' same =
      let rest = local_names global_fn_dict decls head fns in
      elim (Memᴰ.cases_cons m) [
        | inl e ↦ elim (Memᴰ.cases_cons n) [
          | inl e' ↦ e ∙ sym e'
          | inr later ↦
              let (apart, _) = rw (← e, locally) at distinct in
              let found = member-local_names fns g later locally' in
              absurd (cc (apart, found, same))
        ]
        | inr m' ↦ elim (Memᴰ.cases_cons n) [
          | inl e ↦
              let (apart, _) = rw (← e, locally') at distinct in
              let found = member-local_names fns fn m' locally in absurd (cc (apart, found, same))
          | inr n' ↦ elim (Bool-cases (is_local global_fn_dict f)) [
            | inl here ↦
                let (_, later) = rw here at distinct in
                local_names-injective fns fn g later m' n' locally locally' same
            | inr linked ↦
                local_names-injective fns fn g (rw linked at distinct) m' n' locally locally' same
          ]
        ]
      ]

-- Where the declarations are made without an error, every function gets its line; and two functions
-- of the same name, neither in the file that is linked under it, are one and the same, since only the
-- name appears in the line.
pub get_func_decl_strs_lines :
    (global_fn_dict : Dict Text Text) (decls : Dict Sym (Option DeclStr)) (signatures : List Sym)
    (head : Text) (lines : List Text)
    → get_func_decl_strs global_fn_dict decls signatures head ≡ ok lines
    → ((fn : Sym) → Memᴰ fn signatures → HasLine global_fn_dict decls head lines fn)
      × ((fn g : Sym)
          → Memᴰ fn signatures
          → Memᴰ g signatures
          → fn.0 ≡ g.0
          → lookup fn.0 global_fn_dict ≢ some fn.1
          → lookup g.0 global_fn_dict ≢ some g.1
          → fn ≡ g)
unfolding get_func_decl_strs
get_func_decl_strs_lines global_fn_dict decls signatures head lines h =
    let (_, found, _, distinct) =
      decl_strs_lines global_fn_dict decls head signatures [] [] lines h in
    (
      found,
      λ fn g m n same unlinked unlinked'.
          local_names-injective global_fn_dict decls head signatures fn g distinct m n
            (is_local-eq-true global_fn_dict fn unlinked)
            (is_local-eq-true global_fn_dict g unlinked') same,
    )
