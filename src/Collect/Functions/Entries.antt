-- ===== src/Collect/Functions/Entries.antt =====
-- The entries that `collect_fn` makes: one for each function of the compiled file with a body.
use plugsched.Common.{
  ℕ, ◌-◌, true, false, ◌||◌, none, some, List, [], ◌∷◌, ◌++◌, ◌≡◌, refl, sym, ◌∙◌, ap, ◌⊎◌, inl,
  inr, Bool-cases, Option-cases, append-nil,
}
use plugsched.Common.Text.{codes, text_eq}
use plugsched.Common.Errors.{ok, >>=-eq-ok, ok-injective}
use plugsched.Analyze.Meta.{FnMeta}
use plugsched.Collect.Gcc.{GccLocation, Decl, Collection}
use plugsched.Collect.Functions.{
  Collected, relpath_of, decl_sig, decl_in_section, decl_str_if, is_candidate, has_attribute,
  decl_is_weak, properties, collect_node, collect_fn,
}
use mathlib.Core.List.{append_assoc}

-- what `collect_fn` writes of a declaration whose body is from `l_loc` to `r_loc`
pub record IsEntry (config : Collection) (decl : Decl) (l_loc r_loc : GccLocation) (fn : FnMeta)
    : Type 0 where
  pub name : fn.name ≡ decl.name
  pub init : decl_in_section decl (codes ".init.text") ≡ ok fn.init
  pub file : relpath_of config decl ≡ ok fn.file
  pub signature : fn.signature ≡ (decl.name, fn.file)
  pub l_brace_loc : fn.l_brace_loc ≡ (l_loc.line - 1, l_loc.column - 1)
  pub r_brace_loc : fn.r_brace_loc ≡ (r_loc.line - 1, r_loc.column - 1)
  pub name_loc : fn.name_loc ≡ (decl.location.line - 1, decl.location.column - 1)
  pub external : fn.external ≡ decl.external
  pub public : fn.public ≡ decl.public
  pub static : fn.static ≡ decl.static
  pub inline : fn.inline ≡ (decl.inline || has_attribute (codes "always_inline") decl)
  pub weak : fn.weak ≡ (has_attribute (codes "__weak__") decl || has_attribute (codes "weak") decl)

-- The entries of the declarations, in their order: a declaration that is not global or has no body
-- has none.
pub data Entries (config : Collection) : List Decl → List FnMeta → Type 0 where
  done : Entries config [] []
  skip :
      {decl : Decl} {nodes : List Decl} {fns : List FnMeta}
      → (decl.is_global ≡ false) ⊎ (decl.function ≡ none)
      → Entries config nodes fns
      → Entries config (decl ∷ nodes) fns
  entry :
      {decl : Decl} {nodes : List Decl} {fn : FnMeta} {fns : List FnMeta}
      (l_loc r_loc : GccLocation)
      → decl.is_global ≡ true
      → decl.function ≡ some (l_loc, r_loc)
      → IsEntry config decl l_loc r_loc fn
      → Entries config nodes fns
      → Entries config (decl ∷ nodes) (fn ∷ fns)

decl_sig-eq :
    (config : Collection) (decl : Decl) (l_loc r_loc : GccLocation) {file : List ℕ}
    {signature : List ℕ × List ℕ}
    → decl.function ≡ some (l_loc, r_loc)
    → relpath_of config decl ≡ ok file
    → decl_sig config decl ≡ ok signature
    → signature ≡ (decl.name, file)
unfolding decl_sig relpath_of
decl_sig-eq config decl l_loc r_loc body file h = sym (ok-injective _ _ (rw (body, file) at h))

properties-IsEntry :
    (config : Collection) (decl : Decl) (l_loc r_loc : GccLocation) (fn : FnMeta)
    → decl.function ≡ some (l_loc, r_loc)
    → properties config decl l_loc r_loc ≡ ok fn
    → IsEntry config decl l_loc r_loc fn
unfolding properties decl_is_weak
properties-IsEntry config decl l_loc r_loc fn body h =
    let (init, e₁, h₁) = >>=-eq-ok (decl_in_section decl (codes ".init.text")) _ h in
    let (file, e₂, h₂) = >>=-eq-ok (relpath_of config decl) _ h₁ in
    let (signature, e₃, h₃) = >>=-eq-ok (decl_sig config decl) _ h₂ in
    let (_, _, h₄) = >>=-eq-ok (decl_str_if (is_candidate config) decl) _ h₃ in
    rw (← ok-injective _ fn h₄) (record {
      name = refl;
      init = e₁;
      file = e₂;
      signature = decl_sig-eq config decl l_loc r_loc body e₂ e₃;
      l_brace_loc = refl;
      r_brace_loc = refl;
      name_loc = refl;
      external = refl;
      public = refl;
      static = refl;
      inline = refl;
      weak = refl;
    })

-- one round of the loop
collect_node-Entries :
    (config : Collection) (decl : Decl) (nodes : List Decl) (fns : List FnMeta)
    (collected next : Collected)
    → collect_node config decl collected ≡ ok next
    → Entries config nodes fns
    → (added : List FnMeta) × (next.fn_prop ++ fns ≡ collected.fn_prop ++ added)
      × Entries config (decl ∷ nodes) added
unfolding collect_node
collect_node-Entries config decl nodes fns collected next e rest =
    elim (Bool-cases decl.is_global) [
      | inr local ↦
          let same = ok-injective collected next (rw local at e) in
          (fns, ap (λ (c : Collected). c.fn_prop ++ fns) (sym same), skip (inl local) rest)
      | inl global ↦ elim (Option-cases decl.function) [
        | inl alias ↦
            let same = ok-injective collected next (rw (global, alias) at e) in
            (fns, ap (λ (c : Collected). c.fn_prop ++ fns) (sym same), skip (inr alias) rest)
        | inr ((l_loc, r_loc), body) ↦
            let (fn, p, e₁) =
              >>=-eq-ok (properties config decl l_loc r_loc) _ (rw (global, body) at e) in
            let same = ok-injective _ next e₁ in
            let own = properties-IsEntry config decl l_loc r_loc fn body p in
            (
              fn ∷ fns,
              ap (λ (c : Collected). c.fn_prop ++ fns) (sym same)
                  ∙ append_assoc collected.fn_prop (fn ∷ []) fns,
              entry l_loc r_loc global body own rest,
            )
      ]
    ]

pub collect_fn-Entries :
    (config : Collection) (nodes : List Decl) (collected collected' : Collected)
    → collect_fn config nodes collected ≡ ok collected'
    → (fns : List FnMeta) × (collected'.fn_prop ≡ collected.fn_prop ++ fns)
      × Entries config nodes fns
unfolding collect_fn
collect_fn-Entries config [] collected collected' e =
    let same = ok-injective collected collected' e in
    ([], ap (λ (c : Collected). c.fn_prop) (sym same) ∙ sym (append-nil collected.fn_prop), done)
collect_fn-Entries config (decl ∷ nodes) collected collected' e =
    let (next, p, e₁) = >>=-eq-ok (collect_node config decl collected) _ e in
    let (fns, shape, rest) = collect_fn-Entries config nodes next collected' e₁ in
    let (added, shape', entries) =
      collect_node-Entries config decl nodes fns collected next p rest in
    (added, shape ∙ shape', entries)
