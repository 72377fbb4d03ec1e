-- ===== src/Collect/Info/Declared.antt =====
-- The interface functions of a metadata file have declarations.
use plugsched.Common.{
  Bool, true, none, some, List, [], ◌∷◌, ◌==◌, ◌≡◌, refl, sym, ap, ◌∙◌, subst, map, filter, inl,
  inr, arith, Bool-cases, some-injective, true-false,
}
use mathlib.Core.List.Memᴰ
use mathlib.Core.List.{Memᴰ}
use plugsched.Common.Text.{Text, codes, text_eq}
use plugsched.Common.Errors.{ok, >>=-eq-ok, ok-injective}
use plugsched.Analyze.Meta.{Sym, FnMeta, DeclStr}
use plugsched.Collect.Gcc.{Collection, Node, Variable}
use plugsched.Collect.Functions.{nothing_collected, collect_fn}
use plugsched.Collect.Functions.Exact.{is_interface, is_declared, collect_fn_interfaces}
use plugsched.Collect.Graph.{collect_edge, collect_callback}
use plugsched.Collect.Structs.{collect_struct}
use plugsched.Collect.Vars.{collect_var}
use plugsched.Collect.Info.{CollectedInfo, collect_all, collect_if, collect_info}

of_map-filter :
    (p : FnMeta → Bool) (fns : List FnMeta) (sig : Sym)
    → Memᴰ sig (map (λ fn. fn.signature) (filter p fns))
    → (fn : FnMeta) × Memᴰ fn fns × (p fn ≡ true) × (fn.signature ≡ sig)
unfolding filter
of_map-filter p [] sig m = absurd (Memᴰ.not-nil m)
of_map-filter p (fn ∷ fns) sig m = elim (Bool-cases (p fn)) [
  | inl kept ↦ elim (Memᴰ.cases_cons (rw kept at m)) [
    | inl same ↦ (fn, Memᴰ.head refl, kept, sym same)
    | inr later ↦ let (f, n, k, e) = of_map-filter p fns sig later in (f, Memᴰ.tail n, k, e)
  ]
  | inr dropped ↦
      let (f, n, k, e) = of_map-filter p fns sig (rw dropped at m) in (f, Memᴰ.tail n, k, e)
]

-- a function of the file with the signature, and its declaration
abbrev pub Declared : CollectedInfo → Sym → Type 0
Declared info sig =
    (fn : FnMeta) × (d : DeclStr) × Memᴰ fn info.meta.fn
    × (fn.signature ≡ sig)
    × (fn.decl_str ≡ some d)

ok_none-some : {info : CollectedInfo} → ¬ (ok none ≡ ok (some info))
ok_none-some h = absurd (cc)

is_interface-is_declared :
    (config : Collection) (fn : FnMeta) → is_interface config fn ≡ true → is_declared config ≡ true
is_interface-is_declared config fn h = ground arith

collect_all-Declared :
    (config : Collection) (nodes : List Node) (vars : List Variable) (info : CollectedInfo)
    → collect_all config nodes vars ≡ ok info
    → (sig : Sym) → Memᴰ sig info.meta.interface
    → Declared info sig
unfolding collect_all
collect_all-Declared config nodes vars info h sig m =
    let (fns, e, h₁) =
      >>=-eq-ok (collect_fn config (map (λ (node : Node). node.decl) nodes) nothing_collected) _
        h in
    let (_, _, h₂) = >>=-eq-ok (collect_callback config nodes vars) _ h₁ in
    let (_, _, h₃) = >>=-eq-ok (collect_struct config nodes) _ h₂ in
    let (_, _, h₄) = >>=-eq-ok (collect_edge config nodes) _ h₃ in
    let (_, _, h₅) = >>=-eq-ok (collect_var config vars) _ h₄ in
    let same = ok-injective _ info h₅ in
    let (_, interfaces, declared) =
      collect_fn_interfaces config (map (λ (node : Node). node.decl) nodes) fns e in
    let (fn, n, k, s) =
      of_map-filter (is_interface config) fns.fn_prop sig
        (subst (λ sigs. Memᴰ sig sigs) (ap (λ i. i.meta.interface) (sym same) ∙ interfaces) m) in
    elim (declared fn n) [
      | inl (_, (d, found)) ↦
          (fn, d, subst (λ fns. Memᴰ fn fns) (ap (λ i. i.meta.fn) same) n, s, found)
      | inr (other, _) ↦ absurd (true-false (sym (is_interface-is_declared config fn k) ∙ other))
    ]

-- Whenever `collect_info` writes a metadata file, the file lists, for every interface function, a
-- function with this signature that comes with its declaration.
pub interface_is_Declared :
    (config : Collection) (p : Text) (nodes : List Node) (vars : List Variable)
    (info : CollectedInfo)
    → collect_info config p nodes vars ≡ ok (some info)
    → (sig : Sym) → Memᴰ sig info.meta.interface
    → Declared info sig
unfolding collect_info
interface_is_Declared config p nodes vars info h sig m =
    elim (Bool-cases (p == codes "*free_lang_data")) [
      | inr other ↦
          absurd
            (ok_none-some (subst (λ b. collect_if b config nodes vars ≡ ok (some info)) other h))
      | inl run ↦
          let (info', e, h₁) =
            >>=-eq-ok (collect_all config nodes vars) _
              (subst (λ b. collect_if b config nodes vars ≡ ok (some info)) run h) in
          collect_all-Declared config nodes vars info
            (e ∙ ap ok (some-injective (ok-injective _ (some info) h₁))) sig m
    ]
