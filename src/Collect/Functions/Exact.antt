-- ===== src/Collect/Functions/Exact.antt =====
-- Which functions `collect_fn` records, and which of them it takes for interface functions.
use plugsched.Common.{
  Bool, true, false, ◌&&◌, ◌||◌, any, none, some, List, [], ◌∷◌, ◌++◌, ◌≡◌, refl, sym, ◌∙◌, ap, map,
  filter, if◌then◌else◌, ◌⊎◌, inl, inr, Bool-cases, arith, not, filter-++, map-append, append-nil,
  Option-cases, subst,
}
use mathlib.Core.List.Memᴰ
use mathlib.Core.List.{Memᴰ}
use plugsched.Common.Sets.{member}
use plugsched.Common.Sets.Laws.{member-append}
use plugsched.Common.Text.{codes, text_eq, starts_with}
use plugsched.Common.Errors.{ok, >>=-eq-ok, ok-injective}
use plugsched.Analyze.Meta.{FnMeta, DeclStr}
use plugsched.Collect.Gcc.{GccLocation, Decl, Collection}
use plugsched.Collect.Functions.Entries.{Entries, collect_fn-Entries}
use plugsched.Collect.Functions.{
  Collected, nothing_collected, relpath_of, decl_sig, decl_in_section, decl_str_of, decl_str_if,
  is_candidate, is_interface_name, properties, add_fn, collect_node, collect_fn,
}

-- whether the entry makes an interface function: a module's source file is compiled, and the name is
-- listed or has one of the prefixes
abbrev pub is_interface : Collection → FnMeta → Bool
is_interface config fn =
    member config.src_f config.mod_srcs
    && (member fn.name config.interface
        || any (λ prefix. starts_with prefix fn.name) config.interface_prefix)

-- whether a source file of the module or of a sidecar is compiled
abbrev pub is_declared : Collection → Bool
is_declared config = member config.src_f config.mod_srcs || member config.src_f config.sdcr_srcs

is_candidate-eq : (config : Collection) → is_candidate config ≡ is_declared config
unfolding is_candidate
is_candidate-eq config = member-append config.src_f config.mod_srcs config.sdcr_srcs

-- An entry has a declaration string exactly when the file compiled is a module's or a sidecar's.
abbrev pub IsDeclared : Collection → FnMeta → Type 0
IsDeclared config fn =
    (is_declared config ≡ true) × ((d : DeclStr) × (fn.decl_str ≡ some d))
    ⊎ (is_declared config ≡ false) × (fn.decl_str ≡ none)

abbrev pub AllDeclared : Collection → List FnMeta → Type 0
AllDeclared config [] = Unit {0}
AllDeclared config (fn ∷ fns) = IsDeclared config fn × AllDeclared config fns

snoc-AllDeclared :
    (config : Collection) (fns : List FnMeta) (fn : FnMeta)
    → AllDeclared config fns
    → IsDeclared config fn
    → AllDeclared config (fns ++ fn ∷ [])
snoc-AllDeclared config [] fn h d = (d, tt)
snoc-AllDeclared config (f ∷ fns) fn (h, hs) d = (h, snoc-AllDeclared config fns fn hs d)

mem-AllDeclared :
    (config : Collection) (fns : List FnMeta) (fn : FnMeta)
    → AllDeclared config fns
    → Memᴰ fn fns
    → IsDeclared config fn
mem-AllDeclared config [] fn h m = absurd (Memᴰ.not-nil m)
mem-AllDeclared config (f ∷ fns) fn (h, hs) m = elim (Memᴰ.cases_cons m) [
  | inl same ↦ subst (IsDeclared config) (sym same) h
  | inr later ↦ mem-AllDeclared config fns fn hs later
]

-- The interface functions are those of the collected functions that pass the test.
record IsCollected (config : Collection) (collected : Collected) : Type 0 where
  declared : AllDeclared config collected.fn_prop
  interfaces :
      collected.intf_prop
      ≡ map (λ fn. fn.signature) (filter (is_interface config) collected.fn_prop)

decl_str_if-IsDeclared :
    (config : Collection) (decl : Decl) (fn : FnMeta)
    → decl_str_if (is_candidate config) decl ≡ ok fn.decl_str
    → IsDeclared config fn
decl_str_if-IsDeclared config decl fn h = elim (Bool-cases (is_candidate config)) [
  | inl here ↦
      let (d, _, e) = >>=-eq-ok (decl_str_of decl) _ (rw here at h) in
      inl (sym (is_candidate-eq config) ∙ here, (d, sym (ok-injective (some d) fn.decl_str e)))
  | inr elsewhere ↦ inr (
    sym (is_candidate-eq config) ∙ elsewhere,
    sym (ok-injective none fn.decl_str (rw elsewhere at h)),
  )
]

-- An entry is for the declaration with the same name.
properties-IsDeclared :
    (config : Collection) (decl : Decl) (l_loc r_loc : GccLocation) (fn : FnMeta)
    → properties config decl l_loc r_loc ≡ ok fn
    → IsDeclared config fn
unfolding properties
properties-IsDeclared config decl l_loc r_loc fn h =
    let (_, _, h₁) = >>=-eq-ok (decl_in_section decl (codes ".init.text")) _ h in
    let (_, _, h₂) = >>=-eq-ok (relpath_of config decl) _ h₁ in
    let (_, _, h₃) = >>=-eq-ok (decl_sig config decl) _ h₂ in
    let (decl_str, e, h₄) = >>=-eq-ok (decl_str_if (is_candidate config) decl) _ h₃ in
    decl_str_if-IsDeclared config decl fn (e ∙ ap (λ fn. ok fn.decl_str) (ok-injective _ fn h₄))

-- A file of the module is a candidate.
is_interface-is_candidate :
    (config : Collection) (fn : FnMeta)
    → (is_candidate config
        && (member config.src_f config.mod_srcs && is_interface_name config fn.name))
      ≡ is_interface config fn
unfolding is_interface_name
is_interface-is_candidate config fn = ground (arith, is_candidate-eq config)

filter_one :
    (config : Collection) (fn : FnMeta)
    → filter (is_interface config) (fn ∷ []) ≡ (if is_interface config fn then fn ∷ [] else [])
unfolding filter
filter_one config fn = refl

add_fn-IsCollected :
    (config : Collection) (fn : FnMeta) (collected : Collected)
    → IsCollected config collected
    → IsDeclared config fn
    → IsCollected config (add_fn config fn collected)
add_fn-IsCollected config fn collected h d = record {
  declared = snoc-AllDeclared config collected.fn_prop fn h.declared d;
  interfaces =
      rw
        (
          is_interface-is_candidate config fn,
          filter-++ (is_interface config) collected.fn_prop (fn ∷ []),
          filter_one config fn,
          map-append (λ fn. fn.signature) (filter (is_interface config) collected.fn_prop)
              (if is_interface config fn then fn ∷ [] else []),
        )
        (elim (Bool-cases (is_interface config fn)) [
          | inl listed ↦ rw (listed, h.interfaces) refl
          | inr other ↦ rw (other, h.interfaces) (sym (append-nil _))
        ]);
}

collect_node-IsCollected :
    (config : Collection) (decl : Decl) (collected collected' : Collected)
    → IsCollected config collected
    → collect_node config decl collected ≡ ok collected'
    → IsCollected config collected'
unfolding collect_node
collect_node-IsCollected config decl collected collected' h e =
    elim (Bool-cases (not decl.is_global)) [
      | inl local ↦ subst (IsCollected config) (ok-injective collected collected' (rw local at e)) h
      | inr global ↦ elim (Option-cases decl.function) [
        | inl alias ↦
            subst (IsCollected config) (ok-injective collected collected' (rw (global, alias) at e))
              h
        | inr ((l_loc, r_loc), body) ↦
            let (fn, p, e₁) =
              >>=-eq-ok (properties config decl l_loc r_loc) _ (rw (global, body) at e) in
            subst (IsCollected config) (ok-injective _ collected' e₁) (
              add_fn-IsCollected config fn collected h
                (properties-IsDeclared config decl l_loc r_loc fn p))
      ]
    ]

collect_fn-IsCollected :
    (config : Collection) (nodes : List Decl) (collected collected' : Collected)
    → IsCollected config collected
    → collect_fn config nodes collected ≡ ok collected'
    → IsCollected config collected'
unfolding collect_fn
collect_fn-IsCollected config [] collected collected' h e =
    subst (IsCollected config) (ok-injective collected collected' e) h
collect_fn-IsCollected config (decl ∷ nodes) collected collected' h e =
    let (next, p, e₁) = >>=-eq-ok (collect_node config decl collected) _ e in
    collect_fn-IsCollected config nodes next collected'
      (collect_node-IsCollected config decl collected next h p) e₁

-- From empty lists, a run of `collect_fn` that ends without an error makes one entry for each global
-- declaration with a body, in their order and with the names, files, places and properties of the
-- declaration; an entry has a declaration string exactly when the file compiled is a module's source
-- or a sidecar's. The interface functions are, in the same order, the signatures of the entries whose
-- name is listed or has one of the prefixes, provided that the file compiled is a module's source.
pub collect_fn_interfaces :
    (config : Collection) (nodes : List Decl) (collected : Collected)
    → collect_fn config nodes nothing_collected ≡ ok collected
    → Entries config nodes collected.fn_prop
      × (collected.intf_prop
          ≡ map (λ fn. fn.signature) (filter (is_interface config) collected.fn_prop))
      × ((fn : FnMeta) → Memᴰ fn collected.fn_prop → IsDeclared config fn)
unfolding filter
collect_fn_interfaces config nodes collected e =
    let h =
      collect_fn-IsCollected config nodes nothing_collected collected
        (record { declared = tt; interfaces = refl }) e in
    let (fns, shape, entries) = collect_fn-Entries config nodes nothing_collected collected e in
    (
      subst (Entries config nodes) (sym shape) entries,
      h.interfaces,
      λ fn m. mem-AllDeclared config collected.fn_prop fn h.declared m,
    )
