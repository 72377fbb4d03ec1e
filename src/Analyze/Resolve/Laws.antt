-- ===== src/Analyze/Resolve/Laws.antt =====
-- What the second pass collects: callbacks of module files, and the edges whose callee is known.
use plugsched.Common.{
  true, Option, none, some, List, [], ◌∷◌, ◌≡◌, ◌≢◌, refl, ◌↔◌, ◌⊎◌, inl, inr, arith, Bool-cases,
  ◌==◌, ⊎_elim, sym, ap, subst,
}
use plugsched.Common.Sets.{member}
use plugsched.Common.Sets.Laws.{member-add}
use plugsched.Common.Text.{Text, codes, text_eq}
use plugsched.Common.Dict.{Dict, lookup}
use plugsched.Analyze.Meta.{Sym, sym_eq, Config}
use plugsched.Analyze.Resolve.{with_file, lookup_if_global, add_callback, scan_callbacks}
use mathlib.Core.Option.{some-injective}
use mathlib.Core.List.{Memᴰ}
use mathlib.Core.List.Memᴰ

with_file-eq-some :
    (name : Text) (o : Option Text) (s : Sym)
    → with_file name o ≡ some s
    → (s.0 ≡ name) × (s.1 ≢ []) × (o ≡ some s.1)
with_file-eq-some name none s h = absurd (cc)
with_file-eq-some name (some []) s h = absurd (cc)
with_file-eq-some name (some (c ∷ file)) s h =
    let same = some-injective _ _ h in
    (ap (λ (x : Sym). x.0) (sym same), λ e. cc, ap some (ap (λ (x : Sym). x.1) same))

-- A static symbol keeps its file; a vague one takes the linked file of its name, and is dropped if
-- no file defines the name. The name never changes.
pub lookup_if_global_cases :
    (global_fn_dict : Dict Text Text) (name file : Text) (s : Sym)
    → lookup_if_global global_fn_dict (name, file) ≡ some s
    → (s.0 ≡ name)
      × (s.1 ≢ [])
      × ((file ≡ codes "?") × (lookup name global_fn_dict ≡ some s.1)
          ⊎ (file ≢ codes "?") × (s.1 ≡ file))
unfolding lookup_if_global
lookup_if_global_cases global_fn_dict name file s h = elim (Bool-cases (file == codes "?")) [
  | inl vague ↦
      let (same_name, nonempty, found) =
        with_file-eq-some name (lookup name global_fn_dict) s (rw vague at h) in
      (same_name, nonempty, inl ((text_eq.beq_iff file (codes "?")).0 vague, found))
  | inr exact ↦
      let (same_name, nonempty, found) = with_file-eq-some name (some file) s (rw exact at h) in
      (
        same_name,
        nonempty,
        inr (λ e. cc ((text_eq.beq_iff file (codes "?")).1 e), sym (some-injective _ _ found)),
      )
]

-- a callback of the module that one of the named functions stands for
abbrev pub CallbackOf : Config → Dict Text Text → List Sym → Sym → Type 0
CallbackOf config global_fn_dict raw s =
    (r : Sym) × Memᴰ r raw
    × (lookup_if_global global_fn_dict r ≡ some s)
    × (member s.1 config.mod_files ≡ true)

member-add_callback :
    (config : Config) (o : Option Sym) (callbacks : List Sym) (s : Sym)
    → (member s (add_callback config o callbacks) ≡ true)
      ↔ ((o ≡ some s) × (member s.1 config.mod_files ≡ true) ⊎ (member s callbacks ≡ true))
member-add_callback config none callbacks s = (inr, ⊎_elim (λ (e, _). cc) (λ m. m))
member-add_callback config (some r) callbacks s = (
  λ h. elim (Bool-cases (member r.1 config.mod_files)) [
    | inl inside ↦ elim (Bool-cases (s == r)) [
      | inl same ↦ let e = (sym_eq.beq_iff s r).0 same in inl (ap some (sym e), rw e inside)
      | inr other ↦ inr (ground (arith, member-add s r callbacks))
    ]
    | inr out ↦ inr (rw out at h)
  ],
  λ h. elim h [
    | inl (e, inside) ↦
        let same = some-injective r s e in
        rw (same, inside) (ground (arith, member-add s s callbacks, sym_eq.beq_iff s s))
    | inr m ↦ ground (arith, member-add s r callbacks)
  ],
)

-- The callbacks after a file are those before it and the functions that the file names as callbacks,
-- each after the lookup, whose file is a module file.
pub member-scan_callbacks :
    (config : Config) (global_fn_dict : Dict Text Text) (raw callbacks : List Sym) (s : Sym)
    → (member s (scan_callbacks config global_fn_dict raw callbacks) ≡ true)
      ↔ (CallbackOf config global_fn_dict raw s ⊎ (member s callbacks ≡ true))
unfolding scan_callbacks
member-scan_callbacks config global_fn_dict [] callbacks s =
    (inr, ⊎_elim (λ (r, m, _, _). absurd (Memᴰ.not-nil m)) (λ m. m))
member-scan_callbacks config global_fn_dict (r ∷ raw) callbacks s =
    let found = lookup_if_global global_fn_dict r in
    let later =
      member-scan_callbacks config global_fn_dict raw (add_callback config found callbacks) s in
    let first = member-add_callback config found callbacks s in
    (
      λ h. elim (later.0 h) [
        | inl (q, m, e, i) ↦ inl (q, Memᴰ.tail m, e, i)
        | inr early ↦ elim (first.0 early) [
          | inl (e, i) ↦ inl (r, Memᴰ.head refl, e, i)
          | inr before ↦ inr before
        ]
      ],
      λ h. elim h [
        | inl (q, m, e, i) ↦ elim (Memᴰ.cases_cons m) [
          | inl same ↦ later.1 (
              inr
                (first.1 (inl (subst (λ x. lookup_if_global global_fn_dict x ≡ some s) same e, i))))
          | inr rest ↦ later.1 (inl (q, rest, e, i))
        ]
        | inr before ↦ later.1 (inr (first.1 (inr before)))
      ],
    )
