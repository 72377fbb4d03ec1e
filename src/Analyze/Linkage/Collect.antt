-- ===== src/Analyze/Linkage/Collect.antt =====
-- What the first pass collects: the definitions of a name are those of the public functions that
-- are weak or stand in a C file, and a strong one among them is what the linker takes.
use plugsched.Common.{
  true, false, ◌&&◌, ◌||◌, Option, none, some, List, [], ◌∷◌, ◌≡◌, refl, ◌⊎◌, inl, inr, arith,
  Bool-cases, Option-cases, ◌==◌, if◌then◌else◌, ◌↔◌, ◌∙◌, ◌++◌, ⊎_elim, subst, ap, sym,
}
use plugsched.Common.Sets.{member, add}
use plugsched.Common.Sets.Laws.{member-nil, member-add}
use plugsched.Common.Text.{Text, codes, text_eq, starts_with, ends_with}
use plugsched.Common.Dict.{Dict, lookup, lookup-insert}
use plugsched.Common.Order.{ranked_eq}
use plugsched.Analyze.Meta.{FnMeta, Meta, Config}
use plugsched.Analyze.Linkage.{
  Definition, Pass, definition, setdefault, add_definition, record_global, scan_fn, scan_fns,
  scan_meta, first_pass, start,
}
use mathlib.Core.Bool.{So-prop}
use mathlib.Core.Logic.{∥∥₁_elim}
use mathlib.Core.List.{Memᴰ}
use mathlib.Core.List.Memᴰ

-- the definitions collected for a name
abbrev pub or_empty : Option (List Definition) → List Definition
or_empty none = []
or_empty (some fn_list) = fn_list

abbrev pub definitions : Text → Dict Text (List Definition) → List Definition
definitions name d = or_empty (lookup name d)

-- The definition of a function, with the priority that it has as weak under arch/, as weak
-- elsewhere or as strong; a function that is not weak has one only in a C file.
abbrev pub IsDefinition : FnMeta → Definition → Type 0
IsDefinition fn d =
    (d.1 ≡ fn.file)
    × ((fn.weak ≡ true) × (starts_with (codes "arch/") fn.file ≡ true) × (d.0 ≡ 2)
        ⊎ (fn.weak ≡ true) × (starts_with (codes "arch/") fn.file ≡ false) × (d.0 ≡ 3)
        ⊎ (fn.weak ≡ false) × (ends_with (codes ".c") fn.file ≡ true) × (d.0 ≡ 1))

pub definition_exact : (fn : FnMeta) (d : Definition) → (definition fn ≡ some d) ↔ IsDefinition fn d
unfolding definition
definition_exact fn (prio, file) = ground arith

-- A function that defines a name.
pub record Defines (fn : FnMeta) (name : Text) (d : Definition) : Type 0 where
  pub public : fn.public ≡ true
  pub named : fn.name ≡ name
  pub defined : IsDefinition fn d

definitions-setdefault :
    (name k : Text) (d : Dict Text (List Definition))
    → definitions name (setdefault k d) ≡ definitions name d
definitions-setdefault name k d = ground (arith, lookup-insert name k [] d, text_eq.beq_iff name k)

-- `none` in `definition` is the case without a priority.
pub definition_guard :
    (fn : FnMeta) {d : Definition}
    → definition fn ≡ some d
    → (fn.weak || ends_with (codes ".c") fn.file) ≡ true
unfolding definition
definition_guard fn h = ground arith

lookup-setdefault :
    (k : Text) (d : Dict Text (List Definition))
    → (fn_list : List Definition) × (lookup k (setdefault k d) ≡ some fn_list)
lookup-setdefault k d = elim (Option-cases (lookup k d)) [
  | inl missing ↦ ([], ground (arith, lookup-insert k k [] d, text_eq.beq_iff k k))
  | inr (fn_list, e) ↦ (fn_list, ground arith)
]

definitions-add :
    (name k : Text) (v w : Definition) (d : Dict Text (List Definition)) (fn_list : List Definition)
    → lookup k d ≡ some fn_list
    → member w (definitions name (add_definition k (some v) d))
      ≡ (if name == k && w == v then true else member w (definitions name d))
definitions-add name k v w d fn_list e =
    ground (
      arith,
      lookup-insert name k (add v fn_list) d,
      text_eq.beq_iff name k,
      member-add w v fn_list,
    )

record_global_other :
    (fn : FnMeta) (name : Text) (d : Dict Text (List Definition))
    → (fn.public ≡ false) ⊎ (definition fn ≡ none)
    → definitions name (record_global fn d) ≡ definitions name d
unfolding record_global
record_global_other fn name d h = ground (arith, definitions-setdefault name fn.name d)

record_global_public :
    (fn : FnMeta) (name : Text) (v w : Definition) (d : Dict Text (List Definition))
    → fn.public ≡ true
    → definition fn ≡ some v
    → member w (definitions name (record_global fn d))
      ≡ (if name == fn.name && w == v then true else member w (definitions name d))
unfolding record_global
record_global_public fn name v w d public e =
    let (fn_list, found) = lookup-setdefault fn.name d in
    simp (public, definition_guard fn e, e)
      (definitions-add name fn.name v w (setdefault fn.name d) fn_list found
        ∙ rw (definitions-setdefault name fn.name d))

-- One function adds its own definition and no other.
member-record_global :
    (fn : FnMeta) (name : Text) (w : Definition) (d : Dict Text (List Definition))
    → (member w (definitions name (record_global fn d)) ≡ true)
      ↔ (Defines fn name w ⊎ (member w (definitions name d) ≡ true))
member-record_global fn name w d = elim (Bool-cases fn.public) [
  | inl public ↦ elim (Option-cases (definition fn)) [
    | inl nothing ↦
        rw (record_global_other fn name d (inr nothing)) (
          inr,
          ⊎_elim (λ (x : Defines fn name w). cc ((definition_exact fn w).1 x.defined)) (λ m. m),
        )
    | inr (v, e) ↦
        let eqn = record_global_public fn name v w d public e in
        let same_name = text_eq.beq_iff name fn.name in
        let same = ranked_eq.beq_iff w v in
        (
          λ h. elim (Bool-cases (name == fn.name && w == v)) [
            | inl both ↦
                let own : w ≡ v = ground arith in
                inl (record {
                  public = public;
                  named = ground arith;
                  defined = (definition_exact fn w).0 (e ∙ ap some (sym own));
                })
            | inr not_both ↦ inr (ground arith)
          ],
          ⊎_elim (λ x. ground (arith, x.named, (definition_exact fn w).1 x.defined))
              (λ m. ground arith),
        )
  ]
  | inr private ↦
      rw (record_global_other fn name d (inl private))
        (inr, ⊎_elim (λ (x : Defines fn name w). cc (x.public)) (λ m. m))
]

-- a function of the metadata that defines a name
abbrev pub DefinedIn : List FnMeta → Text → Definition → Type 0
DefinedIn fns name w = (fn : FnMeta) × Memᴰ fn fns × Defines fn name w

member-scan_fns :
    (config : Config) (fns : List FnMeta) (pass : Pass) (name : Text) (w : Definition)
    → (member w (definitions name (scan_fns config fns pass).global_fn_dict) ≡ true)
      ↔ (DefinedIn fns name w ⊎ (member w (definitions name pass.global_fn_dict) ≡ true))
unfolding scan_fns scan_fn
member-scan_fns config [] pass name w =
    (inr, ⊎_elim (λ (fn, m, _). absurd (Memᴰ.not-nil m)) (λ m. m))
member-scan_fns config (fn ∷ fns) pass name w =
    let later = member-scan_fns config fns (scan_fn config fn pass) name w in
    let first = member-record_global fn name w pass.global_fn_dict in
    (
      λ h. elim (later.0 h) [
        | inl (g, m, d) ↦ inl (g, Memᴰ.tail m, d)
        | inr early ↦ elim (first.0 early) [
          | inl d ↦ inl (fn, Memᴰ.head refl, d)
          | inr before ↦ inr before
        ]
      ],
      λ h. elim h [
        | inl (g, m, d) ↦ elim (Memᴰ.cases_cons m) [
          | inl same ↦ later.1 (inr (first.1 (inl (subst (λ g. Defines g name w) same d))))
          | inr rest ↦ later.1 (inl (g, rest, d))
        ]
        | inr before ↦ later.1 (inr (first.1 (inr before)))
      ],
    )

abbrev pub all_fns : List Meta → List FnMeta
all_fns [] = []
all_fns (meta ∷ metas) = meta.fn ++ all_fns metas

pub member-first_pass :
    (config : Config) (metas : List Meta) (pass : Pass) (name : Text) (w : Definition)
    → (member w (definitions name (first_pass config metas pass).global_fn_dict) ≡ true) ↔ (
        DefinedIn (all_fns metas) name w ⊎ (member w (definitions name pass.global_fn_dict) ≡ true))
unfolding first_pass scan_meta
member-first_pass config [] pass name w =
    (inr, ⊎_elim (λ (fn, m, _). absurd (Memᴰ.not-nil m)) (λ m. m))
member-first_pass config (meta ∷ metas) pass name w =
    let later = member-first_pass config metas (scan_meta config meta pass) name w in
    let first = member-scan_fns config meta.fn pass name w in
    (
      λ h. elim (later.0 h) [
        | inl (g, m, d) ↦ inl (g, Memᴰ.append_right meta.fn m, d)
        | inr early ↦ elim (first.0 early) [
          | inl (g, m, d) ↦ inl (g, Memᴰ.append_left _ m, d)
          | inr before ↦ inr before
        ]
      ],
      λ h. elim h [
        | inl (g, m, d) ↦ elim (Memᴰ.append_cases meta.fn m) [
          | inl here ↦ later.1 (inr (first.1 (inl (g, here, d))))
          | inr rest ↦ later.1 (inl (g, rest, d))
        ]
        | inr before ↦ later.1 (inr (first.1 (inr before)))
      ],
    )

pub of_first_pass :
    (config : Config) (metas : List Meta) (name : Text) (w : Definition)
    → member w (definitions name (first_pass config metas start).global_fn_dict) ≡ true
    → DefinedIn (all_fns metas) name w
unfolding lookup
of_first_pass config metas name w h = elim ((member-first_pass config metas start name w).0 h) [
  | inl d ↦ d
  | inr none_before ↦ absurd (cc (member-nil w))
]

-- After the first pass the definitions of a name are exactly those of the public functions of that
-- name in the metadata: with its file, a weak function has priority 2 where the file is under arch/
-- and 3 elsewhere, and a function that is not weak has priority 1, and is left out unless its file
-- is a C file.
pub first_pass-definitions :
    (config : Config) (metas : List Meta) (name : Text) (w : Definition)
    → (member w (definitions name (first_pass config metas start).global_fn_dict) ≡ true)
      ↔ ∥ DefinedIn (all_fns metas) name w ∥₁
first_pass-definitions config metas name w = (
  λ h. ∣ of_first_pass config metas name w h ∣₁,
  λ d. ∥∥₁_elim d (So-prop _) (λ d. (member-first_pass config metas start name w).1 (inl d)),
)
