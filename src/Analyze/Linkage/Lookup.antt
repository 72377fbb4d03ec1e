-- ===== src/Analyze/Linkage/Lookup.antt =====
-- The linked file of every public name after the first pass, and the lookups that go by it.
use plugsched.Common.{
  true, false, none, some, List, [], ◌∷◌, ◌≡◌, ◌≢◌, refl, inl, inr, arith, Bool-cases, Option-cases,
  ◌==◌, ◌≤◌, ap, subst, sym,
}
use plugsched.Common.Sets.{member, add}
use plugsched.Common.Sets.Laws.{member-nil, member-cons_self}
use plugsched.Common.Text.{Text, codes, text_eq, ends_with}
use plugsched.Common.Dict.{Dict, lookup, insert, lookup-insert, insert_twice, Values, insert-Values}
use plugsched.Common.Errors.{ok, >>=-eq-ok}
use plugsched.Common.Order.{ranked_eq}
use plugsched.Analyze.Meta.{FnMeta, Meta, Config}
use plugsched.Analyze.Linkage.{
  Definition, Pass, record_global, scan_fn, scan_fns, scan_meta, Link, Globals, definition,
  first_pass, start, link, link_all, add_link, strong,
}
use plugsched.Analyze.Linkage.Choice.{link-strong, link_parts}
use plugsched.Analyze.Linkage.Collect.{
  definitions, all_fns, member-first_pass, of_first_pass, or_empty, definition_guard,
  definition_exact,
}
use mathlib.Core.List.{Memᴰ}

link_all-eq-ok :
    (name : Text) (fn_list : List Definition) (d : Dict Text (List Definition)) (globals : Globals)
    → link_all ((name, fn_list) ∷ d) ≡ ok globals
    → (rest : Globals) × (l : Link) × (link_all d ≡ ok rest)
      × (link name fn_list ≡ some l)
      × (globals ≡ add_link name l rest)
unfolding link_all
link_all-eq-ok name fn_list d globals h =
    let (rest, e, k) = >>=-eq-ok (link_all d) _ h in
    elim (Option-cases (link name fn_list)) [
      | inl missing ↦ absurd (ground arith)
      | inr (l, linked) ↦ (rest, l, e, linked, ground arith)
    ]

pub link_all-lookup :
    (d : Dict Text (List Definition)) (globals : Globals) (name : Text) (fn_list : List Definition)
    → link_all d ≡ ok globals
    → lookup name d ≡ some fn_list
    → (l : Link) × (link name fn_list ≡ some l) × (lookup name globals.linked ≡ some l.linked)
unfolding link_all lookup
link_all-lookup [] globals name fn_list h k = absurd (cc)
link_all-lookup ((other, others) ∷ d) globals name fn_list h k =
    let (rest, l, e, linked, shape) = link_all-eq-ok other others d globals h in
    elim (Bool-cases (name == other)) [
      | inl same ↦ let same_name = text_eq.beq_iff name other in (l, ground arith, ground arith)
      | inr differ ↦
          let (found, is_link, is_linked) =
            link_all-lookup d rest name fn_list e (rw differ at k) in
          (found, is_link, ground arith)
    ]

-- A strong definition has a strong priority, and no priority lies below it.
definition_priority : (fn : FnMeta) (d : Definition) → definition fn ≡ some d → strong ≤ d.0
unfolding definition
definition_priority fn d h = ground arith

definition-strong :
    (fn : FnMeta)
    → fn.weak ≡ false
    → ends_with (codes ".c") fn.file ≡ true
    → definition fn ≡ some (strong, fn.file)
unfolding definition
definition-strong fn h k = ground arith

definition-eq-strong :
    (fn : FnMeta) (file : Text)
    → definition fn ≡ some (strong, file)
    → (fn.weak ≡ false) × (fn.file ≡ file)
unfolding definition
definition-eq-strong fn file h = ground arith

-- Once the names are linked without an error, a strong definition overrides the weak ones: where
-- some public function that is not weak defines a name in a C file, the file found for the name is
-- that of a public function of that name that is not weak.
pub strong_is_linked :
    (config : Config) (metas : List Meta) (globals : Globals) (fn : FnMeta)
    → link_all (first_pass config metas start).global_fn_dict ≡ ok globals
    → Memᴰ fn (all_fns metas)
    → fn.public ≡ true
    → fn.weak ≡ false
    → ends_with (codes ".c") fn.file ≡ true
    → (winner : FnMeta) × Memᴰ winner (all_fns metas)
      × (winner.name ≡ fn.name)
      × (winner.public ≡ true)
      × (winner.weak ≡ false)
      × (lookup fn.name globals.linked ≡ some winner.file)
strong_is_linked config metas globals fn h m public not_weak in_c =
    let d = (first_pass config metas start).global_fn_dict in
    let defined = definition-strong fn not_weak in_c in
    let own = (member-first_pass config metas start fn.name (strong, fn.file)).1 (
      inl (
        fn,
        m,
        record {
          public = public;
          named = refl;
          defined = (definition_exact fn (strong, fn.file)).0 defined;
        },
      )) in
    elim (Option-cases (lookup fn.name d)) [
      | inl missing ↦
          let empty = subst (λ o. member (strong, fn.file) (or_empty o) ≡ true) missing own in
          absurd (cc (member-nil {A = Definition} (strong, fn.file)))
      | inr (fn_list, found) ↦
          let listed = λ (w : Definition) (k : member w fn_list ≡ true).
            of_first_pass config metas fn.name w
              (subst (λ o. member w (or_empty o) ≡ true) (sym found) k) in
          let (l, is_link, strong_linked) =
            link-strong fn.name fn.file fn_list
              (λ w k.
                let (g, _, x) = listed w k in
                definition_priority g w ((definition_exact g w).1 x.defined))
              (subst (λ o. member (strong, fn.file) (or_empty o) ≡ true) found own) in
          let (l', is_link', looked_up) = link_all-lookup d globals fn.name fn_list h found in
          let (winner, w, x) = listed (strong, l.linked) strong_linked in
          let (plain, same_file) =
            definition-eq-strong winner l.linked
              ((definition_exact winner (strong, l.linked)).1 x.defined) in
          let same : l ≡ l' = cc in
          let same_linked = ap (λ (k : Link). k.linked) same in
          (winner, w, x.named, x.public, plain, ground arith)
    ]

-- the list of a name has a first element
abbrev IsNonempty : List Definition → Type 0
IsNonempty fn_list = fn_list ≢ []

record_global-insert :
    (fn : FnMeta) (v : Definition) (d : Dict Text (List Definition))
    → fn.public ≡ true
    → definition fn ≡ some v
    → record_global fn d ≡ insert fn.name (add v (definitions fn.name d)) d
unfolding record_global
record_global-insert fn v d public e =
    simp (public, definition_guard fn e, e)
      (elim (Option-cases (lookup fn.name d)) [
        | inl missing ↦ ground (
          arith,
          lookup-insert fn.name fn.name [] d,
          text_eq.beq_iff fn.name fn.name,
          insert_twice fn.name (add v []) [] d,
        )
        | inr (fn_list, found) ↦ ground arith
      ])

record_global_skip :
    (fn : FnMeta) (d : Dict Text (List Definition))
    → fn.public ≡ true
    → definition fn ≡ none
    → record_global fn d ≡ d
unfolding record_global definition
record_global_skip fn d public nothing = ground arith

add-ne-nil : (v : Definition) (vs : List Definition) → add v vs ≢ []
unfolding add member
add-ne-nil v [] h = absurd (ground arith)
add-ne-nil v (w ∷ vs) h = absurd (ground arith)

record_global-keeps :
    (fn : FnMeta) (d : Dict Text (List Definition))
    → Values IsNonempty d
    → Values IsNonempty (record_global fn d)
unfolding record_global
record_global-keeps fn d h = elim (Bool-cases fn.public) [
  | inl public ↦ elim (Option-cases (definition fn)) [
    | inl nothing ↦ subst (Values IsNonempty) (sym (record_global_skip fn d public nothing)) h
    | inr (v, e) ↦
        subst (Values IsNonempty) (sym (record_global-insert fn v d public e))
          (insert-Values IsNonempty fn.name _ d (add-ne-nil v (definitions fn.name d)) h)
  ]
  | inr private ↦ rw private h
]

scan_fns-keeps :
    (config : Config) (fns : List FnMeta) (pass : Pass)
    → Values IsNonempty pass.global_fn_dict
    → Values IsNonempty (scan_fns config fns pass).global_fn_dict
unfolding scan_fns scan_fn
scan_fns-keeps config [] pass h = h
scan_fns-keeps config (fn ∷ fns) pass h =
    scan_fns-keeps config fns (scan_fn config fn pass)
      (record_global-keeps fn pass.global_fn_dict h)

first_pass-keeps :
    (config : Config) (metas : List Meta) (pass : Pass)
    → Values IsNonempty pass.global_fn_dict
    → Values IsNonempty (first_pass config metas pass).global_fn_dict
unfolding first_pass scan_meta
first_pass-keeps config [] pass h = h
first_pass-keeps config (meta ∷ metas) pass h =
    first_pass-keeps config metas (scan_meta config meta pass)
      (scan_fns-keeps config meta.fn pass h)

link_all-ends :
    (d : Dict Text (List Definition)) → Values IsNonempty d → (g : Globals) × (link_all d ≡ ok g)
unfolding link_all
link_all-ends [] h = (record { linked = []; fake_global = []; warned = [] }, refl)
link_all-ends ((name, []) ∷ d) (nonempty, h) = absurd (nonempty refl)
link_all-ends ((name, v ∷ fn_list) ∷ d) (nonempty, h) =
    let (g, ends) = link_all-ends d h in
    let (l, _, _, _, is_link, _, _, _, _) =
      link_parts name (v ∷ fn_list) v (member-cons_self v fn_list) in
    (add_link name l g, ground arith)

-- The loop over the collected names never meets an empty list, so the first pass always ends with
-- a linked file for each name.
pub first_pass_links :
    (config : Config) (metas : List Meta)
    → (globals : Globals) × (link_all (first_pass config metas start).global_fn_dict ≡ ok globals)
first_pass_links config metas = link_all-ends _ (first_pass-keeps config metas start tt)
