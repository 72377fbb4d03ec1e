-- ===== src/Analyze/Linkage/Choice.antt =====
-- Which definition of a name is linked: the one of least priority, and of these the one whose file
-- comes first; and which weak definitions are overridden.
use plugsched.Common.{
  ℕ, true, ◌&&◌, ◌||◌, some, List, ◌∷◌, ◌≡◌, ◌≢◌, refl, ◌↔◌, ◌⊎◌, inl, inr, arith, List-cases,
  Bool-cases, map, filter, ⊎_elim, sym, ◌∙◌, subst, not, ==_refl, ◌==◌, nat_eq, ◌≤◌, ap,
}
use plugsched.Common.Sets.{member, IsDistinct}
use plugsched.Common.Sets.Laws.{
  member-nil, member-cons, member-filter, mem_of_member, member_of_mem, member-map,
  mem_of_member-map,
}
use plugsched.Common.Text.{Text, codes, text_eq}
use plugsched.Common.Order.{ranked_le, ranked_le_total, ranked_order, ranked_eq, sorted}
use plugsched.Common.Order.Sorted.{member-sorted, sorted-IsSorted, sorted-IsDistinct, IsSorted}
use plugsched.Analyze.Meta.{Sym, sym_eq}
use plugsched.Analyze.Linkage.{Definition, Link, link, weak_arch, weak_norm, strong, is_weak, tied}
use mathlib.Core.List.{Memᴰ}

-- a weak definition
abbrev pub IsWeak : Definition → Type 0
IsWeak d = (d.0 ≡ weak_arch) ⊎ (d.0 ≡ weak_norm)

sorted_cases :
    (fn_list : List Definition) (d : Definition)
    → member d fn_list ≡ true
    → (prio : ℕ) × (file : Text) × (rest : List Definition) × (sorted fn_list ≡ (prio, file) ∷ rest)
sorted_cases fn_list d h = elim (List-cases (sorted fn_list)) [
  | inl empty ↦ absurd (cc (member-sorted d fn_list, member-nil d, ap (member d) empty))
  | inr ((prio, file), rest, e) ↦ (prio, file, rest, e)
]

ranked_le_refl : (d : Definition) → ranked_le d d ≡ true
ranked_le_refl d = ⊎_elim (λ h. h) (λ h. h) (ranked_le_total d d)

module _ (fn_list : List Definition) (head : Definition) (rest : List Definition)
    (e : sorted fn_list ≡ head ∷ rest) where
  member_parts : (d : Definition) → member d fn_list ≡ (d == head || member d rest)
  member_parts d = sym (member-sorted d fn_list) ∙ ap (member d) e ∙ member-cons d head rest

  head_least : (d : Definition) → member d fn_list ≡ true → ranked_le head d ≡ true
  unfolding ranked_order
  head_least d h =
      let ordered = subst IsSorted e (sorted-IsSorted fn_list) in
      elim (Bool-cases (d == head)) [
        | inl same ↦ rw ((ranked_eq.beq_iff d head).0 same) (ranked_le_refl head)
        | inr other ↦ ordered.0 d (ground (arith, member_parts d))
      ]

  rest_of : (d : Definition) → member d fn_list ≡ true → d ≢ head → Memᴰ d rest
  rest_of d h other =
      mem_of_member d rest (ground (arith, member_parts d, ranked_eq.beq_iff d head))

-- the weak definitions after the head, as `link` collects them
abbrev overrides : Text → List Definition → List Sym
overrides name rest = map (λ (d : Definition). (name, d.1)) (filter is_weak rest)

is_weak-IsWeak : (d : Definition) → (is_weak d ≡ true) ↔ IsWeak d
is_weak-IsWeak (prio, file) = ground arith

member-overrides :
    (name : Text) (rest : List Definition) (d : Definition)
    → Memᴰ d rest
    → IsWeak d
    → member (name, d.1) (overrides name rest) ≡ true
member-overrides name rest d m weak =
    member-map (λ (d : Definition). (name, d.1))
      (mem_of_member d (filter is_weak rest)
        (ground (arith, member-filter d is_weak rest, member_of_mem m, is_weak-IsWeak d)))

of_member-overrides :
    (name : Text) (rest : List Definition) (s : Sym)
    → member s (overrides name rest) ≡ true
    → (d : Definition) × (member d rest ≡ true) × IsWeak d × (s ≡ (name, d.1))
of_member-overrides name rest s h =
    let (d, m, same) =
      mem_of_member-map (λ (d : Definition). (name, d.1)) s (filter is_weak rest) h in
    let kept = member_of_mem m in
    (
      d,
      ground (arith, member-filter d is_weak rest),
      ground (arith, member-filter d is_weak rest, is_weak-IsWeak d),
      sym same,
    )

-- Which definition is linked, with the rest of the sorted definitions.
pub link_parts :
    (name : Text) (fn_list : List Definition) (d : Definition)
    → member d fn_list ≡ true
    → (l : Link) × (prio : ℕ) × (rest : List Definition) × (sorted fn_list
        ≡ (prio, l.linked) ∷ rest)
      × (link name fn_list ≡ some l)
      × (member (prio, l.linked) fn_list ≡ true)
      × ((other : Definition)
          → member other fn_list ≡ true
          → ranked_le (prio, l.linked) other ≡ true)
      × ((other : Definition)
          → member other fn_list ≡ true
          → IsWeak other
          → other ≢ (prio, l.linked)
          → member (name, other.1) l.overridden ≡ true)
      × ((s : Sym)
          → member s l.overridden ≡ true
          → (other : Definition) × (member other rest ≡ true)
            × IsWeak other
            × (s ≡ (name, other.1)))
unfolding link
link_parts name fn_list d h =
    let (prio, file, rest, e) = sorted_cases fn_list d h in
    let head : Definition = (prio, file) in
    let parts = member_parts fn_list head rest e in
    (
      record {
        linked = file;
        overridden = overrides name rest;
        warned = not (name == codes "main") && tied prio rest;
      },
      prio,
      rest,
      e,
      rw e refl,
      ground (arith, parts head, ==_refl head),
      head_least fn_list head rest e,
      λ other m weak differ.
          member-overrides name rest other (rest_of fn_list head rest e other m differ) weak,
      of_member-overrides name rest,
    )

-- Of a name with a definition one is linked, where no definition is listed twice. It is one of the
-- definitions, and none comes before it in the order of priority and file. The functions that are
-- marked as overridden are exactly the weak definitions of the name other than that one.
pub link_exact :
    (name : Text) (fn_list : List Definition) (d : Definition)
    → IsDistinct fn_list
    → member d fn_list ≡ true
    → (l : Link) × (prio : ℕ) × (link name fn_list ≡ some l)
      × (member (prio, l.linked) fn_list ≡ true)
      × ((other : Definition)
          → member other fn_list ≡ true
          → ranked_le (prio, l.linked) other ≡ true)
      × ((other : Definition)
          → member other fn_list ≡ true
          → IsWeak other
          → other ≢ (prio, l.linked)
          → member (name, other.1) l.overridden ≡ true)
      × ((s : Sym)
          → member s l.overridden ≡ true
          → (other : Definition) × (member other fn_list ≡ true)
            × IsWeak other
            × (other ≢ (prio, l.linked))
            × (s ≡ (name, other.1)))
link_exact name fn_list d distinct h =
    let (l, prio, rest, e, is_link, own, least, marked, only) = link_parts name fn_list d h in
    let head : Definition = (prio, l.linked) in
    let (apart, _) = subst IsDistinct e (sorted-IsDistinct fn_list distinct) in
    (
      l,
      prio,
      is_link,
      own,
      least,
      marked,
      λ s m.
          let (other, k, weak, same) = only s m in
          (
            other,
            ground (arith, member_parts fn_list head rest e other),
            weak,
            λ q. absurd (cc (k, apart, ap (λ (x : Definition). member x rest) q)),
            same,
          ),
    )

-- Where a name has a strong definition, and no definition has a priority before the strong one, a
-- strong one is linked.
pub link-strong :
    (name file : Text) (fn_list : List Definition)
    → ((d : Definition) → member d fn_list ≡ true → strong ≤ d.0)
    → member (strong, file) fn_list ≡ true
    → (l : Link) × (link name fn_list ≡ some l) × (member (strong, l.linked) fn_list ≡ true)
unfolding ranked_le
link-strong name file fn_list priorities h =
    let (l, prio, _, _, e, m, least, _, _) = link_parts name fn_list (strong, file) h in
    let low = least (strong, file) h in
    let high = priorities (prio, l.linked) m in
    let same : prio ≡ strong = ground arith in
    (l, e, subst (λ p. member (p, l.linked) fn_list ≡ true) same m)
