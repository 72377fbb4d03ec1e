-- ===== src/Analyze/Redirect/Verdict.antt =====
-- The verdicts of `check_redirect_mangled` are right, it reaches one where the optimised callers
-- form no cycle, and on a cycle of them it reaches none.
use plugsched.Common.{
  ℕ, zero, suc, ◌<◌, Bool, true, false, List, [], ◌∷◌, ◌≡◌, ◌≢◌, refl, ap, ◌↔◌, ◌⊎◌, inl, inr,
  arith, Bool-cases, Option-cases,
}
use plugsched.Common.Sets.{member}
use plugsched.Common.Text.{text_eq}
use plugsched.Common.Errors.{Result, Result-cases, ok}
use plugsched.Analyze.Meta.{Sym, sym_eq, MetaEdge}
use plugsched.Analyze.Redirect.{
  CallerClass, Finding, pass, unsafe, ask, judge, check_edges, check_redirect_mangled,
}
use plugsched.Analyze.Redirect.Unsafe.{Call, IsOptimised, Unsafe, direct, through}
use mathlib.Core.HLevel.{⊥_prop}
use mathlib.Core.Logic.{∥∥₁_elim}
use mathlib.Core.List.{Memᴰ}
use mathlib.Core.List.Memᴰ

Finding-cases : (v : Finding) → (v ≡ pass) ⊎ (v ≡ unsafe) ⊎ ((s : Sym) × (v ≡ ask s))
Finding-cases pass = inl refl
Finding-cases unsafe = inr (inl refl)
Finding-cases (ask s) = inr (inr (s, refl))

module _ (func_class : CallerClass) (edges : List MetaEdge) where
  judge-eq-unsafe :
      (f : Sym) (edge : MetaEdge)
      → Memᴰ edge edges
      → judge func_class f edge ≡ unsafe
      → Call func_class edges edge f × (member edge.from func_class.sched_outsider ≡ true)
  unfolding judge
  judge-eq-unsafe f edge m h = elim (Option-cases edge.to) [
    | inl unknown ↦ absurd (ground arith)
    | inr (t, e) ↦
        let same = sym_eq.beq_iff t f in
        let file = text_eq.beq_iff t.1 edge.from.1 in
        (record { known = m; callee = ground arith; same_file = ground arith }, ground arith)
  ]

  judge-eq-ask :
      (f s : Sym) (edge : MetaEdge)
      → Memᴰ edge edges
      → judge func_class f edge ≡ ask s
      → (edge.from ≡ s) × Call func_class edges edge f × IsOptimised func_class edges s
  unfolding judge
  judge-eq-ask f s edge m h = elim (Option-cases edge.to) [
    | inl unknown ↦ absurd (ground arith)
    | inr (t, e) ↦
        let same = sym_eq.beq_iff t f in
        let file = text_eq.beq_iff t.1 edge.from.1 in
        (
          ground arith,
          record { known = m; callee = ground arith; same_file = ground arith },
          ground arith,
        )
  ]

  -- A call from an optimised caller is passed over by no branch.
  judge-Call :
      (f : Sym) (edge : MetaEdge)
      → Call func_class edges edge f
      → IsOptimised func_class edges edge.from
      → (judge func_class f edge ≡ unsafe) ⊎ (judge func_class f edge ≡ ask edge.from)
  unfolding judge
  judge-Call f edge call optimised =
      ground (arith, sym_eq.beq_iff f f, text_eq.beq_iff f.1 edge.from.1)

  judge_outsider :
      (f : Sym) (edge : MetaEdge)
      → Call func_class edges edge f
      → member edge.from func_class.sched_outsider ≡ true
      → judge func_class f edge ≡ unsafe
  unfolding judge
  judge_outsider f edge call h = ground (arith, sym_eq.beq_iff f f, text_eq.beq_iff f.1 edge.from.1)

  check_edges_found :
      (check : Sym → Result Bool) (f : Sym) (es : List MetaEdge)
      → check_edges func_class check f es ≡ ok true
      → (edge : MetaEdge) × Memᴰ edge es
        × ((judge func_class f edge ≡ unsafe)
            ⊎ ((s : Sym) × (judge func_class f edge ≡ ask s) × (check s ≡ ok true)))
  unfolding check_edges
  check_edges_found check f [] h = absurd (cc)
  check_edges_found check f (edge ∷ es) h = elim (Finding-cases (judge func_class f edge)) [
    | inl e ↦ later (check_edges_found check f es (ground arith))
    | inr (inl e) ↦ (edge, Memᴰ.head refl, inl e)
    | inr (inr (s, e)) ↦ elim (Result-cases (check s)) [
      | inl (true, c) ↦ (edge, Memᴰ.head refl, inr (s, e, c))
      | inl (false, c) ↦ later (check_edges_found check f es (ground arith))
      | inr (x, c) ↦ absurd (ground arith)
    ]
  ]
    where
      later :
          (edge' : MetaEdge) × Memᴰ edge' es
            × ((judge func_class f edge' ≡ unsafe)
                ⊎ ((s : Sym) × (judge func_class f edge' ≡ ask s) × (check s ≡ ok true)))
          → (edge' : MetaEdge) × Memᴰ edge' (edge ∷ es)
            × ((judge func_class f edge' ≡ unsafe)
                ⊎ ((s : Sym) × (judge func_class f edge' ≡ ask s) × (check s ≡ ok true)))
      later (edge', m, why) = (edge', Memᴰ.tail m, why)

  clear_head :
      (check : Sym → Result Bool) (f : Sym) (edge : MetaEdge) (es : List MetaEdge)
      → check_edges func_class check f (edge ∷ es) ≡ ok false
      → (judge func_class f edge ≢ unsafe)
        × ((s : Sym) → judge func_class f edge ≡ ask s → check s ≡ ok false)
  unfolding check_edges
  clear_head check f edge es h = (
    λ e. absurd (ground arith),
    λ s e. elim (Result-cases (check s)) [
      | inl (true, c) ↦ absurd (ground arith)
      | inl (false, c) ↦ c
      | inr (x, c) ↦ absurd (ground arith)
    ],
  )

  clear_tail :
      (check : Sym → Result Bool) (f : Sym) (edge : MetaEdge) (es : List MetaEdge)
      → check_edges func_class check f (edge ∷ es) ≡ ok false
      → check_edges func_class check f es ≡ ok false
  unfolding check_edges
  clear_tail check f edge es h = elim (Finding-cases (judge func_class f edge)) [
    | inl e ↦ ground arith
    | inr (inl e) ↦ absurd (ground arith)
    | inr (inr (s, e)) ↦ elim (Result-cases (check s)) [
      | inl (true, c) ↦ absurd (ground arith)
      | inl (false, c) ↦ ground arith
      | inr (x, c) ↦ absurd (ground arith)
    ]
  ]

  check_edges_clear :
      (check : Sym → Result Bool) (f : Sym) (es : List MetaEdge)
      → check_edges func_class check f es ≡ ok false
      → {edge : MetaEdge} → Memᴰ edge es
      → (judge func_class f edge ≢ unsafe)
        × ((s : Sym) → judge func_class f edge ≡ ask s → check s ≡ ok false)
  unfolding check_edges
  check_edges_clear check f [] h m = absurd (Memᴰ.not-nil m)
  check_edges_clear check f (edge ∷ es) h (Memᴰ.head same) = rw same (clear_head check f edge es h)
  check_edges_clear check f (edge ∷ es) h (Memᴰ.tail m) =
      check_edges_clear check f es (clear_tail check f edge es h) m

  check_edges-ends :
      (check : Sym → Result Bool) (f : Sym) (es : List MetaEdge)
      → ((edge : MetaEdge) (s : Sym)
          → Memᴰ edge es
          → judge func_class f edge ≡ ask s
          → (b : Bool) × (check s ≡ ok b))
      → (b : Bool) × (check_edges func_class check f es ≡ ok b)
  unfolding check_edges
  check_edges-ends check f [] h = (false, refl)
  check_edges-ends check f (edge ∷ es) h =
      let (b, rest) = check_edges-ends check f es (λ edge' s m. h edge' s (Memᴰ.tail m)) in
      elim (Finding-cases (judge func_class f edge)) [
        | inl e ↦ (b, ground arith)
        | inr (inl e) ↦ (true, ground arith)
        | inr (inr (s, e)) ↦
            let (found, c) = h edge s (Memᴰ.head refl) e in
            elim (Bool-cases found) [
              | inl yes_found ↦ (true, ground arith)
              | inr not_found ↦ (b, ground arith)
            ]
      ]

  -- A verdict tells whether the function is unsafe.
  found_Unsafe :
      (fuel : ℕ) (f : Sym)
      → check_redirect_mangled func_class edges fuel f ≡ ok true
      → Unsafe func_class edges f
  unfolding check_redirect_mangled
  found_Unsafe zero f h = absurd (cc)
  found_Unsafe (suc fuel) f h =
      let (edge, m, why) =
        check_edges_found (check_redirect_mangled func_class edges fuel) f edges h in
      elim why [
        | inl e ↦ let (call, out) = judge-eq-unsafe f edge m e in direct edge call out
        | inr (s, e, found) ↦
            let (same, call, optimised) = judge-eq-ask f s edge m e in
            through edge call (rw same optimised) (rw same (found_Unsafe fuel s found))
      ]

  pub clear_safe :
      (fuel : ℕ) {f : Sym}
      → check_redirect_mangled func_class edges fuel f ≡ ok false
      → ¬ Unsafe func_class edges f
  unfolding check_redirect_mangled
  clear_safe zero h p = cc
  clear_safe (suc fuel) {f} h (direct edge call out) =
      let (clear, _) =
        check_edges_clear (check_redirect_mangled func_class edges fuel) f edges h call.known in
      clear (judge_outsider f edge call out)
  clear_safe (suc fuel) {f} h (through edge call optimised p) =
      let (clear, asked) =
        check_edges_clear (check_redirect_mangled func_class edges fuel) f edges h call.known in
      elim (judge-Call f edge call optimised) [
        | inl e ↦ clear e
        | inr e ↦ clear_safe fuel (asked edge.from e) p
      ]

-- A verdict is right at every depth of recursion: it is True exactly when an outsider of the file
-- reaches the function through optimised callers.
pub check_redirect_mangled_exact :
    (func_class : CallerClass) (edges : List MetaEdge) (fuel : ℕ) (f : Sym) (b : Bool)
    → check_redirect_mangled func_class edges fuel f ≡ ok b
    → (b ≡ true) ↔ ∥ Unsafe func_class edges f ∥₁
check_redirect_mangled_exact func_class edges fuel f true h =
    (λ _. ∣ found_Unsafe func_class edges fuel f h ∣₁, λ _. refl)
check_redirect_mangled_exact func_class edges fuel f false h =
    (λ e. absurd (cc), λ p. absurd (∥∥₁_elim p ⊥_prop (clear_safe func_class edges fuel h)))

-- Where the optimised callers in a file can be ranked, each below the function that it calls, the
-- recursion ends within as many levels as the rank.
pub check_redirect_mangled_ends :
    (func_class : CallerClass) (edges : List MetaEdge) (rank : Sym → ℕ)
    → ((edge : MetaEdge) (f : Sym)
        → Call func_class edges edge f
        → IsOptimised func_class edges edge.from
        → rank edge.from < rank f)
    → (fuel : ℕ) (f : Sym) → rank f < fuel
    → (b : Bool) × (check_redirect_mangled func_class edges fuel f ≡ ok b)
unfolding check_redirect_mangled
check_redirect_mangled_ends func_class edges rank falls zero f h = absurd (omega arith)
check_redirect_mangled_ends func_class edges rank falls (suc fuel) f h =
    check_edges-ends func_class edges (check_redirect_mangled func_class edges fuel) f edges
      λ edge s m e.
        let (same, call, optimised) = judge-eq-ask func_class edges f s edge m e in
        check_redirect_mangled_ends func_class edges rank falls fuel s
          (omega (arith, falls edge f call (rw same optimised), ap rank same))

-- On functions that are safe, and of which each is called by an optimised one of them in its file,
-- the recursion reaches no verdict at any depth.
pub check_redirect_mangled_diverges :
    (func_class : CallerClass) (edges : List MetaEdge) (ring : List Sym)
    → ((f : Sym)
        → member f ring ≡ true
        → (edge : MetaEdge) × Call func_class edges edge f
          × IsOptimised func_class edges edge.from
          × (member edge.from ring ≡ true))
    → ((f : Sym) → member f ring ≡ true → ¬ Unsafe func_class edges f)
    → (fuel : ℕ) (f : Sym) (b : Bool) → member f ring ≡ true
    → check_redirect_mangled func_class edges fuel f ≢ ok b
unfolding check_redirect_mangled
check_redirect_mangled_diverges func_class edges ring cycle safe zero f b m h = cc
check_redirect_mangled_diverges func_class edges ring cycle safe (suc fuel) f true m h =
    safe f m (found_Unsafe func_class edges (suc fuel) f h)
check_redirect_mangled_diverges func_class edges ring cycle safe (suc fuel) f false m h =
    let (edge, call, optimised, inside) = cycle f m in
    let (clear, asked) =
      check_edges_clear func_class edges (check_redirect_mangled func_class edges fuel) f edges h
        call.known in
    elim (judge-Call func_class edges f edge call optimised) [
      | inl e ↦ clear e
      | inr e ↦
          check_redirect_mangled_diverges func_class edges ring cycle safe fuel edge.from false
            inside (asked edge.from e)
    ]
