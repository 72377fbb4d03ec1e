-- ===== src/Analyze/Sidecar/Exact.antt =====
-- `sidecar_inflect` finds exactly what the sidecars need.
use plugsched.Common.{
  suc, ◌<◌, true, false, some, List, [], ◌∷◌, ◌++◌, ◌≡◌, ◌∙◌, ap, refl, ◌↔◌, inl, inr, arith,
  length, Bool-cases, List-cases, subst, sym, length-filter_map-le, length-filter-le, not,
}
use plugsched.Common.Sets.{member, diff, Within}
use plugsched.Common.Sets.Laws.{member-diff, member-nil, member-cons, member-cons_self, diff-eq-nil}
use plugsched.Common.Text.{Text, codes, text_eq}
use plugsched.Common.Dict.{Dict, lookup, get_item}
use plugsched.Common.Errors.{ok, err, assertion}
use plugsched.Analyze.Meta.{Sym, sym_eq, MetaEdge}
use plugsched.Analyze.Sidecar.{sidecar_dfs, sidecar_loop, sidecar_inflect, boundary_file}
use plugsched.Analyze.Sidecar.Needed.{Step, Chain, here, next, Needed, itself, callee}
use plugsched.Analyze.Sidecar.Search.{universe, Grown, sidecar_dfs-ends}
use mathlib.Core.Bool.{So-prop}
use mathlib.Core.Logic.{∥∥₁_elim}

Chain-same_file :
    (edges : List MetaEdge) (in_vmlinux : List Sym) {s t : Sym}
    → Chain edges in_vmlinux s t
    → s.1 ≡ t.1
Chain-same_file edges in_vmlinux here = refl
Chain-same_file edges in_vmlinux (next {s} {t} chain (edge, _, (_, _, near, _))) =
    Chain-same_file edges in_vmlinux chain ∙ sym near

-- One search has fuel for every function that it can meet.
length-diff-universe :
    (edges : List MetaEdge) (in_vmlinux : List Sym) (start : Sym) (old : List Sym)
    → length (diff (universe edges in_vmlinux start) old) < suc (suc (length edges))
unfolding diff
length-diff-universe edges in_vmlinux start old = omega (
  arith,
  length-filter-le (λ s. not (member s old)) (universe edges in_vmlinux start),
  length-filter_map-le (λ (edge : MetaEdge). edge.to) edges,
)

module _ (metas_by_name : Dict Text (List MetaEdge)) (in_vmlinux all : List Sym) where
  abbrev Want : Sym → Type 0
  Want = Needed metas_by_name all in_vmlinux

  -- The set between two searches: closed under the calls of the files, and needed.
  record Inv (leftover : List Sym) : Type 0 where
    closed :
        (s t : Sym) (edges : List MetaEdge)
        → member s leftover ≡ true
        → lookup (boundary_file s) metas_by_name ≡ some edges
        → Step edges in_vmlinux s t
        → member t leftover ≡ true
    needed : (s : Sym) → member s leftover ≡ true → Want s

  lookup-Chain :
      (edges : List MetaEdge) {s t : Sym}
      → lookup (boundary_file s) metas_by_name ≡ some edges
      → Chain edges in_vmlinux s t
      → lookup (boundary_file t) metas_by_name ≡ some edges
  lookup-Chain edges found chain =
      subst (λ file. lookup (file ++ codes ".boundary") metas_by_name ≡ some edges)
        (Chain-same_file edges in_vmlinux chain) found

  Chain-Needed :
      (edges : List MetaEdge) {s t : Sym}
      → lookup (boundary_file s) metas_by_name ≡ some edges
      → Want s
      → Chain edges in_vmlinux s t
      → Want t
  Chain-Needed edges found want here = want
  Chain-Needed edges found want (next {s} {t} chain step) =
      callee edges (Chain-Needed edges found want chain) (lookup-Chain edges found chain) step

  search-Inv :
      (edges : List MetaEdge) (start : Sym) (old new : List Sym)
      → lookup (boundary_file start) metas_by_name ≡ some edges
      → Want start
      → Inv old
      → Grown edges in_vmlinux old new (λ s. s ≡ start)
      → Inv new
  search-Inv edges start old new found want inv grown = record {
    closed = λ s t es h k step. elim (Bool-cases (member s old)) [
      | inl early ↦ grown.keeps t (inv.closed s t es early k step)
      | inr late ↦ elim (grown.reached s h) [
        | inl early ↦ absurd (cc (late, early))
        | inr (r, first, chain) ↦
            let from_start = subst (λ r. Chain edges in_vmlinux r s) first chain in
            let known = lookup-Chain edges found from_start in
            let same : es ≡ edges = cc in
            grown.closed s t h late (subst (λ es. Step es in_vmlinux s t) same step)
      ]
    ];
    needed = λ s h. elim (grown.reached s h) [
      | inl early ↦ inv.needed s early
      | inr (r, first, chain) ↦
          Chain-Needed edges found want (subst (λ r. Chain edges in_vmlinux r s) first chain)
    ];
  }

  search_then :
      (sym : Sym) (sidecar leftover mid new : List Sym) (edges : List MetaEdge)
      → lookup (boundary_file sym) metas_by_name ≡ some edges
      → sidecar_dfs (suc (suc (length edges))) edges in_vmlinux sym leftover ≡ ok mid
      → sidecar_loop metas_by_name in_vmlinux sidecar mid ≡ ok new
      → sidecar_loop metas_by_name in_vmlinux (sym ∷ sidecar) leftover ≡ ok new
  unfolding sidecar_loop get_item
  search_then sym sidecar leftover mid new edges found first rest =
      rw (found, get_item) (rw first rest)

  sidecar_loop-ends :
      (sidecar leftover : List Sym)
      → ((s : Sym)
          → member s sidecar ≡ true
          → (edges : List MetaEdge) × (lookup (boundary_file s) metas_by_name ≡ some edges))
      → Within sidecar all
      → Inv leftover
      → (new : List Sym) × (sidecar_loop metas_by_name in_vmlinux sidecar leftover ≡ ok new)
        × Inv new
        × Within leftover new
        × Within sidecar new
  unfolding sidecar_loop
  sidecar_loop-ends [] leftover files part inv =
      (leftover, refl, inv, λ s h. h, λ s h. absurd (cc (member-nil s)))
  sidecar_loop-ends (sym ∷ sidecar) leftover files part inv =
      let (edges, found) = files sym (member-cons_self sym sidecar) in
      let start = part sym (member-cons_self sym sidecar) in
      let (mid, first, grown, has) =
        sidecar_dfs-ends edges in_vmlinux sym (suc (suc (length edges))) sym leftover
          (member-cons_self sym _) (length-diff-universe edges in_vmlinux sym leftover) in
      let (new, ends, inv', keeps, covers) =
        sidecar_loop-ends sidecar mid (λ s h. files s (ground (arith, member-cons s sym sidecar)))
          (λ s h. part s (ground (arith, member-cons s sym sidecar)))
          (search-Inv edges sym leftover mid found (itself start) inv grown) in
      (
        new,
        search_then sym sidecar leftover mid new edges found first ends,
        inv',
        λ s h. keeps s (grown.keeps s h),
        λ s h. elim (Bool-cases (sym_eq.beq s sym)) [
          | inl same ↦ let e = (sym_eq.beq_iff s sym).0 same in keeps s (rw e has)
          | inr other ↦ covers s (ground (arith, member-cons s sym sidecar))
        ],
      )

  start-Inv : Inv []
  start-Inv = record {
    closed = λ s t edges h k step. absurd (cc (member-nil s));
    needed = λ s h. absurd (cc (member-nil s));
  }

  found :
      (new : List Sym)
      → Inv new
      → Within all new
      → {s : Sym} → Needed metas_by_name all in_vmlinux s
      → member s new ≡ true
  found new inv covers (itself {s} h) = covers s h
  found new inv covers (callee {s} {t} edges needed k step) =
      inv.closed s t edges (found new inv covers needed) k step

checked :
    (metas_by_name : Dict Text (List MetaEdge)) (sidecar in_vmlinux new : List Sym)
    → Within sidecar in_vmlinux
    → sidecar_loop metas_by_name in_vmlinux sidecar [] ≡ ok new
    → sidecar_inflect metas_by_name sidecar in_vmlinux ≡ ok new
unfolding sidecar_inflect
checked metas_by_name sidecar in_vmlinux new part ends =
    rw (diff-eq-nil sidecar in_vmlinux part) ends

-- The set is exactly what the sidecars need, and the search for it ends: if every sidecar function
-- has a copy in vmlinux and the metadata of its file were read, the result is some set, and a
-- function is in it if and only if it is a sidecar function or is reached from one by calls, in the
-- metadata of the caller's file, to functions of the same file without a copy in vmlinux.
pub sidecar_inflect_exact :
    (metas_by_name : Dict Text (List MetaEdge)) (sidecar in_vmlinux : List Sym)
    → Within sidecar in_vmlinux
    → ((s : Sym)
        → member s sidecar ≡ true
        → (edges : List MetaEdge) × (lookup (boundary_file s) metas_by_name ≡ some edges))
    → (leftover : List Sym) × (sidecar_inflect metas_by_name sidecar in_vmlinux ≡ ok leftover)
      × ((s : Sym) → (member s leftover ≡ true) ↔ ∥ Needed metas_by_name sidecar in_vmlinux s ∥₁)
sidecar_inflect_exact metas_by_name sidecar in_vmlinux part files =
    let (new, ends, inv, _, covers) =
      sidecar_loop-ends metas_by_name in_vmlinux sidecar sidecar [] files (λ s h. h)
        (start-Inv metas_by_name in_vmlinux sidecar) in
    (
      new,
      checked metas_by_name sidecar in_vmlinux new part ends,
      λ s. (
        λ h. ∣ inv.needed s h ∣₁,
        λ needed.
            ∥∥₁_elim needed (So-prop _) (found metas_by_name in_vmlinux sidecar new inv covers),
      ),
    )

-- A sidecar function that the compiler optimised away is refused.
pub sidecar_inflect_refuses :
    (metas_by_name : Dict Text (List MetaEdge)) (sidecar in_vmlinux : List Sym) (s : Sym)
    → member s sidecar ≡ true
    → member s in_vmlinux ≡ false
    → sidecar_inflect metas_by_name sidecar in_vmlinux ≡ err assertion
unfolding sidecar_inflect
sidecar_inflect_refuses metas_by_name sidecar in_vmlinux s h k =
    elim (List-cases (diff sidecar in_vmlinux)) [
      | inl empty ↦
          absurd
            (ground (arith, member-diff s sidecar in_vmlinux, member-nil s, ap (member s) empty))
      | inr (x, rest, e) ↦ rw e
    ]

-- A search that succeeds was asked about functions of vmlinux only.
pub sidecar_inflect-Within :
    (metas_by_name : Dict Text (List MetaEdge)) (sidecar in_vmlinux leftover : List Sym)
    → sidecar_inflect metas_by_name sidecar in_vmlinux ≡ ok leftover
    → Within sidecar in_vmlinux
sidecar_inflect-Within metas_by_name sidecar in_vmlinux leftover h s m =
    elim (Bool-cases (member s in_vmlinux)) [
      | inl present ↦ present
      | inr absent ↦ cc (sidecar_inflect_refuses metas_by_name sidecar in_vmlinux s m absent)
    ]
