-- ===== src/Analyze/Sidecar/Search.antt =====
-- The depth-first search of one file: it ends, and what it adds is closed under the calls that it
-- follows and reachable from its start.
use plugsched.Common.{
  ℕ, zero, suc, ◌<◌, true, false, some, List, [], ◌∷◌, ◌≡◌, ◌∙◌, refl, ◌⊎◌, inl, inr, arith, length,
  filter_map, Bool-cases, Option-cases, subst,
}
use plugsched.Common.Sets.{member, add, diff, Within}
use plugsched.Common.Sets.Laws.{member-add, member-filter_map}
use plugsched.Common.Sets.Sizes.{length-diff_anti, length-diff-add}
use plugsched.Common.Errors.{Result, ok}
use plugsched.Analyze.Meta.{Sym, sym_eq, MetaEdge}
use plugsched.Analyze.Sidecar.{follow, visit, visit_edges, sidecar_dfs}
use plugsched.Analyze.Sidecar.Needed.{Step, follow_exact, Chain, here, next}
use mathlib.Core.List.{Memᴰ}
use mathlib.Core.List.Memᴰ

module _ (edges : List MetaEdge) (in_vmlinux : List Sym) where
  -- the functions that a search from `start` can meet
  abbrev pub universe : Sym → List Sym
  universe start = start ∷ filter_map (λ (edge : MetaEdge). edge.to) edges

  Chain-trans :
      {r s t : Sym}
      → Chain edges in_vmlinux r s
      → Chain edges in_vmlinux s t
      → Chain edges in_vmlinux r t
  Chain-trans p here = p
  Chain-trans p (next q step) = next (Chain-trans p q) step

  -- What a search from `old` to `new` has done: the functions that it added are closed under
  -- `Step`, and each is reached from one that satisfies `From`.
  pub record Grown (old new : List Sym) (From : Sym → Type 0) : Type 0 where
    pub keeps : Within old new
    pub closed :
        (s t : Sym)
        → member s new ≡ true
        → member s old ≡ false
        → Step edges in_vmlinux s t
        → member t new ≡ true
    pub reached :
        (s : Sym)
        → member s new ≡ true
        → (member s old ≡ true) ⊎ ((r : Sym) × From r × Chain edges in_vmlinux r s)

  -- a callee of the edges `es`, for one start
  abbrev Callee : Sym → List MetaEdge → Sym → Type 0
  Callee start es t = (edge : MetaEdge) × Memᴰ edge es × (follow in_vmlinux start edge ≡ some t)

  Grown-refl : (old : List Sym) (From : Sym → Type 0) → Grown old old From
  Grown-refl old From = record {
    keeps = λ s h. h;
    closed = λ s t h k _. absurd (cc);
    reached = λ s h. inl h;
  }

  Grown-trans :
      (old mid new : List Sym) (From : Sym → Type 0)
      → Grown old mid From
      → Grown mid new From
      → Grown old new From
  Grown-trans old mid new From g h = record {
    keeps = λ s m. h.keeps s (g.keeps s m);
    closed = λ s t m out step. elim (Bool-cases (member s mid)) [
      | inl early ↦ h.keeps t (g.closed s t early out step)
      | inr late ↦ h.closed s t m late step
    ];
    reached = λ s m. elim (h.reached s m) [ inl early ↦ g.reached s early | inr late ↦ inr late ];
  }

  Grown_mono :
      (old new : List Sym) (From To : Sym → Type 0)
      → ((s : Sym) → From s → To s)
      → Grown old new From
      → Grown old new To
  Grown_mono old new From To f g = record {
    keeps = g.keeps;
    closed = g.closed;
    reached = λ s m. elim (g.reached s m) [
      | inl early ↦ inl early
      | inr (r, h, chain) ↦ inr (r, f r h, chain)
    ];
  }

  -- What a correct search promises on a budget of `fuel` functions not yet found.
  abbrev Searches : Sym → ℕ → (Sym → List Sym → Result (List Sym)) → Type 0
  Searches root fuel dfs =
      (start : Sym) (old : List Sym)
      → member start (universe root) ≡ true
      → length (diff (universe root) old) < fuel
      → (new : List Sym) × (dfs start old ≡ ok new)
        × Grown old new (λ s. s ≡ start)
        × (member start new ≡ true)

  part_tail :
      (edge : MetaEdge) (es : List MetaEdge)
      → ((e : MetaEdge) → Memᴰ e (edge ∷ es) → Memᴰ e edges)
      → (e : MetaEdge) → Memᴰ e es
      → Memᴰ e edges
  part_tail edge es part e m = part e (Memᴰ.tail m)

  follow-to :
      (start : Sym) (edge : MetaEdge) (t : Sym)
      → follow in_vmlinux start edge ≡ some t
      → edge.to ≡ some t
  unfolding follow
  follow-to start edge t h = ground arith

  callee-universe :
      (root start : Sym) (edge : MetaEdge) (t : Sym)
      → Memᴰ edge edges
      → follow in_vmlinux start edge ≡ some t
      → member t (universe root) ≡ true
  unfolding member
  callee-universe root start edge t m h =
      ground (arith, member-filter_map (λ (e : MetaEdge). e.to) m (follow-to start edge t h))

  module _ (root start : Sym) (fuel : ℕ) (dfs : Sym → List Sym → Result (List Sym)) where
    visit_edges-ends :
        Searches root fuel dfs
        → (es : List MetaEdge) → ((edge : MetaEdge) → Memᴰ edge es → Memᴰ edge edges)
        → (old : List Sym) → length (diff (universe root) old) < fuel
        → (new : List Sym) × (visit_edges dfs in_vmlinux start es old ≡ ok new)
          × Grown old new (Callee start es)
          × ((t : Sym) → Callee start es t → member t new ≡ true)
    unfolding visit_edges
    visit_edges-ends works [] part old h =
        (old, refl, Grown-refl old _, λ t (edge, m, _). absurd (Memᴰ.not-nil m))
    visit_edges-ends works (edge ∷ es) part old h =
        elim (Option-cases (follow in_vmlinux start edge)) [
          | inl stop ↦
              let (new, ends, grown, all) =
                visit_edges-ends works es (part_tail edge es part) old h in
              (
                new,
                rw (stop, visit) ends,
                Grown_mono old new _ _ (λ t (found, m, k). (found, Memᴰ.tail m, k)) grown,
                λ t (found, m, k). elim (Memᴰ.cases_cons m) [
                  | inl at_head ↦ absurd (ground arith)
                  | inr later ↦ all t (found, later, k)
                ],
              )
          | inr (t, go) ↦
              let called = callee-universe root start edge t (part edge (Memᴰ.head refl)) go in
              let (mid, first, grown, has) = works t old called h in
              let (new, ends, grown', all) =
                visit_edges-ends works es (part_tail edge es part) mid
                  (omega (arith, length-diff_anti (universe root) old mid grown.keeps)) in
              (
                new,
                rw (go, visit, first) ends,
                Grown-trans old mid new _
                    (Grown_mono old mid _ _ (λ s e. (edge, Memᴰ.head refl, rw e go)) grown)
                    (Grown_mono mid new _ _ (λ s (found, m, k). (found, Memᴰ.tail m, k)) grown'),
                λ s (found, m, k). elim (Memᴰ.cases_cons m) [
                  | inl at_head ↦ let same : s ≡ t = ground arith in grown'.keeps s (rw same has)
                  | inr later ↦ all s (found, later, k)
                ],
              )
        ]

  -- The visit of the edges of a new start, read as a search from that start.
  Grown_start :
      (start : Sym) (old new : List Sym)
      → Grown (add start old) new (Callee start edges)
      → ((t : Sym) → Callee start edges t → member t new ≡ true)
      → Grown old new (λ s. s ≡ start)
  Grown_start start old new grown all = record {
    keeps = λ s h. grown.keeps s (ground (arith, member-add s start old));
    closed = λ s t h out step. elim (Bool-cases (sym_eq.beq s start)) [
      | inl same ↦
          let (edge, m, call) =
            subst (λ r. Step edges in_vmlinux r t) ((sym_eq.beq_iff s start).0 same) step in
          all t (edge, m, (follow_exact in_vmlinux start t edge).1 call)
      | inr other ↦ grown.closed s t h (ground (arith, member-add s start old)) step
    ];
    reached = λ s h. elim (grown.reached s h) [
      | inl early ↦ elim (Bool-cases (sym_eq.beq s start)) [
        | inl same ↦ let e = (sym_eq.beq_iff s start).0 same in inr (start, refl, rw e here)
        | inr other ↦ inl (ground (arith, member-add s start old))
      ]
      | inr (r, (edge, m, go), chain) ↦
          let step : Step edges in_vmlinux start r =
            (edge, m, (follow_exact in_vmlinux start r edge).0 go) in
          inr (start, refl, Chain-trans (next here step) chain)
    ];
  }

  sidecar_dfs_fresh :
      (fuel : ℕ) (start : Sym) (old : List Sym)
      → member start old ≡ false
      → sidecar_dfs (suc fuel) edges in_vmlinux start old
        ≡ visit_edges (sidecar_dfs fuel edges in_vmlinux) in_vmlinux start edges (add start old)
  unfolding sidecar_dfs
  sidecar_dfs_fresh fuel start old fresh = rw fresh

  pub sidecar_dfs-ends :
      (root : Sym) (fuel : ℕ) → Searches root fuel (sidecar_dfs fuel edges in_vmlinux)
  unfolding sidecar_dfs
  sidecar_dfs-ends root zero start old known h = absurd (omega arith)
  sidecar_dfs-ends root (suc fuel) start old known h = elim (Bool-cases (member start old)) [
    | inl found ↦ (old, rw (found, sidecar_dfs), Grown-refl old _, found)
    | inr fresh ↦
        let (new, ends, grown, all) =
          visit_edges-ends root start fuel (sidecar_dfs fuel edges in_vmlinux)
            (sidecar_dfs-ends root fuel) edges (λ e m. m) (add start old)
            (omega (arith, length-diff-add start (universe root) old known fresh)) in
        (
          new,
          sidecar_dfs_fresh fuel start old fresh ∙ ends,
          Grown_start start old new grown all,
          grown.keeps start
              (ground (arith, member-add start start old, sym_eq.beq_iff start start)),
        )
  ]
