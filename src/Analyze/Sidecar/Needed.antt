-- ===== src/Analyze/Sidecar/Needed.antt =====
-- The abstract description of what a sidecar needs: its own functions, and what those call, step
-- by step, in their file and with no copy in vmlinux.
use plugsched.Common.{
  ◌≡◌, some, true, false, List, ◌↔◌, Option-cases, inl, inr, some-injective, ap, arith,
}
use plugsched.Common.Sets.{member}
use plugsched.Common.Text.{Text, text_eq}
use plugsched.Common.Dict.{Dict, lookup}
use plugsched.Analyze.Meta.{Sym, sym_eq, MetaEdge}
use plugsched.Analyze.Sidecar.{follow, boundary_file}
use mathlib.Core.List.{Memᴰ}

-- an edge is a call from `s` to `t`, which stands in the file of `s` and not in vmlinux
abbrev pub IsCallee : List Sym → Sym → Sym → MetaEdge → Type 0
IsCallee in_vmlinux s t edge =
    (edge.from ≡ s) × (edge.to ≡ some t) × (t.1 ≡ s.1) × (member t in_vmlinux ≡ false)

abbrev pub Step : List MetaEdge → List Sym → Sym → Sym → Type 0
Step edges in_vmlinux s t = (edge : MetaEdge) × Memᴰ edge edges × IsCallee in_vmlinux s t edge

pub follow_exact :
    (in_vmlinux : List Sym) (s t : Sym) (edge : MetaEdge)
    → (follow in_vmlinux s edge ≡ some t) ↔ IsCallee in_vmlinux s t edge
unfolding follow
follow_exact in_vmlinux s t edge = elim (Option-cases (edge.to)) [
  | inl nowhere ↦ rw nowhere (λ h. absurd (cc), λ (_, to, _, _). absurd (cc))
  | inr (u, e) ↦ rw e (
    λ h. ground (arith, sym_eq.beq_iff edge.from s, text_eq.beq_iff u.1 s.1),
    λ (from, to, near, absent).
        let same : u ≡ t = some-injective to in
        ground
          (arith, sym_eq.beq_iff edge.from s, text_eq.beq_iff u.1 s.1, ap (λ (x : Sym). x.1) same),
  )
]

pub data Chain (edges : List MetaEdge) (in_vmlinux : List Sym) (start : Sym) : Sym → Type 0 where
  here : Chain edges in_vmlinux start start
  next :
      {s t : Sym}
      → Chain edges in_vmlinux start s
      → Step edges in_vmlinux s t
      → Chain edges in_vmlinux start t

pub data Needed (metas_by_name : Dict Text (List MetaEdge)) (sidecar in_vmlinux : List Sym)
    : Sym → Type 0 where
  itself : {s : Sym} → member s sidecar ≡ true → Needed metas_by_name sidecar in_vmlinux s
  callee :
      {s t : Sym} (edges : List MetaEdge)
      → Needed metas_by_name sidecar in_vmlinux s
      → lookup (boundary_file s) metas_by_name ≡ some edges
      → Step edges in_vmlinux s t
      → Needed metas_by_name sidecar in_vmlinux t
