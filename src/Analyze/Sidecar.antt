-- ===== src/Analyze/Sidecar.antt =====
-- `sidecar_inflect` and `__sidecar_dfs` of boundary/analyze.py: the functions that a sidecar needs
-- in its file because the compiler left no copy of them in vmlinux.
pub mod Needed
pub mod Search
pub mod Exact
use plugsched.Common.{
  ℕ, zero, suc, Bool, true, false, not, ◌&&◌, Option, none, some, List, [], ◌∷◌, ◌++◌, length,
  filter_map, if◌then◌else◌, ◌==◌,
}
use plugsched.Common.Sets.{member, add, diff, is_empty}
use plugsched.Common.Text.{Text, codes, text_eq}
use plugsched.Common.Dict.{Dict, get_item}
use plugsched.Common.Errors.{Result, ok, err, recursion, assert, ◌>>=◌, ◌>>◌}
use plugsched.Analyze.Meta.{Sym, sym_eq, MetaEdge}

-- the callee to which the search goes on from `start_sym` along an edge
unfoldable pub follow : List Sym → Sym → MetaEdge → Option Sym
follow in_vmlinux start_sym edge = elim (edge.to) [
  | none ↦ none
  | some to_sym ↦
      if edge.from == start_sym && (to_sym.1 == start_sym.1 && not (member to_sym in_vmlinux))
      then some to_sym
      else none
]

-- one round of the `for` loop
abbrev pub visit : (Sym → List Sym → Result (List Sym)) → Option Sym → List Sym → Result (List Sym)
visit dfs none leftover = ok leftover
visit dfs (some to_sym) leftover = dfs to_sym leftover

unfoldable pub visit_edges :
    (Sym → List Sym → Result (List Sym))
    → List Sym
    → Sym
    → List MetaEdge
    → List Sym
    → Result (List Sym)
visit_edges dfs in_vmlinux start_sym [] leftover = ok leftover
visit_edges dfs in_vmlinux start_sym (edge ∷ edges) leftover = do
  leftover' ← visit dfs (follow in_vmlinux start_sym edge) leftover
  visit_edges dfs in_vmlinux start_sym edges leftover'

-- The set `leftover` that the calls share is passed through them.
unfoldable pub sidecar_dfs : ℕ → List MetaEdge → List Sym → Sym → List Sym → Result (List Sym)
sidecar_dfs zero edges in_vmlinux start_sym leftover = err recursion
sidecar_dfs (suc fuel) edges in_vmlinux start_sym leftover =
    if member start_sym leftover
    then ok leftover
    else visit_edges (sidecar_dfs fuel edges in_vmlinux) in_vmlinux start_sym edges
        (add start_sym leftover)

-- `sym[1] + '.boundary'`
abbrev pub boundary_file : Sym → Text
boundary_file sym = sym.1 ++ codes ".boundary"

-- The calls nest no deeper than there are functions to find: the start and a callee of each edge.
unfoldable pub sidecar_loop :
    Dict Text (List MetaEdge) → List Sym → List Sym → List Sym → Result (List Sym)
sidecar_loop metas_by_name in_vmlinux [] leftover = ok leftover
sidecar_loop metas_by_name in_vmlinux (sym ∷ sidecar) leftover = do
  edges ← get_item (boundary_file sym) metas_by_name
  leftover' ← sidecar_dfs (suc (suc (length edges))) edges in_vmlinux sym leftover
  sidecar_loop metas_by_name in_vmlinux sidecar leftover'

unfoldable pub sidecar_inflect : Dict Text (List MetaEdge) → List Sym → List Sym → Result (List Sym)
sidecar_inflect metas_by_name sidecar in_vmlinux = do
  assert (is_empty (diff sidecar in_vmlinux))
  sidecar_loop metas_by_name in_vmlinux sidecar []
