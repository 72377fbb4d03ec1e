-- ===== src/Analyze/Redirect.antt =====
-- `check_redirect_mangled` of boundary/analyze.py: whether the redirection of a function could be
-- bypassed by a caller that goes to a mangled copy of it.
pub mod Unsafe
pub mod Verdict
use plugsched.Common.{
  ℕ, zero, suc, Bool, true, false, not, ◌||◌, Option, none, some, List, [], ◌∷◌, if◌then◌else◌,
  ◌==◌,
}
use plugsched.Common.Sets.{member}
use plugsched.Common.Text.{text_eq}
use plugsched.Common.Errors.{Result, ok, err, recursion, ◌>>=◌}
use plugsched.Analyze.Meta.{Sym, sym_eq, MetaEdge}

-- the sets of `func_class` that the function reads
pub record CallerClass : Type 0 where
  pub sched_outsider : List Sym
  pub mangled : List Sym
  pub in_vmlinux : List Sym

-- What the body of the loop does with an edge: `continue`, `return True`, or ask about the caller.
pub data Finding : Type 0 where
  pass : Finding
  unsafe : Finding
  ask : Sym → Finding

unfoldable pub judge : CallerClass → Sym → MetaEdge → Finding
judge func_class f edge = elim (edge.to) [
  | none ↦ pass
  | some to_sym ↦
      if not (to_sym == f) || not (to_sym.1 == edge.from.1)
      then pass
      else if member edge.from func_class.sched_outsider
      then unsafe
      else if member edge.from func_class.mangled || not (member edge.from func_class.in_vmlinux)
      then ask edge.from
      else pass
]

unfoldable pub check_edges : CallerClass → (Sym → Result Bool) → Sym → List MetaEdge → Result Bool
check_edges func_class check f [] = ok false
check_edges func_class check f (edge ∷ edges) =
    let rest = check_edges func_class check f edges in
    elim (judge func_class f edge) [
      | pass ↦ rest
      | unsafe ↦ ok true
      | ask caller ↦ check caller >>= λ found. if found then ok true else rest
    ]

-- `fuel` bounds the depth of the recursion, which the program leaves to the interpreter.
unfoldable pub check_redirect_mangled : CallerClass → List MetaEdge → ℕ → Sym → Result Bool
check_redirect_mangled func_class edges zero f = err recursion
check_redirect_mangled func_class edges (suc fuel) f =
    check_edges func_class (check_redirect_mangled func_class edges fuel) f edges
