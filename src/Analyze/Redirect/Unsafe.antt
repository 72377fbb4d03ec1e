-- ===== src/Analyze/Redirect/Unsafe.antt =====
-- The abstract description: an outsider of the file reaches the function through callers of which
-- vmlinux holds a mangled copy or none.
use plugsched.Common.{true, false, some, List, ◌≡◌, ◌⊎◌}
use plugsched.Common.Sets.{member}
use plugsched.Analyze.Meta.{Sym, sym_eq, MetaEdge}
use plugsched.Analyze.Redirect.{CallerClass}
use mathlib.Core.List.{Memᴰ}

module _ (func_class : CallerClass) (edges : List MetaEdge) where
  -- a call of `f` from its own file
  pub record Call (edge : MetaEdge) (f : Sym) : Type 0 where
    pub known : Memᴰ edge edges
    pub callee : edge.to ≡ some f
    pub same_file : f.1 ≡ edge.from.1

  abbrev pub IsOptimised : Sym → Type 0
  IsOptimised s = (member s func_class.mangled ≡ true) ⊎ (member s func_class.in_vmlinux ≡ false)

  pub data Unsafe : Sym → Type 0 where
    direct :
        {f : Sym} (edge : MetaEdge)
        → Call edge f
        → member edge.from func_class.sched_outsider ≡ true
        → Unsafe f
    through :
        {f : Sym} (edge : MetaEdge)
        → Call edge f
        → IsOptimised edge.from
        → Unsafe edge.from
        → Unsafe f
