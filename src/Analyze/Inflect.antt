-- ===== src/Analyze/Inflect.antt =====
-- `inflect` of boundary/analyze.py: the functions called from outside the module are taken out of
-- the set of insiders, round by round, until no such function is left.
pub mod Escapes
pub mod Exact
use plugsched.Common.{
  ℕ, zero, suc, Bool, true, false, not, ◌&&◌, Option, none, some, List, [], ◌∷◌, length, filter_map,
  if◌then◌else◌,
}
use plugsched.Common.Sets.{member, union, diff}
use plugsched.Common.Errors.{Result, ok, err, recursion}
use plugsched.Analyze.Meta.{Sym, sym_eq, Edge}

-- the callee of an edge into `insiders` from outside
unfoldable pub inflect_one : List Sym → List Sym → Edge → Option Sym
inflect_one inflect_cut insiders edge =
    if member edge.to insiders
    then (if not (member edge.from (union insiders inflect_cut)) then some edge.to else none)
    else none

-- the `while True` loop
unfoldable pub inflect_loop : ℕ → List Sym → List Edge → List Sym → Result (List Sym)
inflect_loop zero inflect_cut edges insiders = err recursion
inflect_loop (suc fuel) inflect_cut edges insiders =
    let delete_insider = filter_map (inflect_one inflect_cut insiders) edges in
    let rest = inflect_loop fuel inflect_cut edges (diff insiders delete_insider) in
    elim delete_insider [ [] ↦ ok insiders | _ ∷ _ ↦ rest ]

-- Every round but the last deletes an insider, so one round more than there are insiders is enough.
unfoldable pub inflect : List Sym → List Sym → List Edge → Result (List Sym)
inflect inflect_cut initial_insiders edges =
    inflect_loop (suc (length initial_insiders)) inflect_cut edges initial_insiders
