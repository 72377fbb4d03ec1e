-- ===== src/Analyze/Inflect/Escapes.antt =====
-- The abstract description of what `inflect` takes out: the functions of the initial set that a
-- chain of calls inside that set reaches from a function outside.
use plugsched.Common.{true, false, List, ◌≡◌, ◌⊎◌}
use plugsched.Common.Sets.{member}
use plugsched.Analyze.Meta.{Sym, sym_eq, Edge}
use mathlib.Core.List.{Memᴰ}

module _ (inflect_cut initial : List Sym) (edges : List Edge) where
  pub data Escapes : Sym → Type 0 where
    -- called by a function that is neither an initial insider nor exempt
    outside :
        (edge : Edge)
        → Memᴰ edge edges
        → member edge.from initial ≡ false
        → member edge.from inflect_cut ≡ false
        → {s : Sym} → edge.to ≡ s
        → member s initial ≡ true
        → Escapes s
    -- called by a function that escapes itself and is not exempt
    onward :
        (edge : Edge)
        → Memᴰ edge edges
        → Escapes edge.from
        → member edge.from inflect_cut ≡ false
        → {s : Sym} → edge.to ≡ s
        → member s initial ≡ true
        → Escapes s

-- No call from a function outside the set and the exempt functions leads into the set.
abbrev pub IsClosed : List Sym → List Edge → List Sym → Type 0
IsClosed inflect_cut edges insiders =
    (edge : Edge)
    → Memᴰ edge edges
    → member edge.to insiders ≡ true
    → (member edge.from insiders ≡ true) ⊎ (member edge.from inflect_cut ≡ true)
