-- ===== src/Collect/Structs/Parents.antt =====
-- The climb from a field access to a named one ends, since the accesses of a statement form a tree.
use plugsched.Common.{
  ℕ, zero, suc, ◌<◌, ◌≤◌, Option, none, some, [], ◌∷◌, ◌≡◌, ◌≢◌, refl, ap, ◌⊎◌, inl, inr, arith,
  Bool-cases, leb, nat_eq, ◌==◌, length, if◌then◌else◌,
}
use plugsched.Common.Text.{Text}
use plugsched.Common.Dict.{lookup}
use plugsched.Common.Errors.{Result, ok}
use plugsched.Collect.Gcc.{ComponentRef}
use plugsched.Collect.Structs.{Parents, climb, named_parent}

-- A parent ranks below the access that it is the parent of.
abbrev pub IsTree : (ℕ → ℕ) → Parents → Type 0
IsTree rank parents =
    (uid : ℕ) (parent : ComponentRef)
    → lookup uid parents ≡ some parent
    → rank parent.uid < rank uid

-- how many keys rank at most so
count_upto : (ℕ → ℕ) → ℕ → Parents → ℕ
count_upto rank r [] = 0
count_upto rank r ((uid, _) ∷ parents) =
    let rest = count_upto rank r parents in if leb (rank uid) r then suc rest else rest

count_upto-le :
    (rank : ℕ → ℕ) (r : ℕ) (parents : Parents) → count_upto rank r parents ≤ length parents
unfolding count_upto
count_upto-le rank r [] = omega arith
count_upto-le rank r ((uid, _) ∷ parents) = ground (arith, count_upto-le rank r parents)

count_upto_mono :
    (rank : ℕ → ℕ) (r s : ℕ) (parents : Parents)
    → r ≤ s
    → count_upto rank r parents ≤ count_upto rank s parents
unfolding count_upto
count_upto_mono rank r s [] h = omega arith
count_upto_mono rank r s ((uid, _) ∷ parents) h = ground (arith, count_upto_mono rank r s parents h)

count_upto-lt :
    (rank : ℕ → ℕ) (r uid : ℕ) (parents : Parents) (parent : ComponentRef)
    → lookup uid parents ≡ some parent
    → r < rank uid
    → count_upto rank r parents < count_upto rank (rank uid) parents
unfolding count_upto lookup
count_upto-lt rank r uid [] parent h lt = absurd (cc)
count_upto-lt rank r uid ((uid', p) ∷ parents) parent h lt = elim (Bool-cases (uid == uid')) [
  | inl same ↦
      let e : uid ≡ uid' = ground arith in
      let rank_eq = ap rank e in
      ground (arith, count_upto_mono rank r (rank uid) parents (omega arith))
  | inr other ↦
      let rest = count_upto-lt rank r uid parents parent (rw other at h) lt in
      ground (arith, count_upto_mono rank r (rank uid) parents (omega arith))
]

-- where a climb ends
abbrev pub IsEnd : Parents → ComponentRef → Type 0
IsEnd parents op = (op.field ≢ none) ⊎ (lookup op.uid parents ≡ none)

climb-IsEnd :
    (parents : Parents) (next : ComponentRef → Result ComponentRef) (op : ComponentRef)
    (field : Option Text) (above : Option ComponentRef)
    → op.field ≡ field
    → lookup op.uid parents ≡ above
    → ((parent : ComponentRef)
        → above ≡ some parent
        → (named : ComponentRef) × (next parent ≡ ok named) × IsEnd parents named)
    → (named : ComponentRef) × (climb next op field above ≡ ok named) × IsEnd parents named
climb-IsEnd parents next op (some name) above f l h = (op, refl, inl (λ e. absurd (cc)))
climb-IsEnd parents next op none none f l h = (op, refl, inr l)
climb-IsEnd parents next op none (some parent) f l h = h parent refl

named_parent-IsEnd :
    (rank : ℕ → ℕ) (rounds : ℕ) (parents : Parents) (op : ComponentRef)
    → IsTree rank parents
    → count_upto rank (rank op.uid) parents < rounds
    → (named : ComponentRef) × (named_parent rounds parents op ≡ ok named) × IsEnd parents named
unfolding named_parent
named_parent-IsEnd rank zero parents op tree lt = absurd (omega arith)
named_parent-IsEnd rank (suc rounds) parents op tree lt =
    climb-IsEnd parents (named_parent rounds parents) op op.field (lookup op.uid parents) refl refl
      (λ parent found.
        let fewer =
          count_upto-lt rank (rank parent.uid) op.uid parents parent found
            (tree op.uid parent found) in
        named_parent-IsEnd rank rounds parents parent tree (omega (arith, fewer)))

-- Where every parent can be ranked below the access that it belongs to, the climb ends within the
-- rounds given, at an access whose field has a name or that has no parent.
pub named_parent_ends :
    (rank : ℕ → ℕ) (parents : Parents) (op : ComponentRef)
    → IsTree rank parents
    → (named : ComponentRef) × (named_parent (suc (length parents)) parents op ≡ ok named)
      × IsEnd parents named
named_parent_ends rank parents op tree =
    named_parent-IsEnd rank (suc (length parents)) parents op tree
      (omega (arith, count_upto-le rank (rank op.uid) parents))
