-- ===== src/Analyze/Inflect/Exact.antt =====
-- `inflect` ends, and what it leaves is the initial set without the functions that escape.
use plugsched.Common.{
  ℕ, zero, suc, ◌<◌, true, false, List, [], ◌∷◌, ◌≡◌, ◌↔◌, ◌⊎◌, inl, inr, arith, length, filter_map,
  none, some, Bool-cases, List-cases, Option-cases, subst,
}
use plugsched.Common.Sets.{member, diff, Within}
use plugsched.Common.Sets.Laws.{
  member-union, member-diff, member-cons_self, mem_of_member-filter_map,
}
use plugsched.Common.Sets.Sizes.{length-diff-lt}
use plugsched.Common.Errors.{ok}
use plugsched.Analyze.Meta.{Sym, sym_eq, Edge}
use plugsched.Analyze.Inflect.{inflect_one, inflect_loop, inflect}
use plugsched.Analyze.Inflect.Escapes.{Escapes, outside, onward, IsClosed}
use mathlib.Core.List.Memᴰ

-- what a deletion rests on
inflect_one-eq-some :
    (cut insiders : List Sym) (edge : Edge) {s : Sym}
    → inflect_one cut insiders edge ≡ some s
    → (edge.to ≡ s)
      × (member s insiders ≡ true)
      × (member edge.from insiders ≡ false)
      × (member edge.from cut ≡ false)
unfolding inflect_one
inflect_one-eq-some cut insiders edge h = ground (arith, member-union edge.from insiders cut)

inflect_one-eq-none :
    (cut insiders : List Sym) (edge : Edge)
    → inflect_one cut insiders edge ≡ none
    → member edge.to insiders ≡ true
    → (member edge.from insiders ≡ true) ⊎ (member edge.from cut ≡ true)
unfolding inflect_one
inflect_one-eq-none cut insiders edge h m = ground (arith, member-union edge.from insiders cut)

-- Where nothing is deleted, the set is closed.
IsClosed-of_none :
    (cut insiders : List Sym) (edges : List Edge)
    → filter_map (inflect_one cut insiders) edges ≡ []
    → IsClosed cut edges insiders
unfolding filter_map
IsClosed-of_none cut insiders [] h edge m = absurd (Memᴰ.not-nil m)
IsClosed-of_none cut insiders (e ∷ edges) h edge m =
    elim (Option-cases (inflect_one cut insiders e)) [
      | inl skipped ↦ elim (Memᴰ.cases_cons m) [
        | inl here ↦ rw here (inflect_one-eq-none cut insiders e skipped)
        | inr there ↦ IsClosed-of_none cut insiders edges (rw (skipped, filter_map) at h) edge there
      ]
      | inr (t, kept) ↦ absurd (ground arith)
    ]

module _ (cut initial : List Sym) (edges : List Edge) where
  -- The set of a round: a part of the initial set that lost only functions that escape.
  record Inv (insiders : List Sym) : Type 0 where
    part : Within insiders initial
    lost :
        (s : Sym)
        → member s initial ≡ true
        → member s insiders ≡ false
        → Escapes cut initial edges s

  deleted-Escapes :
      (insiders : List Sym) (s : Sym)
      → Inv insiders
      → member s (filter_map (inflect_one cut insiders) edges) ≡ true
      → Escapes cut initial edges s
  deleted-Escapes insiders s inv h =
      let (edge, m, k) = mem_of_member-filter_map (inflect_one cut insiders) s edges h in
      let (callee, inside, caller, exempt) = inflect_one-eq-some cut insiders edge k in
      elim (Bool-cases (member edge.from initial)) [
        | inl known ↦
            onward edge m (inv.lost edge.from known caller) exempt callee (inv.part s inside)
        | inr unknown ↦ outside edge m unknown exempt callee (inv.part s inside)
      ]

  Inv-diff :
      (insiders : List Sym)
      → Inv insiders
      → Inv (diff insiders (filter_map (inflect_one cut insiders) edges))
  Inv-diff insiders inv =
      let gone = filter_map (inflect_one cut insiders) edges in
      record {
        part = λ s h. ground (arith, member-diff s insiders gone, inv.part s);
        lost = λ s h k. elim (Bool-cases (member s insiders)) [
          | inl inside ↦
              deleted-Escapes insiders s inv (ground (arith, member-diff s insiders gone))
          | inr out ↦ inv.lost s h out
        ];
      }

  inflect_loop-ends :
      (fuel : ℕ) (insiders : List Sym)
      → length insiders < fuel
      → Inv insiders
      → (r : List Sym) × (inflect_loop fuel cut edges insiders ≡ ok r)
        × Inv r
        × IsClosed cut edges r
  unfolding inflect_loop
  inflect_loop-ends zero insiders h inv = absurd (omega arith)
  inflect_loop-ends (suc fuel) insiders h inv =
      let gone = filter_map (inflect_one cut insiders) edges in
      elim (List-cases gone) [
        | inl empty ↦
            (insiders, rw (empty, inflect_loop), inv, IsClosed-of_none cut insiders edges empty)
        | inr (s, more, e) ↦
            let deleted : member s gone ≡ true = rw e (member-cons_self s more) in
            let (edge, _, k) =
              mem_of_member-filter_map (inflect_one cut insiders) s edges deleted in
            let (_, inside, _, _) = inflect_one-eq-some cut insiders edge k in
            let (r, ends, kept, closed) =
              inflect_loop-ends fuel (diff insiders gone)
                (omega (arith, length-diff-lt s insiders gone inside deleted))
                (Inv-diff insiders inv) in
            (r, rw (e, inflect_loop) ends, kept, closed)
      ]

  -- A closed part of the initial set holds no function that escapes.
  not-Escapes_of_closed :
      (r : List Sym)
      → Within r initial
      → IsClosed cut edges r
      → (s : Sym) → Escapes cut initial edges s
      → member s r ≡ false
  not-Escapes_of_closed r part closed s (outside edge m unknown exempt callee _) =
      ground (arith, closed edge m, part edge.from)
  not-Escapes_of_closed r part closed s (onward edge m p exempt callee _) =
      ground (arith, closed edge m, not-Escapes_of_closed r part closed edge.from p)

  start-Inv : Inv initial
  start-Inv = record { part = λ s h. h; lost = λ s h k. absurd (cc) }

  inflect_ends : (r : List Sym) × (inflect cut initial edges ≡ ok r) × Inv r × IsClosed cut edges r
  unfolding inflect
  inflect_ends = inflect_loop-ends (suc (length initial)) initial (omega arith) start-Inv

  inflect-eq-ok : (r : List Sym) → inflect cut initial edges ≡ ok r → Inv r × IsClosed cut edges r
  inflect-eq-ok r h =
      let (t, ends, inv, closed) = inflect_ends in
      let same : t ≡ r = cc in (subst Inv same inv, subst (IsClosed cut edges) same closed)

-- `inflect` ends within its rounds. What it leaves is exactly the part of the initial set that does
-- not escape: that no chain of calls inside the set reaches from a function which is neither in it nor
-- exempt. Every call into what it leaves is from there or from an exempt function.
pub inflect_exact :
    (cut initial : List Sym) (edges : List Edge)
    → (r : List Sym) × (inflect cut initial edges ≡ ok r)
      × ((s : Sym)
          → (member s r ≡ true) ↔ ((member s initial ≡ true) × ¬ Escapes cut initial edges s))
      × IsClosed cut edges r
inflect_exact cut initial edges =
    let (r, ends, inv, closed) = inflect_ends cut initial edges in
    let stays = not-Escapes_of_closed cut initial edges r inv.part closed in
    (
      r,
      ends,
      λ s. (
        λ h. (inv.part s h, λ escapes. cc (stays s escapes)),
        λ (h, safe). elim (Bool-cases (member s r)) [
          | inl kept ↦ kept
          | inr out ↦ absurd (safe (inv.lost s h out))
        ],
      ),
      closed,
    )

-- The result is the greatest set of its kind: it holds every part of the initial set into which no
-- function outside that part calls, the exempt functions apart.
pub inflect_greatest :
    (cut initial : List Sym) (edges : List Edge) (r part : List Sym)
    → inflect cut initial edges ≡ ok r
    → Within part initial
    → IsClosed cut edges part
    → Within part r
inflect_greatest cut initial edges r part h within closed s m =
    let (inv, _) = inflect-eq-ok cut initial edges r h in
    elim (Bool-cases (member s r)) [
      | inl kept ↦ kept
      | inr out ↦
          let escapes = inv.lost s (within s m) out in
          cc (not-Escapes_of_closed cut initial edges part within closed s escapes)
    ]

-- Every insider is called by insiders and exempt functions only.
pub inflect-IsClosed :
    (cut initial : List Sym) (edges : List Edge) (r : List Sym)
    → inflect cut initial edges ≡ ok r
    → Within r initial × IsClosed cut edges r
inflect-IsClosed cut initial edges r h =
    let (inv, closed) = inflect-eq-ok cut initial edges r h in (inv.part, closed)
