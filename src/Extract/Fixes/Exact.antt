-- ===== src/Extract/Fixes/Exact.antt =====
-- What `fix_up` makes of each line.
use plugsched.Common.{
  ℕ, zero, suc, ◌+◌, ◌<◌, ◌≤◌, true, false, some, List, [], ◌≡◌, ◌∙◌, refl, sym, ap, subst, inl,
  inr, arith, some-injective, length,
}
use plugsched.Common.Text.{Text}
use plugsched.Common.Errors.{ok, >>=-eq-ok, ok-injective}
use plugsched.Extract.Lines.{get_elem?, set_line}
use plugsched.Extract.Lines.Access.{
  get_elem?-lt, lt_of_get_elem?, get_elem?-set_line_self, get_elem?-set_line_other, length-set_line,
}
use plugsched.Extract.Lines.Up.{le_or_lt}
use plugsched.Extract.Lines.Closes.{Closes-eq, Merges}
use plugsched.Extract.Fixes.{Extraction, fix_line, fix_lines, fix_up}
use plugsched.Extract.Fixes.Cases.{fix_line_cases, fix_line_blank}
use plugsched.Extract.Fixes.Reached.{
  is_init_definition, IsFix, Reached, top, next, past, IsSwallowed, IsFixed,
}

module _ (config : Extraction) (orig : List Text) where
  -- Before the round for the line `i`: the lines up to `b` were swallowed, those from `b` on are as
  -- they were.
  record State (i b : ℕ) (lines : List Text) : Type 0 where
    low : i ≤ b
    reached : Reached orig b
    size : length lines ≡ length orig
    swallowed : (k : ℕ) → i ≤ k → k < b → (get_elem? lines k ≡ some []) × IsSwallowed orig k
    kept : (k : ℕ) → b ≤ k → get_elem? lines k ≡ get_elem? orig k

  -- what is known after the round for the line `i`
  record Round (i : ℕ) (line : Text) (lines lines' : List Text) : Type 0 where
    above : (k : ℕ) → k < i → get_elem? lines' k ≡ get_elem? lines k
    fixed : Text
    here : get_elem? lines' i ≡ some fixed
    fix : IsFixed config orig line i fixed
    b : ℕ
    state : State (suc i) b lines'

  blank-Round :
      (i b : ℕ) (line : Text) (lines : List Text)
      → i < b
      → i < length orig
      → State i b lines
      → Round i line lines (set_line i [] lines)
  blank-Round i b line lines lt inside st = record {
    above = λ k m. get_elem?-set_line_other k i [] lines (λ q. omega arith);
    fixed = [];
    here = get_elem?-set_line_self i [] lines (omega (arith, st.size));
    fix = inr ((st.swallowed i (omega arith) lt).1, refl);
    b = b;
    state = record {
      low = lt;
      reached = st.reached;
      size = length-set_line i [] lines ∙ st.size;
      swallowed = λ k m n.
          let (empty, in_definition) = st.swallowed k (omega arith) n in
          (get_elem?-set_line_other k i [] lines (λ q. omega arith) ∙ empty, in_definition);
      kept = λ k m. get_elem?-set_line_other k i [] lines (λ q. omega arith) ∙ st.kept k m;
    };
  }

  sets-Round :
      (i : ℕ) (line fixed : Text) (lines : List Text)
      → get_elem? orig i ≡ some line
      → is_init_definition line ≡ false
      → IsFix config line fixed
      → State i i lines
      → Round i line lines (set_line i fixed lines)
  sets-Round i line fixed lines found plain fix st =
      let inside = lt_of_get_elem? i line orig found in
      record {
        above = λ k m. get_elem?-set_line_other k i fixed lines (λ q. omega arith);
        fixed = fixed;
        here = get_elem?-set_line_self i fixed lines (omega (arith, st.size));
        fix = inl (st.reached, fix);
        b = suc i;
        state = record {
          low = omega arith;
          reached = next st.reached found plain;
          size = length-set_line i fixed lines ∙ st.size;
          swallowed = λ k m n. absurd (omega arith);
          kept = λ k m.
              get_elem?-set_line_other k i fixed lines (λ q. omega arith) ∙ st.kept k (omega arith);
        };
      }

  swallows-Round :
      (i stop : ℕ) (line : Text) (lines rest : List Text)
      → get_elem? orig i ≡ some line
      → is_init_definition line ≡ true
      → IsFix config line []
      → Merges lines i stop rest
      → State i i lines
      → Round i line lines (set_line i [] rest)
  swallows-Round i stop line lines rest found definition fix merges st =
      let inside = lt_of_get_elem? i line orig found in
      let closes = Closes-eq lines orig i stop (λ k m. st.kept k m) merges.closes in
      record {
        above =
            λ k m. get_elem?-set_line_other k i [] rest (λ q. omega arith) ∙ merges.kept k (inl m);
        fixed = [];
        here = get_elem?-set_line_self i [] rest (omega (arith, st.size, merges.size));
        fix = inl (st.reached, fix);
        b = suc stop;
        state = record {
          low = omega (arith, closes.low);
          reached = past st.reached found definition closes;
          size = length-set_line i [] rest ∙ merges.size ∙ st.size;
          swallowed = λ k m n. (
            get_elem?-set_line_other k i [] rest (λ q. omega arith)
                ∙ merges.blank k m (omega arith),
            record {
              start = i;
              stop = stop;
              line = line;
              reached = st.reached;
              found = found;
              definition = definition;
              closes = closes;
              low = m;
              high = omega arith;
            },
          );
          kept = λ k m.
              get_elem?-set_line_other k i [] rest (λ q. omega (arith, closes.low))
              ∙ merges.kept k (inr m)
              ∙ st.kept k (omega (arith, closes.low));
        };
      }

  fix_line-Round :
      (i b : ℕ) (line : Text) (lines lines' : List Text)
      → get_elem? orig i ≡ some line
      → State i b lines
      → fix_line config i lines ≡ ok lines'
      → Round i line lines lines'
  fix_line-Round i b line lines lines' found st h = elim (le_or_lt b i) [
    | inr lt ↦
        let (empty, _) = st.swallowed i (omega arith) lt in
        rw (fix_line_blank config i lines lines' empty h)
          (blank-Round i b line lines lt (lt_of_get_elem? i line orig found) st)
    | inl le ↦
        let here : b ≡ i = omega (arith, st.low) in
        let st' = subst (λ b. State i b lines) here st in
        elim (fix_line_cases config i lines lines' line (st'.kept i (omega arith) ∙ found) h) [
          | inl s ↦ rw s.same (sets-Round i line s.fixed lines found s.plain s.fix st')
          | inr s ↦
              rw s.same
                (swallows-Round i s.stop line lines s.rest found s.definition s.fix s.merges st')
        ]
  ]

  fix_lines-fixed :
      (rounds i b : ℕ) (lines lines' : List Text)
      → i + rounds ≡ length orig
      → State i b lines
      → fix_lines config rounds i lines ≡ ok lines'
      → (k : ℕ)
      → (k < i → get_elem? lines' k ≡ get_elem? lines k)
        × ((line : Text)
            → i ≤ k
            → get_elem? orig k ≡ some line
            → (fixed : Text) × (get_elem? lines' k ≡ some fixed) × IsFixed config orig line k fixed)
  unfolding fix_lines
  fix_lines-fixed zero i b lines lines' full st h k = (
    λ m. ap (λ ls. get_elem? ls k) (sym (ok-injective lines lines' h)),
    λ line m found. let inside = lt_of_get_elem? k line orig found in absurd (omega arith),
  )
  fix_lines-fixed (suc rounds) i b lines lines' full st h k =
      let (mid, first, later) = >>=-eq-ok (fix_line config i lines) _ h in
      let (line_i, found_i) = get_elem?-lt i orig (omega arith) in
      let round = fix_line-Round i b line_i lines mid found_i st first in
      let (above, below) =
        fix_lines-fixed rounds (suc i) round.b mid lines' (omega arith) round.state later k in
      (
        λ m. above (omega arith) ∙ round.above k m,
        λ line m found. elim (le_or_lt k i) [
          | inr lt ↦ below line lt found
          | inl le ↦
              let here : k ≡ i = omega arith in
              let same : line_i ≡ line =
                some-injective (sym found_i ∙ ap (get_elem? orig) (sym here) ∙ found) in
              (
                round.fixed,
                above (omega arith) ∙ ap (get_elem? mid) here ∙ round.here,
                rw here (subst (λ l. IsFixed config orig l i round.fixed) same round.fix),
              )
        ],
      )

  start-State : State 0 0 orig
  start-State = record {
    low = omega arith;
    reached = top;
    size = refl;
    swallowed = λ k m n. absurd (omega arith);
    kept = λ k m. refl;
  }

-- When `fix_up` returns, the lines that belong to a definition of an initialisation function are
-- empty, where such a definition starts in a line with `__init ` and without a semicolon that is no
-- include and is not in a definition before it, and goes to the first line at which its braces are
-- closed. Of the other lines, an include has its path adapted, one with an init macro is empty, and
-- any other has the first of the two substitutions that applies.
pub fix_up_exact :
    (config : Extraction) (lines lines' : List Text)
    → fix_up config lines ≡ ok lines'
    → (k : ℕ) (line : Text) → get_elem? lines k ≡ some line
    → (fixed : Text) × (get_elem? lines' k ≡ some fixed) × IsFixed config lines line k fixed
unfolding fix_up
fix_up_exact config lines lines' h k line found =
    (fix_lines-fixed config lines (length lines) 0 0 lines lines' (omega arith)
        (start-State config lines) h k).1
      line (omega arith) found
