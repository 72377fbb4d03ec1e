-- ===== src/Extract/Vars/Ends.antt =====
-- What `merge_down_var` does: it joins a definition down to its semicolon, or runs past the last line.
use plugsched.Common.{
  ℕ, zero, suc, ◌+◌, ◌≤◌, ◌<◌, true, false, none, some, List, [], ◌++◌, ◌≡◌, ◌∙◌, refl, sym, ap,
  ◌⊎◌, inl, inr, arith, Bool-cases, none-some, Option-cases, length,
}
use plugsched.Common.Text.{Text, codes, occurs}
use plugsched.Common.Errors.{ok, err, index_error}
use plugsched.Extract.Lines.{get_elem?, set_line, strip}
use plugsched.Extract.Lines.Access.{
  get_elem?-set_line_self, get_elem?-set_line_other, length-set_line, get_elem?-lt, lt_of_get_elem?,
}
use plugsched.Extract.Lines.Up.{joined, joined_empty, joined-suc, le_or_lt}
use plugsched.Extract.Vars.{merge_var, merge_down_var}

-- No line from `start` on holds a semicolon.
abbrev pub NoSemicolon : List Text → ℕ → Type 0
NoSemicolon lines start =
    (i : ℕ) (line : Text)
    → start ≤ i
    → get_elem? lines i ≡ some line
    → occurs (codes ";") line ≡ false

-- no line from `start` to the one before `stop` holds a semicolon
abbrev pub NoneBefore : List Text → ℕ → ℕ → Type 0
NoneBefore lines start stop =
    (i : ℕ) (line : Text)
    → start ≤ i
    → i < stop
    → get_elem? lines i ≡ some line
    → occurs (codes ";") line ≡ false

missing_ge : (curr : ℕ) (lines : List Text) → get_elem? lines curr ≡ none → length lines ≤ curr
missing_ge curr lines missing = elim (le_or_lt (length lines) curr) [
  | inl ge ↦ ge
  | inr lt ↦
      let (line, found) = get_elem?-lt curr lines lt in absurd (none-some (sym missing ∙ found))
]

missing_NoSemicolon :
    (lines : List Text) (start stop : ℕ)
    → get_elem? lines stop ≡ none
    → NoneBefore lines start stop
    → NoSemicolon lines start
missing_NoSemicolon lines start stop missing before i line le found =
    let ge = missing_ge stop lines missing in
    let lt = lt_of_get_elem? i line lines found in before i line le (omega arith) found

module _ (orig : List Text) (start : ℕ) where
  -- the loop when it stands at `curr`
  record Inv (curr : ℕ) (merged : Text) (lines : List Text) : Type 0 where
    low : start ≤ curr
    text : merged ≡ joined orig start curr
    size : length lines ≡ length orig
    blank : (i : ℕ) → start ≤ i → i < curr → get_elem? lines i ≡ some []
    kept : (i : ℕ) → (i < start) ⊎ (curr ≤ i) → get_elem? lines i ≡ get_elem? orig i
    before : NoneBefore orig start curr

  start-Inv : Inv start [] orig
  start-Inv = record {
    low = omega arith;
    text = sym (joined_empty orig start);
    size = refl;
    blank = λ i a b. absurd (omega arith);
    kept = λ i a. refl;
    before = λ i line a b found. absurd (omega arith);
  }

  Inv-suc :
      (curr : ℕ) (merged : Text) (lines : List Text) (line : Text)
      → Inv curr merged lines
      → get_elem? orig curr ≡ some line
      → occurs (codes ";") line ≡ false
      → Inv (suc curr) (merged ++ strip line ++ codes " ") (set_line curr [] lines)
  Inv-suc curr merged lines line inv found none_here =
      let low = inv.low in
      let inside = lt_of_get_elem? curr line orig found in
      record {
        low = omega arith;
        text =
            ap (λ t. t ++ strip line ++ codes " ") inv.text
            ∙ sym (joined-suc orig start curr line low found);
        size = length-set_line curr [] lines ∙ inv.size;
        blank = λ i a b. elim (le_or_lt curr i) [
          | inl last ↦
              let same : i ≡ curr = omega arith in
              rw same (get_elem?-set_line_self curr [] lines (omega (arith, inv.size)))
          | inr early ↦
              get_elem?-set_line_other i curr [] lines (λ e. omega arith) ∙ inv.blank i a early
        ];
        kept = λ i a.
            get_elem?-set_line_other i curr [] lines (λ e. ground arith)
            ∙ inv.kept i (ground arith);
        before = λ i line_i a b found_i. elim (le_or_lt curr i) [
          | inl last ↦
              let same : i ≡ curr = omega arith in
              cc (found, none_here, ap (get_elem? orig) same, found_i)
          | inr early ↦ inv.before i line_i a early found_i
        ];
      }

  -- where the loop stops
  abbrev Stopped : ℕ → Text → List Text → Type 0
  Stopped stop merged lines =
      Inv stop merged lines
      × (((line : Text) × (get_elem? orig stop ≡ some line) × (occurs (codes ";") line ≡ true))
          ⊎ (get_elem? orig stop ≡ none))

  -- the loop with `fuel` rounds ends
  abbrev Ends : ℕ → ℕ → Text → List Text → Type 0
  Ends fuel curr merged lines =
      (stop : ℕ) × (merged' : Text) × (lines' : List Text) × (merge_var fuel curr merged lines
        ≡ ok (stop, merged', lines'))
      × Stopped stop merged' lines'

  one_round :
      (fuel curr : ℕ) (merged : Text) (lines : List Text)
      → Inv curr merged lines
      → ((line : Text)
          → get_elem? orig curr ≡ some line
          → occurs (codes ";") line ≡ false
          → Ends fuel (suc curr) (merged ++ strip line ++ codes " ") (set_line curr [] lines))
      → Ends (suc fuel) curr merged lines
  unfolding merge_var
  one_round fuel curr merged lines inv later =
      let read = inv.kept curr (inr (omega arith)) in
      elim (Option-cases (get_elem? orig curr)) [
        | inl missing ↦
            (curr, merged, lines, rw (merge_var, read, missing) refl, (inv, inr missing))
        | inr (line, found) ↦ elim (Bool-cases (occurs (codes ";") line)) [
          | inl here ↦ (
            curr,
            merged,
            lines,
            rw (merge_var, read, found, here) refl,
            (inv, inl (line, found, here)),
          )
          | inr other ↦
              let (stop, merged', lines', e, stopped) = later line found other in
              (stop, merged', lines', rw (merge_var, read, found, other) e, stopped)
        ]
      ]

  -- `fuel` rounds below the first are enough from `curr` on.
  merge_var-Ends :
      (fuel curr : ℕ) (merged : Text) (lines : List Text)
      → length orig ≤ fuel + curr
      → Inv curr merged lines
      → Ends (suc fuel) curr merged lines
  merge_var-Ends zero curr merged lines h inv =
      one_round zero curr merged lines inv
        (λ line found _. let lt = lt_of_get_elem? curr line orig found in absurd (omega arith))
  merge_var-Ends (suc fuel) curr merged lines h inv =
      one_round (suc fuel) curr merged lines inv (λ line found other.
        merge_var-Ends fuel (suc curr) (merged ++ strip line ++ codes " ") (set_line curr [] lines)
          (omega arith) (Inv-suc curr merged lines line inv found other))

-- the definition that starts at `start` and has its first semicolon in line `stop` is joined
pub record IsJoined (lines : List Text) (start stop : ℕ) (lines' : List Text) : Type 0 where
  pub low : start ≤ stop
  pub last :
      (line : Text) × (get_elem? lines stop ≡ some line)
      × (occurs (codes ";") line ≡ true)
      × (get_elem? lines' start ≡ some (joined lines start stop ++ line))
  pub before : NoneBefore lines start stop
  pub size : length lines' ≡ length lines
  pub blank : (i : ℕ) → start < i → i ≤ stop → get_elem? lines' i ≡ some []
  pub kept : (i : ℕ) → (i < start) ⊎ (stop < i) → get_elem? lines' i ≡ get_elem? lines i

stopped-IsJoined :
    (lines : List Text) (start stop : ℕ) (merged line : Text) (mid : List Text)
    → Inv lines start stop merged mid
    → get_elem? lines stop ≡ some line
    → occurs (codes ";") line ≡ true
    → IsJoined lines start stop (set_line start (merged ++ line) (set_line stop [] mid))
stopped-IsJoined lines start stop merged line mid inv found here =
    let low = inv.low in
    let inside = lt_of_get_elem? stop line lines found in
    let cleared = set_line stop [] mid in
    let size : length cleared ≡ length lines = length-set_line stop [] mid ∙ inv.size in
    record {
      low = low;
      last = (
        line,
        found,
        here,
        rw (← inv.text)
            (get_elem?-set_line_self start (merged ++ line) cleared (omega (arith, size))),
      );
      before = inv.before;
      size = length-set_line start (merged ++ line) cleared ∙ size;
      blank = λ i a b.
          get_elem?-set_line_other i start (merged ++ line) cleared (λ q. omega arith)
          ∙ elim (le_or_lt stop i) [
            | inl last_one ↦
                let same : i ≡ stop = omega arith in
                rw same (get_elem?-set_line_self stop [] mid (omega (arith, inv.size)))
            | inr between ↦
                get_elem?-set_line_other i stop [] mid (λ q. omega arith)
                ∙ inv.blank i (omega arith) between
          ];
      kept = λ i a.
          get_elem?-set_line_other i start (merged ++ line) cleared (λ q. ground arith)
          ∙ get_elem?-set_line_other i stop [] mid (λ q. ground arith)
          ∙ inv.kept i (ground arith);
    }

-- `merge_down_var` either joins a definition into its first line or fails only for want of a
-- semicolon. A definition ends in the first line from `start` on that holds one; its new text is the
-- stripped lines before that one, with a blank after each, and that line as it is. The lines between
-- become empty, all others and their number stay. Else an IndexError ends it, and no line from
-- `start` on holds a semicolon.
pub merge_down_var_exact :
    (lines : List Text) (start : ℕ)
    → ((stop : ℕ) × (lines' : List Text) × (merge_down_var lines start ≡ ok (stop, lines'))
        × IsJoined lines start stop lines')
      ⊎ (merge_down_var lines start ≡ err index_error) × NoSemicolon lines start
unfolding merge_down_var
merge_down_var_exact lines start =
    let (stop, merged, mid, e, (inv, last)) =
      merge_var-Ends lines start (length lines) start [] lines (omega arith)
        (start-Inv lines start) in
    let low = inv.low in
    let read = inv.kept stop (inr (omega arith)) in
    elim last [
      | inr missing ↦
          inr (rw (e, read, missing) refl, missing_NoSemicolon lines start stop missing inv.before)
      | inl (line, found, here) ↦
          let inside = lt_of_get_elem? stop line lines found in
          let cleared = set_line stop [] mid in
          let (old, there) =
            get_elem?-lt start cleared (omega (arith, length-set_line stop [] mid, inv.size)) in
          inl (
            stop,
            set_line start (merged ++ line) cleared,
            rw (e, read, found, there) refl,
            stopped-IsJoined lines start stop merged line mid inv found here,
          )
    ]
