-- ===== src/Extract/Lines/Down.antt =====
-- What `merge_down_fn` does: it ends at the line that closes the definition.
use plugsched.Common.{
  ℕ, zero, suc, ◌+◌, ◌<◌, ◌≤◌, Bool, true, false, ◌||◌, some, List, [], ◌++◌, ◌≡◌, refl, ◌⊎◌, inl,
  inr, arith, length, leb, ltb, ◌==◌, nat_eq, Bool-cases, if◌then◌else◌, ◌∙◌, sym, ap,
}
use plugsched.Common.Text.{Text, codes}
use plugsched.Common.Errors.{ok}
use plugsched.Extract.Lines.{get_elem?, set_line, strip, count, merge_down, merge_down_fn}
use plugsched.Extract.Lines.Access.{
  get_elem?-set_line_self, get_elem?-set_line_other, length-set_line, get_elem?-lt,
}
use plugsched.Extract.Lines.Up.{or_blank, joined, joined_empty, joined-suc, le_or_lt}

-- how often `c` stands in the lines from `first` to the one before `curr`
abbrev pub total : ℕ → List Text → ℕ → ℕ → ℕ
total c lines first zero = 0
total c lines first (suc curr) =
    let rest = total c lines first curr in
    if leb first curr then rest + count c (or_blank (get_elem? lines curr)) else 0

-- Up to the line `curr`, the definition has no brace yet, or more braces are open than closed.
abbrev pub is_open : List Text → ℕ → ℕ → Bool
is_open lines first curr =
    let opened = total b'{' lines first (suc curr) in
    opened == 0 || ltb (total b'}' lines first (suc curr)) opened

total_empty : (c : ℕ) (lines : List Text) (n : ℕ) → total c lines n n ≡ 0
total_empty c lines zero = refl
total_empty c lines (suc n) = ground arith

pub total-suc :
    (c : ℕ) (lines : List Text) (first curr : ℕ) (line : Text)
    → first ≤ curr
    → get_elem? lines curr ≡ some line
    → total c lines first (suc curr) ≡ total c lines first curr + count c line
total-suc c lines first curr line h e =
    let reached : leb first curr ≡ true = ground arith in rw (reached, e) refl

pub total_first :
    (c : ℕ) (lines : List Text) (first : ℕ) (line : Text)
    → get_elem? lines first ≡ some line
    → count c line ≡ total c lines first (suc first)
total_first c lines first line e =
    omega (arith, total-suc c lines first first line (omega arith) e, total_empty c lines first)

module _ (orig : List Text) (start k : ℕ) (inside : k < length orig)
    (closed : is_open orig start k ≡ false) where
  -- the lines while the loop stands at `curr`
  record Inv (curr : ℕ) (lines : List Text) : Type 0 where
    size : length lines ≡ length orig
    blank : (i : ℕ) → start ≤ i → i < curr → get_elem? lines i ≡ some []
    kept : (i : ℕ) → (i < start) ⊎ (curr ≤ i) → get_elem? lines i ≡ get_elem? orig i

  Inv-set_line :
      (curr : ℕ) (lines : List Text)
      → start ≤ curr
      → curr ≤ k
      → Inv curr lines
      → Inv (suc curr) (set_line curr [] lines)
  Inv-set_line curr lines h m inv = record {
    size = length-set_line curr [] lines ∙ inv.size;
    blank = λ i a b. elim (le_or_lt curr i) [
      | inl last ↦
          let same : i ≡ curr = omega arith in
          rw same (get_elem?-set_line_self curr [] lines (omega (arith, inv.size)))
      | inr early ↦
          get_elem?-set_line_other i curr [] lines (λ e. omega arith) ∙ inv.blank i a early
    ];
    kept = λ i a.
        get_elem?-set_line_other i curr [] lines (λ e. ground arith) ∙ inv.kept i (ground arith);
  }

  open_before : (curr : ℕ) → curr ≤ k → is_open orig start curr ≡ true → curr < k
  open_before curr m goes = elim (le_or_lt k curr) [
    | inl last ↦
        let same : curr ≡ k = omega arith in
        absurd (cc (goes, closed, ap (is_open orig start) same))
    | inr before ↦ before
  ]

  merge_down-ends :
      (fuel curr : ℕ) (merged : Text) (lines : List Text)
      → start ≤ curr
      → curr ≤ k
      → k < curr + fuel
      → Inv curr lines
      → merged ≡ joined orig start curr
      → (stop : ℕ) × (merged' : Text) × (lines' : List Text) × (merge_down fuel curr merged
            (total b'{' orig start (suc curr))
            (total b'}' orig start (suc curr))
            lines
          ≡ ok (stop, merged', lines'))
        × (merged' ≡ joined orig start stop)
        × Inv stop lines'
        × (curr ≤ stop)
        × (stop ≤ k)
        × (is_open orig start stop ≡ false)
        × ((i : ℕ) → curr ≤ i → i < stop → is_open orig start i ≡ true)
  unfolding merge_down
  merge_down-ends zero curr merged lines h m f inv text = absurd (omega arith)
  merge_down-ends (suc fuel) curr merged lines h m f inv text =
      let (line, found) = get_elem?-lt curr orig (omega arith) in
      let read = inv.kept curr (inr (omega arith)) ∙ found in
      elim (Bool-cases (is_open orig start curr)) [
        | inr ends ↦ (
          curr,
          merged,
          lines,
          rw (read, ends) refl,
          text,
          inv,
          omega arith,
          m,
          ends,
          λ i a b. absurd (omega arith),
        )
        | inl goes ↦
            let more : curr < k = open_before curr m goes in
            let (below, found') = get_elem?-lt (suc curr) orig (omega arith) in
            let inv' = Inv-set_line curr lines h m inv in
            let read' = inv'.kept (suc curr) (inr (omega arith)) ∙ found' in
            let (stop, merged', lines', e, text', inv'', a, b, c, d) =
              merge_down-ends fuel (suc curr) (merged ++ strip line ++ codes " ")
                (set_line curr [] lines) (omega arith) (omega arith) (omega arith) inv'
                (rw text (sym (joined-suc orig start curr line h found))) in
            (
              stop,
              merged',
              lines',
              rw
                  (
                    read,
                    goes,
                    read',
                    ← total-suc b'{' orig start (suc curr) below (omega arith) found',
                    ← total-suc b'}' orig start (suc curr) below (omega arith) found',
                  )
                  e,
              text',
              inv'',
              omega arith,
              b,
              c,
              λ i low high. elim (le_or_lt (suc curr) i) [
                | inl later ↦ d i later high
                | inr now ↦ let same : i ≡ curr = omega arith in rw same goes
              ],
            )
      ]

  start-Inv : Inv start orig
  start-Inv = record { size = refl; blank = λ i a b. absurd (omega arith); kept = λ i a. refl }

-- Where some line `k` closes the definition that starts at `start`, so that braces were opened and no
-- more are open than closed, the definition is joined into its first line. The first line that closes
-- it is the last one joined, and its text is taken as it is; the lines between become empty, all
-- others stay as they are, and so does their number.
pub merge_down_fn_exact :
    (lines : List Text) (start k : ℕ)
    → start ≤ k
    → k < length lines
    → is_open lines start k ≡ false
    → (stop : ℕ) × (lines' : List Text) × (merge_down_fn lines start ≡ ok (stop, lines'))
      × (start ≤ stop)
      × (stop ≤ k)
      × (is_open lines start stop ≡ false)
      × ((i : ℕ) → start ≤ i → i < stop → is_open lines start i ≡ true)
      × (length lines' ≡ length lines)
      × (get_elem? lines' start ≡ some (joined lines start stop ++ or_blank (get_elem? lines stop)))
      × ((i : ℕ) → start < i → i ≤ stop → get_elem? lines' i ≡ some [])
      × ((i : ℕ) → (i < start) ⊎ (stop < i) → get_elem? lines' i ≡ get_elem? lines i)
unfolding merge_down_fn
merge_down_fn_exact lines start k h inside closed =
    let (first, found) = get_elem?-lt start lines (omega arith) in
    let (stop, merged, mid, e, text, inv, low, high, ends, runs) =
      merge_down-ends lines start k inside closed (suc (length lines)) start [] lines (omega arith)
        h (omega arith) (start-Inv lines start k inside closed) (sym (joined_empty lines start)) in
    let (last, found') = get_elem?-lt stop lines (omega arith) in
    let read = inv.kept stop (inr (omega arith)) ∙ found' in
    let line = merged ++ last in
    let cleared = set_line stop [] mid in
    let size : length cleared ≡ length lines = length-set_line stop [] mid ∙ inv.size in
    (
      stop,
      set_line start line cleared,
      rw
          (
            found,
            total_first b'{' lines start first found,
            total_first b'}' lines start first found,
            e,
            read,
          )
          refl,
      low,
      high,
      ends,
      runs,
      length-set_line start line cleared ∙ size,
      rw (found', ← text) (get_elem?-set_line_self start line cleared (omega (arith, size))),
      λ i a b.
          get_elem?-set_line_other i start line cleared (λ q. omega arith)
          ∙ elim (le_or_lt stop i) [
            | inl last_one ↦
                let same : i ≡ stop = omega arith in
                rw same (get_elem?-set_line_self stop [] mid (omega (arith, inv.size)))
            | inr between ↦
                get_elem?-set_line_other i stop [] mid (λ q. omega arith)
                ∙ inv.blank i (omega arith) between
          ],
      λ i a.
          get_elem?-set_line_other i start line cleared (λ q. ground arith)
          ∙ get_elem?-set_line_other i stop [] mid (λ q. ground arith)
          ∙ inv.kept i (ground arith),
    )
