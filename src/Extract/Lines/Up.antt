-- ===== src/Extract/Lines/Up.antt =====
-- What `merge_up_lines` does: it ends above the nearest line that ends a declaration.
use plugsched.Common.{
  ℕ, zero, suc, ◌<◌, ◌≤◌, true, false, some, List, [], ◌++◌, ◌≡◌, refl, arith, length, leb, ◌∙◌,
  sym, ap, Bool-cases, inl, inr, ◌⊎◌, if◌then◌else◌, Option, none,
}
use plugsched.Common.Text.{Text, codes}
use plugsched.Common.Errors.{ok}
use plugsched.Extract.Lines.{
  get_elem?, set_line, strip, close_up, terminator, merge_up, merge_up_lines,
}
use plugsched.Extract.Lines.Access.{
  get_elem?-set_line_self, get_elem?-set_line_other, length-set_line, get_elem?-lt,
}
use mathlib.Core.List.{append_assoc}

abbrev pub or_blank : Option Text → Text
or_blank none = []
or_blank (some line) = line

-- the stripped lines from `first` to the one before `curr`, each with a blank after it
abbrev pub joined : List Text → ℕ → ℕ → Text
joined lines first zero = []
joined lines first (suc curr) =
    let rest = joined lines first curr in
    if leb first curr then rest ++ strip (or_blank (get_elem? lines curr)) ++ codes " " else []

pub le_or_lt : (i n : ℕ) → (i ≤ n) ⊎ (n < i)
le_or_lt i n = elim (Bool-cases (leb i n)) [
  | inl h ↦ inl (ground arith)
  | inr h ↦ inr (ground arith)
]

join_assoc :
    (before line after : Text)
    → before ++ line ++ codes " " ++ after ≡ before ++ (line ++ codes " " ++ after)
join_assoc before line after =
    append_assoc (before ++ line) (codes " ") after
    ∙ append_assoc before line (codes " " ++ after)
    ∙ ap (λ t. before ++ t) (sym (append_assoc line (codes " ") after))

pub joined_empty : (orig : List Text) (n : ℕ) → joined orig n n ≡ []
joined_empty orig zero = refl
joined_empty orig (suc n) = ground arith

pub joined-suc :
    (orig : List Text) (first curr : ℕ) (line : Text)
    → first ≤ curr
    → get_elem? orig curr ≡ some line
    → joined orig first (suc curr) ≡ joined orig first curr ++ strip line ++ codes " "
joined-suc orig first curr line h e =
    let reached : leb first curr ≡ true = ground arith in rw (reached, e) refl

module _ (orig : List Text) (top : ℕ) (inside : top < length orig) where
  -- the lines while the loop stands at `curr`
  record Inv (curr : ℕ) (lines : List Text) : Type 0 where
    size : length lines ≡ length orig
    above : (i : ℕ) → i ≤ curr → get_elem? lines i ≡ get_elem? orig i
    blank : (i : ℕ) → curr < i → i ≤ top → get_elem? lines i ≡ some []
    below : (i : ℕ) → top < i → get_elem? lines i ≡ get_elem? orig i

  -- where the loop ends
  pub record Stop (curr first : ℕ) : Type 0 where
    pub upward : first ≤ curr
    pub ends_above :
        (k : ℕ)
        → first ≡ suc k
        → (line : Text) × (get_elem? orig k ≡ some line) × (terminator line ≡ true)
    pub runs :
        (i : ℕ)
        → first ≤ i
        → i < curr
        → (line : Text) × (get_elem? orig i ≡ some line) × (terminator line ≡ false)

  Inv-set_line :
      (curr : ℕ) (lines : List Text)
      → suc curr ≤ top
      → Inv (suc curr) lines
      → Inv curr (set_line (suc curr) [] lines)
  Inv-set_line curr lines h inv = record {
    size = omega (arith, length-set_line (suc curr) [] lines, inv.size);
    above = λ i k.
        get_elem?-set_line_other i (suc curr) [] lines (λ e. omega arith)
        ∙ inv.above i (omega arith);
    blank = λ i k m. elim (le_or_lt i (suc curr)) [
      | inl low ↦
          let same : i ≡ suc curr = omega arith in
          rw same (get_elem?-set_line_self (suc curr) [] lines (omega (arith, inv.size)))
      | inr high ↦
          get_elem?-set_line_other i (suc curr) [] lines (λ e. omega arith)
          ∙ inv.blank i (omega arith) m
    ];
    below =
        λ i k. get_elem?-set_line_other i (suc curr) [] lines (λ e. omega arith) ∙ inv.below i k;
  }

  Stop-refl :
      (curr : ℕ) (line : Text)
      → get_elem? orig curr ≡ some line
      → terminator line ≡ true
      → Stop (suc curr) (suc curr)
  Stop-refl curr line found ends = record {
    upward = omega arith;
    ends_above = λ k e. let same : curr ≡ k = omega arith in (line, rw (← same) found, ends);
    runs = λ i m n. absurd (omega arith);
  }

  Stop-suc :
      (curr first : ℕ) (line : Text)
      → get_elem? orig curr ≡ some line
      → terminator line ≡ false
      → Stop curr first
      → Stop (suc curr) first
  Stop-suc curr first line found goes stop = record {
    upward = omega (arith, stop.upward);
    ends_above = stop.ends_above;
    runs = λ i m n. elim (le_or_lt (suc i) curr) [
      | inl low ↦ stop.runs i m (omega arith)
      | inr high ↦ let same : i ≡ curr = omega arith in (line, rw same found, goes)
    ];
  }

  merge_up-ends :
      (curr : ℕ) (merged : Text) (lines : List Text)
      → curr ≤ top
      → Inv curr lines
      → (first : ℕ) × (merged' : Text) × (lines' : List Text) × (merge_up curr merged lines
          ≡ ok (first, merged', lines'))
        × (merged' ≡ joined orig first curr ++ merged)
        × Inv first lines'
        × Stop curr first
  unfolding merge_up
  merge_up-ends zero merged lines h inv = (
    zero,
    merged,
    lines,
    refl,
    refl,
    inv,
    record {
      upward = omega arith;
      ends_above = λ k e. absurd (omega arith);
      runs = λ i m n. absurd (omega arith);
    },
  )
  merge_up-ends (suc curr) merged lines h inv =
      let (line, found) = get_elem?-lt curr orig (omega arith) in
      let read = inv.above curr (omega arith) ∙ found in
      let more = strip line ++ codes " " ++ merged in
      elim (Bool-cases (terminator line)) [
        | inl ends ↦ (
          suc curr,
          merged,
          lines,
          rw (read, ends) refl,
          rw (joined_empty orig (suc curr)) refl,
          inv,
          Stop-refl curr line found ends,
        )
        | inr goes ↦
            let (first, merged', lines', e, text, inv', stop) =
              merge_up-ends curr more (set_line (suc curr) [] lines) (omega arith)
                (Inv-set_line curr lines h inv) in
            (
              first,
              merged',
              lines',
              rw (read, goes) e,
              text
                  ∙ sym (join_assoc (joined orig first curr) (strip line) merged)
                  ∙ ap (λ t. t ++ merged) (sym (joined-suc orig first curr line stop.upward found)),
              inv',
              Stop-suc curr first line found goes stop,
            )
      ]

  start-Inv : Inv top orig
  start-Inv = record {
    size = refl;
    above = λ i h. refl;
    blank = λ i h k. absurd (omega arith);
    below = λ i h. refl;
  }

-- The declaration that ends in an existing line is joined into the line `first` where it starts.
-- The number of lines stays, the lines from there down to the given one become empty, and all
-- others stay as they are; `first` is the line below the nearest terminator line, or the first line
-- of the file, and its new text is the stripped lines in order, with blanks between.
pub merge_up_lines_exact :
    (lines : List Text) (curr : ℕ) (last : Text)
    → get_elem? lines curr ≡ some last
    → (inside : curr < length lines)
    → (first : ℕ) × (lines' : List Text) × (merge_up_lines lines curr ≡ ok (first, lines'))
      × Stop lines curr inside curr first
      × (length lines' ≡ length lines)
      × (get_elem? lines' first
          ≡ some (close_up (joined lines first curr ++ strip last) ++ codes "\n"))
      × ((i : ℕ) → first < i → i ≤ curr → get_elem? lines' i ≡ some [])
      × ((i : ℕ) → (i < first) ⊎ (curr < i) → get_elem? lines' i ≡ get_elem? lines i)
unfolding merge_up_lines
merge_up_lines_exact lines curr last found inside =
    let (first, merged, mid, e, text, inv, stop) =
      merge_up-ends lines curr inside curr (strip last) lines (omega arith)
        (start-Inv lines curr inside) in
    let line = close_up merged ++ codes "\n" in
    (
      first,
      set_line first line mid,
      rw (found, e) refl,
      stop,
      length-set_line first line mid ∙ inv.size,
      rw (← text) (get_elem?-set_line_self first line mid (omega (arith, inv.size, stop.upward))),
      λ i h k. get_elem?-set_line_other i first line mid (λ e. omega arith) ∙ inv.blank i h k,
      λ i h. elim h [
        | inl up ↦
            get_elem?-set_line_other i first line mid (λ e. omega arith) ∙ inv.above i (omega arith)
        | inr down ↦
            get_elem?-set_line_other i first line mid (λ e. omega (arith, stop.upward))
            ∙ inv.below i down
      ],
    )
