-- ===== src/Extract/Lines/Closes.antt =====
-- A call of `merge_down_fn` that returns has met a line that closes the definition, and the lines from
-- the first one on alone decide which.
use plugsched.Common.{
  ℕ, zero, suc, ◌<◌, ◌≤◌, true, false, ◌||◌, some, List, [], ◌++◌, ◌≡◌, refl, ◌⊎◌, inl, inr, arith,
  length, leb, ltb, ◌==◌, nat_eq, Bool-cases, ◌∙◌, sym, ap, Option-cases,
}
use plugsched.Common.Text.{Text, codes}
use plugsched.Common.Errors.{ok, >>=-eq-ok, ok-injective}
use plugsched.Extract.Lines.{get_elem?, get_line, set_line, strip, count, merge_down, merge_down_fn}
use plugsched.Extract.Lines.Access.{get_elem?-set_line_other, lt_of_get_elem?}
use plugsched.Extract.Lines.Down.{total, total-suc, total_first, is_open, merge_down_fn_exact}

-- The definition that starts at `start` is closed by the line `stop` and by no line before it.
pub record Closes (lines : List Text) (start stop : ℕ) : Type 0 where
  pub low : start ≤ stop
  pub closed : is_open lines start stop ≡ false
  pub opened : (i : ℕ) → start ≤ i → i < stop → is_open lines start i ≡ true

pub get_line-eq-ok :
    (lines : List Text) (i : ℕ) (line : Text)
    → get_line lines i ≡ ok line
    → get_elem? lines i ≡ some line
get_line-eq-ok lines i line h = elim (Option-cases (get_elem? lines i)) [
  | inl missing ↦ absurd (ground arith)
  | inr (other, found) ↦ ground arith
]

module _ (orig : List Text) (start : ℕ) where
  -- a line that closes the definition
  abbrev Closing : Type 0
  Closing = (k : ℕ) × (start ≤ k) × (k < length orig) × (is_open orig start k ≡ false)

  merge_down-Closing :
      (fuel curr : ℕ) (merged : Text) (lines : List Text) (r : ℕ × Text × List Text)
      → start ≤ curr
      → ((i : ℕ) → curr ≤ i → get_elem? lines i ≡ get_elem? orig i)
      → merge_down fuel curr merged
          (total b'{' orig start (suc curr))
          (total b'}' orig start (suc curr))
          lines
        ≡ ok r
      → Closing
  unfolding merge_down
  merge_down-Closing zero curr merged lines r low kept h = absurd (cc)
  merge_down-Closing (suc fuel) curr merged lines r low kept h =
      let (line, e, h₁) = >>=-eq-ok (get_line lines curr) _ h in
      let found = sym (kept curr (omega arith)) ∙ get_line-eq-ok lines curr line e in
      let inside = lt_of_get_elem? curr line orig found in
      elim (Bool-cases (is_open orig start curr)) [
        | inr ends ↦ (curr, low, inside, ends)
        | inl goes ↦
            let cleared = set_line curr [] lines in
            let (below, e', h₂) = >>=-eq-ok (get_line cleared (suc curr)) _ (rw goes at h₁) in
            let kept' = λ (i : ℕ) (m : suc curr ≤ i).
              get_elem?-set_line_other i curr [] lines (λ q. omega arith) ∙ kept i (omega arith) in
            let found' =
              sym (kept' (suc curr) (omega arith)) ∙ get_line-eq-ok cleared (suc curr) below e' in
            merge_down-Closing fuel (suc curr) (merged ++ strip line ++ codes " ") cleared r
              (omega arith) kept'
              (rw
                (
                  total-suc b'{' orig start (suc curr) below (omega arith) found',
                  total-suc b'}' orig start (suc curr) below (omega arith) found',
                )
                h₂)
      ]

pub merge_down_fn-Closing :
    (lines : List Text) (start : ℕ) (r : ℕ × List Text)
    → merge_down_fn lines start ≡ ok r
    → Closing lines start
unfolding merge_down_fn
merge_down_fn-Closing lines start r h =
    let (first, e, h₁) = >>=-eq-ok (get_line lines start) _ h in
    let found = get_line-eq-ok lines start first e in
    let (s, e', _) =
      >>=-eq-ok
        (merge_down (suc (length lines)) start [] (count b'{' first) (count b'}' first) lines) _
        h₁ in
    merge_down-Closing lines start (suc (length lines)) start [] lines s (omega arith) (λ i m. refl)
      (rw (← total_first b'{' lines start first found, ← total_first b'}' lines start first found)
        e')

-- what a call of `merge_down_fn` that returns does to the lines
pub record Merges (lines : List Text) (start stop : ℕ) (lines' : List Text) : Type 0 where
  pub closes : Closes lines start stop
  pub size : length lines' ≡ length lines
  pub blank : (i : ℕ) → start < i → i ≤ stop → get_elem? lines' i ≡ some []
  pub kept : (i : ℕ) → (i < start) ⊎ (stop < i) → get_elem? lines' i ≡ get_elem? lines i

pub merge_down_fn-Merges :
    (lines : List Text) (start : ℕ) (r : ℕ × List Text)
    → merge_down_fn lines start ≡ ok r
    → (stop : ℕ) × Merges lines start stop r.1
merge_down_fn-Merges lines start r h =
    let (k, low, inside, closed) = merge_down_fn-Closing lines start r h in
    let (stop, lines', e, m, _, ends, runs, size, _, blank, kept) =
      merge_down_fn_exact lines start k low inside closed in
    let same : lines' ≡ r.1 = ap (λ (r : ℕ × List Text). r.1) (ok-injective _ r (sym e ∙ h)) in
    (
      stop,
      rw (← same) (record {
        closes = record { low = m; closed = ends; opened = runs };
        size = size;
        blank = blank;
        kept = kept;
      }),
    )

-- The lines above the definition do not matter.
total-eq :
    (c : ℕ) (a b : List Text) (start curr : ℕ)
    → ((i : ℕ) → start ≤ i → get_elem? a i ≡ get_elem? b i)
    → total c a start curr ≡ total c b start curr
total-eq c a b start zero same = refl
total-eq c a b start (suc curr) same = elim (Bool-cases (leb start curr)) [
  | inl below ↦
      let here = same curr (ground arith) in rw (below, here, total-eq c a b start curr same) refl
  | inr above ↦ rw above refl
]

is_open-eq :
    (a b : List Text) (start curr : ℕ)
    → ((i : ℕ) → start ≤ i → get_elem? a i ≡ get_elem? b i)
    → is_open a start curr ≡ is_open b start curr
is_open-eq a b start curr same =
    let opened = total-eq b'{' a b start (suc curr) same in
    let closed = total-eq b'}' a b start (suc curr) same in
    ap (λ n. n == 0 || ltb (total b'}' a start (suc curr)) n) opened
    ∙ ap (λ n. total b'{' b start (suc curr) == 0 || ltb n (total b'{' b start (suc curr))) closed

pub Closes-eq :
    (a b : List Text) (start stop : ℕ)
    → ((i : ℕ) → start ≤ i → get_elem? a i ≡ get_elem? b i)
    → Closes a start stop
    → Closes b start stop
Closes-eq a b start stop same h = record {
  low = h.low;
  closed = sym (is_open-eq a b start stop same) ∙ h.closed;
  opened = λ i m n. sym (is_open-eq a b start i same) ∙ h.opened i m n;
}
