-- ===== src/Extract/Functions/Removal.antt =====
-- What is left of an outsider's definition: its declaration, and empty lines.
use plugsched.Common.{
  ℕ, zero, suc, ◌+◌, ◌-◌, ◌<◌, ◌≤◌, some, List, [], ◌++◌, ◌≡◌, ◌∙◌, refl, ◌⊎◌, inl, inr, arith,
  length, take,
}
use plugsched.Common.Text.{Text, codes}
use plugsched.Common.Errors.{ok}
use plugsched.Analyze.Meta.{FnMeta}
use plugsched.Extract.Lines.{get_elem?, set_line, strip, close_up}
use plugsched.Extract.Lines.Access.{
  get_elem?-set_line_self, get_elem?-set_line_other, length-set_line, get_elem?-lt,
}
use plugsched.Extract.Lines.Up.{joined, Stop, merge_up_lines_exact, le_or_lt}
use plugsched.Extract.Functions.{clear_lines, remove_body}

clear_lines_exact :
    (row n : ℕ) (lines : List Text)
    → row + n ≤ length lines
    → (lines' : List Text) × (clear_lines row n lines ≡ ok lines')
      × (length lines' ≡ length lines)
      × ((i : ℕ) → row ≤ i → i < row + n → get_elem? lines' i ≡ some [])
      × ((i : ℕ) → (i < row) ⊎ (row + n ≤ i) → get_elem? lines' i ≡ get_elem? lines i)
unfolding clear_lines
clear_lines_exact row zero lines h = (lines, refl, refl, λ i a b. absurd (omega arith), λ i a. refl)
clear_lines_exact row (suc n) lines h =
    let (line, found) = get_elem?-lt row lines (omega arith) in
    let size = length-set_line row [] lines in
    let (lines', e, same, blank, kept) =
      clear_lines_exact (suc row) n (set_line row [] lines) (omega (arith, size)) in
    (
      lines',
      rw found e,
      same ∙ size,
      λ i a b. elim (le_or_lt i row) [
        | inl first ↦
            let here : i ≡ row = omega arith in
            kept i (inl (omega arith))
            ∙ rw here (get_elem?-set_line_self row [] lines (omega arith))
        | inr later ↦ blank i later (omega arith)
      ],
      λ i a. kept i (ground arith) ∙ get_elem?-set_line_other i row [] lines (λ q. ground arith),
    )

-- the lines after the body was cut off at its brace
abbrev pub cut_lines : FnMeta → Text → List Text → List Text
cut_lines fn line lines =
    set_line fn.l_brace_loc.0 (take fn.l_brace_loc.1 line ++ codes ";\n") lines

-- An outsider whose braces stand in existing lines, the opening one first, is replaced by its
-- declaration: the text before the opening brace, with a semicolon, joined with the lines above it
-- up to the nearest terminator line. All lines from below the declaration to the closing brace become
-- empty, and no other line changes.
pub remove_body_exact :
    (fn : FnMeta) (lines : List Text) (line : Text)
    → get_elem? lines fn.l_brace_loc.0 ≡ some line
    → fn.l_brace_loc.0 ≤ fn.r_brace_loc.0
    → fn.r_brace_loc.0 < length lines
    → (inside : fn.l_brace_loc.0 < length (cut_lines fn line lines))
    → (first : ℕ) × (lines' : List Text) × (remove_body fn lines ≡ ok lines')
      × Stop (cut_lines fn line lines) fn.l_brace_loc.0 inside fn.l_brace_loc.0 first
      × (get_elem? lines' first
          ≡ some (
              close_up (
                joined (cut_lines fn line lines) first fn.l_brace_loc.0
                ++ strip (take fn.l_brace_loc.1 line ++ codes ";\n"))
              ++ codes "\n"))
      × ((i : ℕ) → first < i → i ≤ fn.r_brace_loc.0 → get_elem? lines' i ≡ some [])
      × ((i : ℕ) → (i < first) ⊎ (fn.r_brace_loc.0 < i) → get_elem? lines' i ≡ get_elem? lines i)
unfolding remove_body
remove_body_exact fn lines line found order within inside =
    let row = fn.l_brace_loc.0 in
    let row_end = fn.r_brace_loc.0 in
    let cut = take fn.l_brace_loc.1 line ++ codes ";\n" in
    let lines₁ = cut_lines fn line lines in
    let size = length-set_line row cut lines in
    let (first, lines₂, e, stop, size₂, at_first, blank, kept) =
      merge_up_lines_exact lines₁ row cut (get_elem?-set_line_self row cut lines (omega arith))
        inside in
    let (lines₃, e', _, cleared, kept') =
      clear_lines_exact (suc row) (row_end - row) lines₂ (omega (arith, size, size₂)) in
    (
      first,
      lines₃,
      rw (found, e) e',
      stop,
      kept' first (inl (omega (arith, stop.upward))) ∙ at_first,
      λ i a b. elim (le_or_lt i row) [
        | inl above ↦ kept' i (inl (omega arith)) ∙ blank i a above
        | inr below ↦ cleared i below (omega arith)
      ],
      λ i a.
          kept' i (ground (arith, stop.upward))
          ∙ kept i (ground (arith, stop.upward))
          ∙ get_elem?-set_line_other i row cut lines (λ q. ground (arith, stop.upward)),
    )
