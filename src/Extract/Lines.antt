-- ===== src/Extract/Lines.antt =====
-- The editing of lines in boundary/extract.py: `merge_up_lines` and `merge_down_fn`, which join a
-- declaration or a definition into one line.
pub mod Access
pub mod Up
pub mod Down
pub mod Closes
use plugsched.Common.{
  ℕ, zero, suc, ◌+◌, Bool, true, false, ◌||◌, ◌&&◌, nat_eq, Option, none, some, List, [], ◌∷◌, ◌++◌,
  if◌then◌else◌, ◌==◌, length, ltb,
}
use plugsched.Common.Text.{Text, codes, text_eq, starts_with, occurs, is_space}
use plugsched.Common.Errors.{Result, ok, err, index_error, ◌>>=◌}
use mathlib.Core.List.{reverse}

abbrev pub get_elem? {ℓ} : {A : Type ℓ} → List A → ℕ → Option A
get_elem? [] i = none
get_elem? (x ∷ xs) zero = some x
get_elem? (x ∷ xs) (suc i) = get_elem? xs i

-- `lines[i] = line`, where `lines[i]` was read before
abbrev pub set_line : ℕ → Text → List Text → List Text
set_line i line [] = []
set_line zero line (_ ∷ lines) = line ∷ lines
set_line (suc i) line (first ∷ lines) = first ∷ set_line i line lines

-- `lines[i]`
abbrev pub or_index_error : Option Text → Result Text
or_index_error none = err index_error
or_index_error (some line) = ok line

abbrev pub get_line : List Text → ℕ → Result Text
get_line lines i = or_index_error (get_elem? lines i)

strip_left : Text → Text
strip_left [] = []
strip_left (c ∷ t) = let rest = strip_left t in if is_space c then rest else c ∷ t

-- `line.strip()`
unfoldable pub strip : Text → Text
unfolding strip_left
strip line = reverse (strip_left (reverse (strip_left line)))

-- `line.replace(' ;', ';')`
unfoldable pub close_up : Text → Text
close_up [] = []
close_up (c ∷ []) = c ∷ []
close_up (c ∷ d ∷ t) =
    let rest = close_up (d ∷ t) in if c == b' ' && d == b';' then rest else c ∷ rest

-- the regular expression `;|}|#|//|\*/|^\n$`, whose `$` also stands before a last newline
unfoldable pub terminator : Text → Bool
terminator line =
    occurs (codes ";") line
    || occurs (codes "}") line
    || occurs (codes "#") line
    || occurs (codes "//") line
    || occurs (codes "*/") line
    || line == codes "\n"
    || line == codes "\n\n"

-- the loop, with its variables `curr` and `merged`
unfoldable pub merge_up : ℕ → Text → List Text → Result (ℕ × Text × List Text)
merge_up zero merged lines = ok (zero, merged, lines)
merge_up (suc curr) merged lines = do
  line ← get_line lines curr
  let rest = merge_up curr (strip line ++ codes " " ++ merged) (set_line (suc curr) [] lines)
  if terminator line then ok (suc curr, merged, lines) else rest

unfoldable pub merge_up_lines : List Text → ℕ → Result (ℕ × List Text)
merge_up_lines lines curr = do
  line ← get_line lines curr
  r ← merge_up curr (strip line) lines
  ok (r.0, set_line r.0 (close_up r.1 ++ codes "\n") r.2)

-- `line.count(c)`
unfoldable pub count : ℕ → Text → ℕ
count c [] = 0
count c (d ∷ t) = if c == d then suc (count c t) else count c t

-- `curr += 1` and the braces of the line there
abbrev pub descend :
    (ℕ → Text → ℕ → ℕ → List Text → Result (ℕ × Text × List Text))
    → ℕ
    → Text
    → ℕ
    → ℕ
    → List Text
    → Result (ℕ × Text × List Text)
descend loop curr merged l_brace r_brace lines = do
  below ← get_line lines (suc curr)
  loop (suc curr) merged (l_brace + count b'{' below) (r_brace + count b'}' below) lines

-- the loop of `merge_down_fn`; `fuel` is the number of lines, after which `lines[curr]` fails
unfoldable pub merge_down : ℕ → ℕ → Text → ℕ → ℕ → List Text → Result (ℕ × Text × List Text)
merge_down zero curr merged l_brace r_brace lines = err index_error
merge_down (suc fuel) curr merged l_brace r_brace lines = do
  line ← get_line lines curr
  let rest =
      descend (merge_down fuel) curr (merged ++ strip line ++ codes " ") l_brace r_brace
        (set_line curr [] lines)
  if l_brace == 0 || ltb r_brace l_brace then rest else ok (curr, merged, lines)

unfoldable pub merge_down_fn : List Text → ℕ → Result (ℕ × List Text)
merge_down_fn lines start = do
  line ← get_line lines start
  r ← merge_down (suc (length lines)) start [] (count b'{' line) (count b'}' line) lines
  last ← get_line r.2 r.0
  ok (r.0, set_line start (r.1 ++ last) (set_line r.0 [] r.2))
