-- ===== src/Extract/Lines/Access.antt =====
-- Reading a line after one was replaced.
use plugsched.Common.{ℕ, zero, suc, ◌<◌, ◌≢◌, some, List, [], ◌∷◌, ◌≡◌, refl, arith, length}
use plugsched.Common.Text.{Text}
use plugsched.Extract.Lines.{get_elem?, set_line}

pub get_elem?-set_line_self :
    (i : ℕ) (line : Text) (lines : List Text)
    → i < length lines
    → get_elem? (set_line i line lines) i ≡ some line
get_elem?-set_line_self i line [] h = absurd (omega arith)
get_elem?-set_line_self zero line (_ ∷ lines) h = refl
get_elem?-set_line_self (suc i) line (_ ∷ lines) h =
    get_elem?-set_line_self i line lines (omega arith)

pub get_elem?-set_line_other :
    (i j : ℕ) (line : Text) (lines : List Text)
    → i ≢ j
    → get_elem? (set_line j line lines) i ≡ get_elem? lines i
get_elem?-set_line_other i j line [] h = refl
get_elem?-set_line_other zero zero line (_ ∷ lines) h = absurd (h refl)
get_elem?-set_line_other zero (suc j) line (_ ∷ lines) h = refl
get_elem?-set_line_other (suc i) zero line (_ ∷ lines) h = refl
get_elem?-set_line_other (suc i) (suc j) line (_ ∷ lines) h =
    get_elem?-set_line_other i j line lines (λ e. h (omega arith))

pub length-set_line :
    (i : ℕ) (line : Text) (lines : List Text) → length (set_line i line lines) ≡ length lines
length-set_line i line [] = refl
length-set_line zero line (_ ∷ lines) = refl
length-set_line (suc i) line (_ ∷ lines) = omega (arith, length-set_line i line lines)

pub get_elem?-lt :
    (i : ℕ) (lines : List Text) → i < length lines → (line : Text) × (get_elem? lines i ≡ some line)
get_elem?-lt i [] h = absurd (omega arith)
get_elem?-lt zero (line ∷ lines) h = (line, refl)
get_elem?-lt (suc i) (_ ∷ lines) h = get_elem?-lt i lines (omega arith)

pub lt_of_get_elem? :
    (i : ℕ) (line : Text) (lines : List Text) → get_elem? lines i ≡ some line → i < length lines
lt_of_get_elem? i line [] h = absurd (cc)
lt_of_get_elem? zero line (_ ∷ lines) h = omega arith
lt_of_get_elem? (suc i) line (_ ∷ lines) h = omega (arith, lt_of_get_elem? i line lines h)
