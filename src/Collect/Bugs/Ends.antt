-- ===== src/Collect/Bugs/Ends.antt =====
-- `array_pointer` has rounds enough: each takes a character of the text at least.
use plugsched.Common.{
  ℕ, zero, suc, ◌+◌, ◌<◌, ◌≤◌, ◌&&◌, ◌==◌, nat_eq, Option, none, some, [], ◌∷◌, ◌++◌, ◌≡◌, ◌∙◌,
  refl, sym, ap, inl, inr, arith, Bool-cases, Option-cases, length,
}
use plugsched.Common.Text.{Text, codes, starts_with, drop_text, is_space}
use plugsched.Collect.Bugs.{
  digits, array_at, keep_char, at_front, last_array, skip_spaces, declarator, first_line, next_line,
  array_round, array_pointers, array_pointer,
}

length-digits : (t : Text) → length (digits t).1 ≤ length t
length-digits [] = omega arith
length-digits (c ∷ t) = ground (arith, length-digits t)

length-drop_text : (s t : Text) → length (drop_text s t) ≤ length t
unfolding drop_text
length-drop_text [] t = omega arith
length-drop_text (_ ∷ s) [] = omega arith
length-drop_text (_ ∷ s) (_ ∷ t) = omega (arith, length-drop_text s t)

length-skip_spaces : (t : Text) → length (skip_spaces t) ≤ length t
length-skip_spaces [] = omega arith
length-skip_spaces (c ∷ t) = elim (Bool-cases (is_space c)) [
  | inl space ↦ rw space (omega (arith, length-skip_spaces t))
  | inr other ↦ rw other (omega arith)
]

length-declarator : (t : Text) → length (declarator t).1 ≤ length t
length-declarator [] = omega arith
length-declarator (c ∷ t) = ground (arith, length-declarator t)

length-first_line : (t : Text) → length (first_line t).1 ≤ length t
length-first_line [] = omega arith
length-first_line (c ∷ t) = ground (arith, length-first_line t)

-- A text that is not empty is longer than what follows its first line.
length-first_line_lt : (c : ℕ) (t : Text) → length (first_line (c ∷ t)).1 < length (c ∷ t)
length-first_line_lt c t = ground (arith, length-first_line t)

-- what `array_at` and `last_array` leave of the text
abbrev RestLt : ℕ → Option (Text × Text) → Type 0
RestLt n none = Unit {0}
RestLt n (some (size, rest)) = length rest < n

abbrev Rest3Lt : ℕ → Option (Text × Text × Text) → Type 0
Rest3Lt n none = Unit {0}
Rest3Lt n (some (before, size, rest)) = length rest < n

array_at-RestLt : (t : Text) → RestLt (length t) (array_at t)
unfolding array_at
array_at-RestLt [] = tt
array_at-RestLt (c ∷ t) = elim (Bool-cases (c == b'[' && starts_with (codes "] *") (digits t).1)) [
  | inl here ↦ rw here (omega (arith, length-drop_text (codes "] *") (digits t).1, length-digits t))
  | inr other ↦ rw other tt
]

at_front-Rest3Lt : (n : ℕ) (o : Option (Text × Text)) → RestLt n o → Rest3Lt n (at_front o)
at_front-Rest3Lt n none h = tt
at_front-Rest3Lt n (some (size, rest)) h = h

keep_char-Rest3Lt :
    (n c : ℕ) (o : Option (Text × Text × Text)) → Rest3Lt n o → Rest3Lt (suc n) (keep_char c o)
keep_char-Rest3Lt n c none h = tt
keep_char-Rest3Lt n c (some (before, size, rest)) h = omega arith

last_array-Rest3Lt : (t : Text) → Rest3Lt (length t) (last_array t)
unfolding last_array
last_array-Rest3Lt [] = tt
last_array-Rest3Lt (c ∷ t) =
    let here = at_front-Rest3Lt (suc (length t)) (array_at (c ∷ t)) (array_at-RestLt (c ∷ t)) in
    let later = keep_char-Rest3Lt (length t) c (last_array t) (last_array-Rest3Lt t) in
    elim (Bool-cases (c == b'\n')) [
      | inl cut ↦ rw cut here
      | inr other ↦ elim (Option-cases (keep_char c (last_array t))) [
        | inl missing ↦ rw (other, missing) here
        | inr (found, e) ↦ rw (other, e) (rw e at later)
      ]
    ]

-- two ways to go on that agree on all shorter texts
abbrev AgreeBelow : ℕ → (Text → Text) → (Text → Text) → Type 0
AgreeBelow n f g = (t : Text) → length t < n → f t ≡ g t

next_line-AgreeBelow :
    (n : ℕ) (f g : Text → Text) (str : Text) (line : Text × Text)
    → AgreeBelow n f g
    → length line.1 < n
    → next_line f str line ≡ next_line g str line
next_line-AgreeBelow n f g str (line, []) agree lt = refl
next_line-AgreeBelow n f g str (line, c ∷ rest) agree lt =
    ap (λ rest. line ++ rest) (agree (c ∷ rest) lt)

array_round-AgreeBelow :
    (f g : Text → Text) (c : ℕ) (t : Text) (found : Option (Text × Text × Text))
    → AgreeBelow (length (c ∷ t)) f g
    → Rest3Lt (length (c ∷ t)) found
    → array_round f (c ∷ t) found ≡ array_round g (c ∷ t) found
array_round-AgreeBelow f g c t none agree h =
    next_line-AgreeBelow (length (c ∷ t)) f g (c ∷ t) (first_line (c ∷ t)) agree
      (length-first_line_lt c t)
array_round-AgreeBelow f g c t (some (before, size, rest)) agree h =
    let name = declarator (skip_spaces rest) in
    ap
      (λ after.
        before ++ (codes " (*" ++ (name.0 ++ (codes ")[" ++ (size ++ (codes "]" ++ after))))))
      (agree name.1 (omega (arith, length-declarator (skip_spaces rest), length-skip_spaces rest)))

array_pointers-nil : (rounds : ℕ) → array_pointers rounds [] ≡ []
unfolding array_pointers last_array
array_pointers-nil zero = refl
array_pointers-nil (suc rounds) = refl

array_pointers_agree :
    (m n : ℕ) (str : Text)
    → length str ≤ m
    → length str ≤ n
    → array_pointers m str ≡ array_pointers n str
unfolding array_pointers
array_pointers_agree m n [] h k = array_pointers-nil m ∙ sym (array_pointers-nil n)
array_pointers_agree zero n (c ∷ t) h k = absurd (omega arith)
array_pointers_agree (suc m) zero (c ∷ t) h k = absurd (omega arith)
array_pointers_agree (suc m) (suc n) (c ∷ t) h k =
    array_round-AgreeBelow (array_pointers m) (array_pointers n) c t (last_array (c ∷ t))
      (λ u lt. array_pointers_agree m n u (omega arith) (omega arith)) (last_array-Rest3Lt (c ∷ t))

-- As many rounds as the text has characters are enough: any further round changes nothing.
pub array_pointer_ends :
    (extra : ℕ) (str : Text) → array_pointers (length str + extra) str ≡ array_pointer str
unfolding array_pointer
array_pointer_ends extra str =
    array_pointers_agree (length str + extra) (length str) str (omega arith) (omega arith)
