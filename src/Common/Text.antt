-- ===== src/Common/Text.antt =====
-- Texts are lists of code points; `codes` reads a literal.
use Prim.Native.Char.{code}
use Prim.Native.String.{String}
use Prim.Native.Nat.{ℕ, zero, suc, ◌-◌}
use mathlib.Core.Bool.{Bool, true, false, ◌&&◌, ◌||◌}
use mathlib.Core.List.{List, [], ◌∷◌, ◌++◌, reverse}
use plugsched.Common.Logic.{Eq, if◌then◌else◌, ◌==◌, leb, nat_eq, list_eq}
use plugsched.Common.Lists.{length}

abbrev pub Text : Type 0
Text = List ℕ

abbrev pub codes : String → Text
codes String.[] = []
codes (String.◌∷◌ c s) = code c ∷ codes s

-- `t.startswith(s)`, the prefix first
unfoldable pub starts_with : Text → Text → Bool
starts_with [] t = true
starts_with (c ∷ s) [] = false
starts_with (c ∷ s) (d ∷ t) = c == d && starts_with s t

-- `t.endswith(s)`
unfoldable pub ends_with : Text → Text → Bool
ends_with s t = starts_with (reverse s) (reverse t)

-- `s in t`
unfoldable pub occurs : Text → Text → Bool
occurs s [] = starts_with s []
occurs s (c ∷ t) = starts_with s (c ∷ t) || occurs s t

-- `t[len(s):]`
unfoldable pub drop_text : Text → Text → Text
drop_text [] t = t
drop_text (_ ∷ s) [] = []
drop_text (_ ∷ s) (_ ∷ t) = drop_text s t

-- `t[:t.index(c)]`, where `c` occurs
unfoldable pub before : ℕ → Text → Text
before c [] = []
before c (d ∷ t) = let rest = before c t in if c == d then [] else d ∷ rest

-- `os.path.basename(t)`: what follows the last slash
basename_from : Text → Text → Text
basename_from last [] = last
basename_from last (c ∷ t) = basename_from (if c == b'/' then t else last) t

unfoldable pub basename : Text → Text
unfolding basename_from
basename t = basename_from t t

-- `skip` characters of a match are still to be passed over.
replace_from : Text → Text → ℕ → Text → Text
replace_from old new skip [] = []
replace_from old new (suc skip) (c ∷ t) = replace_from old new skip t
replace_from old new zero (c ∷ t) =
    let found = new ++ replace_from old new (length old - 1) t in
    let rest = c ∷ replace_from old new zero t in if starts_with old (c ∷ t) then found else rest

-- An empty text stands before each character and at the end.
replace_empty : Text → Text → Text
replace_empty new [] = new
replace_empty new (c ∷ t) = new ++ c ∷ replace_empty new t

-- `t.replace(old, new)`
unfoldable pub replace : Text → Text → Text → Text
unfolding replace_from replace_empty
replace [] new t = replace_empty new t
replace (c ∷ old) new t = replace_from (c ∷ old) new 0 t

-- Shut in proofs, which go by `beq_iff`; tests unfold it.
instance unfoldable pub text_eq : Eq Text
text_eq = list_eq

-- the ASCII characters at which `str.split()` splits and which `str.strip()` strips
unfoldable pub is_space : ℕ → Bool
is_space c = c == b' ' || leb 9 c && leb c 13 || leb 28 c && leb c 31

-- A word that has come to its end, unless it is empty.
abbrev pub flush : Text → List Text
flush [] = []
flush (c ∷ word) = (c ∷ word) ∷ []

words : Text → Text → List Text
unfolding is_space
words word [] = flush word
words word (c ∷ t) = elim (is_space c) [
  | true ↦ flush word ++ words [] t
  | false ↦ words (word ++ c ∷ []) t
]

-- `t.split()`
unfoldable pub split : Text → List Text
unfolding words
split t = words [] t
