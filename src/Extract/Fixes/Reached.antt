-- ===== src/Extract/Fixes/Reached.antt =====
-- What `fix_up` has to do with each line, read off the lines before it starts.
use plugsched.Common.{
  ℕ, zero, suc, ◌<◌, ◌≤◌, Bool, true, false, not, ◌&&◌, ◌||◌, some, List, [], ◌≡◌, ◌⊎◌, inl, inr,
  refl, Bool-cases,
}
use plugsched.Common.Text.{Text, codes, starts_with, occurs, replace}
use plugsched.Common.Errors.{ok}
use plugsched.Extract.Lines.{get_elem?}
use plugsched.Extract.Lines.Closes.{Closes}
use plugsched.Extract.Fixes.{Extraction, fix_include, last_class, shadow, substitute, is_deleted}

abbrev pub is_include : Text → Bool
is_include line = occurs (codes "#include \"") line

-- whether the line holds a macro of the initialisation
abbrev pub is_init : Text → Bool
is_init line =
    occurs (codes "initcall") line
    || occurs (codes "early_param") line
    || occurs (codes "__init ") line
    || occurs (codes "__initdata ") line
    || occurs (codes "__setup") line

-- whether a definition of an initialisation function starts in the line
abbrev pub is_init_definition : Text → Bool
is_init_definition line =
    not (is_include line) && (occurs (codes "__init ") line && not (occurs (codes ";") line))

-- the line with the first of the two substitutions that applies
abbrev pub IsSubstitute : Text → Text → Type 0
IsSubstitute line fixed =
    (occurs (codes "struct atomic_t") line ≡ true)
      × (fixed ≡ replace (codes "struct atomic_t") (codes "atomic_t") line)
    ⊎ (occurs (codes "struct atomic_t") line ≡ false)
      × (starts_with (codes "extern ") line ≡ true)
      × (fixed ≡ line)
    ⊎ (occurs (codes "struct atomic_t") line ≡ false)
      × (starts_with (codes "extern ") line ≡ false)
      × (fixed ≡ shadow line (last_class line))

pub substitute-IsSubstitute : (line : Text) → IsSubstitute line (substitute line)
unfolding substitute
substitute-IsSubstitute line = elim (Bool-cases (occurs (codes "struct atomic_t") line)) [
  | inl atomic ↦ inl (atomic, rw atomic refl)
  | inr plain ↦ elim (Bool-cases (starts_with (codes "extern ") line)) [
    | inl external ↦ inr (inl (plain, external, rw (plain, external) refl))
    | inr own ↦ inr (inr (plain, own, rw (plain, own) refl))
  ]
]

pub is_deleted-eq : (line : Text) → is_deleted line ≡ is_init line
unfolding is_deleted
is_deleted-eq line = refl

-- The fixed form of a line.
abbrev pub IsFix : Extraction → Text → Text → Type 0
IsFix config line fixed =
    (is_include line ≡ true) × (fix_include config line ≡ ok fixed)
    ⊎ (is_include line ≡ false) × (is_init line ≡ true) × (fixed ≡ [])
    ⊎ (is_include line ≡ false) × (is_init line ≡ false) × IsSubstitute line fixed

-- The lines that are read as they were: the first one, the next after one in which no definition of an
-- initialisation function starts, and the next after one that closes such a definition.
pub data Reached (lines : List Text) : ℕ → Type 0 where
  top : Reached lines zero
  next :
      {i : ℕ} {line : Text}
      → Reached lines i
      → get_elem? lines i ≡ some line
      → is_init_definition line ≡ false
      → Reached lines (suc i)
  past :
      {i stop : ℕ} {line : Text}
      → Reached lines i
      → get_elem? lines i ≡ some line
      → is_init_definition line ≡ true
      → Closes lines i stop
      → Reached lines (suc stop)

-- A line after the first one of a definition of an initialisation function, up to the one that
-- closes it.
pub record IsSwallowed (lines : List Text) (k : ℕ) : Type 0 where
  pub start : ℕ
  pub stop : ℕ
  pub line : Text
  pub reached : Reached lines start
  pub found : get_elem? lines start ≡ some line
  pub definition : is_init_definition line ≡ true
  pub closes : Closes lines start stop
  pub low : start < k
  pub high : k ≤ stop

-- the line `k` is fixed or swallowed
abbrev pub IsFixed : Extraction → List Text → Text → ℕ → Text → Type 0
IsFixed config lines line k fixed =
    Reached lines k × IsFix config line fixed ⊎ IsSwallowed lines k × (fixed ≡ [])
