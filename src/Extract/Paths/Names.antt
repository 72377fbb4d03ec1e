-- ===== src/Extract/Paths/Names.antt =====
-- Paths as lists of names: what `split` and `join` do to them.
use plugsched.Common.{
  ℕ, false, ◌||◌, List, [], ◌∷◌, ◌++◌, ◌≡◌, ◌∙◌, refl, ap, inl, inr, arith, Bool-cases, ◌==◌,
  nat_eq, if◌then◌else◌,
}
use plugsched.Common.Sets.{member}
use plugsched.Common.Sets.Laws.{member-nil, member-cons, member-append}
use plugsched.Common.Text.{Text, codes, text_eq, starts_with}
use plugsched.Extract.Paths.{split_at, split_on, walk, enter, parent, absolute, join_names}
use mathlib.Core.List.{append-nil, append_assoc}

-- what stands between two slashes
abbrev pub IsPart : Text → Type 0
IsPart name = member b'/' name ≡ false

-- a part that leads down
pub record IsName (name : Text) : Type 0 where
  pub part : IsPart name
  pub nonempty : (name == []) ≡ false
  pub no_dot : (name == codes ".") ≡ false
  pub no_dots : (name == codes "..") ≡ false

abbrev pub All {ℓ κ} : {A : Type ℓ} → (A → Type κ) → List A → Type κ
All P [] = Unit
All P (x ∷ xs) = P x × All P xs

pub All-append {ℓ κ} :
    {A : Type ℓ} (P : A → Type κ) (xs ys : List A) → All P xs → All P ys → All P (xs ++ ys)
All-append P [] ys h k = k
All-append P (x ∷ xs) ys (p, h) k = (p, All-append P xs ys h k)

IsPart-snoc : (word : Text) (c : ℕ) → IsPart word → (c == b'/') ≡ false → IsPart (word ++ c ∷ [])
IsPart-snoc word c h other =
    ground (arith, member-append b'/' word (c ∷ []), member-cons b'/' c [], member-nil {A = ℕ} b'/')

split_at-parts : (word t : Text) → IsPart word → All IsPart (split_at b'/' word t)
unfolding split_at
split_at-parts word [] h = (h, tt)
split_at-parts word (c ∷ t) h = elim (Bool-cases (c == b'/')) [
  | inl cut ↦ rw cut (h, split_at-parts [] t (member-nil b'/'))
  | inr other ↦ rw other (split_at-parts (word ++ c ∷ []) t (IsPart-snoc word c h other))
]

enter-names :
    (dir : List Text) (name : Text) → All IsName dir → IsPart name → All IsName (enter dir name)
enter-names dir name h part = elim (Bool-cases (name == [] || name == codes ".")) [
  | inl stays ↦ rw stays h
  | inr moves ↦ elim (Bool-cases (name == codes "..")) [
    | inl up ↦ rw (moves, up) (parent-names dir h)
    | inr down ↦
        rw (moves, down)
          (All-append IsName dir (name ∷ []) h (
            record { part = part; nonempty = ground arith; no_dot = ground arith; no_dots = down },
            tt,
          ))
  ]
]
  where
    parent-names : (dir : List Text) → All IsName dir → All IsName (parent dir)
    parent-names [] h = tt
    parent-names (name ∷ []) h = tt
    parent-names (name ∷ next ∷ names) (p, h) = (p, parent-names (next ∷ names) h)

walk-names :
    (dir names : List Text) → All IsName dir → All IsPart names → All IsName (walk dir names)
unfolding walk
walk-names dir [] h k = h
walk-names dir (name ∷ names) h (p, k) =
    walk-names (enter dir name) names (enter-names dir name h p) k

-- An absolute path consists of names.
pub absolute-names :
    (cwd : List Text) (path : Text) → All IsName cwd → All IsName (absolute cwd path)
unfolding absolute
absolute-names cwd path h =
    walk-names (if starts_with (codes "/") path then [] else cwd) (split_on b'/' path) start
      (split_at-parts [] path (member-nil b'/'))
  where
    start : All IsName (if starts_with (codes "/") path then [] else cwd)
    start = elim (Bool-cases (starts_with (codes "/") path)) [
      | inl root ↦ rw root tt
      | inr relative ↦ rw relative h
    ]

-- A part is read up to the slash behind it, or to the end.
split_at-last : (word name : Text) → IsPart name → split_at b'/' word name ≡ (word ++ name) ∷ []
unfolding split_at
split_at-last word [] h = rw (append-nil word) refl
split_at-last word (c ∷ t) h =
    let apart : (c == b'/') ≡ false = ground (arith, member-cons b'/' c t) in
    let rest = split_at-last (word ++ c ∷ []) t (ground (arith, member-cons b'/' c t)) in
    rw apart (rest ∙ ap (λ w. w ∷ []) (append_assoc word (c ∷ []) t))

split_at-part :
    (word name t : Text)
    → IsPart name
    → split_at b'/' word (name ++ (codes "/" ++ t)) ≡ (word ++ name) ∷ split_at b'/' [] t
unfolding split_at
split_at-part word [] t h = rw (append-nil word) refl
split_at-part word (c ∷ name) t h =
    let apart : (c == b'/') ≡ false = ground (arith, member-cons b'/' c name) in
    let rest = split_at-part (word ++ c ∷ []) name t (ground (arith, member-cons b'/' c name)) in
    rw apart (rest ∙ ap (λ w. w ∷ split_at b'/' [] t) (append_assoc word (c ∷ []) name))

-- Joined parts are split into the same parts.
pub split_on-join_names :
    (name : Text) (names : List Text)
    → IsPart name
    → All IsPart names
    → split_on b'/' (join_names (name ∷ names)) ≡ name ∷ names
unfolding join_names
split_on-join_names name [] h k = split_at-last [] name h
split_on-join_names name (next ∷ names) h (p, k) =
    split_at-part [] name (join_names (next ∷ names)) h
    ∙ ap (λ rest. name ∷ rest) (split_on-join_names next names p k)
