-- ===== src/Common/Sets.antt =====
-- Python's sets, as lists that are read through `member`; an iteration over a set visits the
-- elements in the order of the list. Every operation keeps a list free of duplicates.
pub mod Laws
pub mod Sizes
use mathlib.Core.Bool.{Bool, true, false, not, ◌||◌}
use mathlib.Core.List.{List, [], ◌∷◌}
use mathlib.Core.Path.{◌≡◌}
use plugsched.Common.Logic.{Eq, ◌==◌, if◌then◌else◌}
use plugsched.Common.Lists.{filter}

module _ {ℓ} {A : Type ℓ} ⦃e : Eq A⦄ where
  -- `a in xs`
  unfoldable pub member : A → List A → Bool
  member a [] = false
  member a (x ∷ xs) = a == x || member a xs

  -- `xs.add(a)`
  unfoldable pub add : A → List A → List A
  unfolding member
  add a xs = if member a xs then xs else a ∷ xs

  -- `set(xs)`
  unfoldable pub from_list : List A → List A
  unfolding add
  from_list [] = []
  from_list (x ∷ xs) = add x (from_list xs)

  -- `xs | ys`
  unfoldable pub union : List A → List A → List A
  unfolding add
  union [] ys = ys
  union (x ∷ xs) ys = add x (union xs ys)

  -- `xs - ys`
  unfoldable pub diff : List A → List A → List A
  unfolding member filter
  diff xs ys = filter (λ x. not (member x ys)) xs

  -- `xs & ys`
  unfoldable pub inter : List A → List A → List A
  unfolding member filter
  inter xs ys = filter (λ x. member x ys) xs

  -- `not xs`
  abbrev pub is_empty : List A → Bool
  is_empty [] = true
  is_empty (_ ∷ _) = false

  -- No element stands twice.
  abbrev pub IsDistinct : List A → Type 0
  IsDistinct [] = Unit {0}
  IsDistinct (x ∷ xs) = (member x xs ≡ false) × IsDistinct xs

  -- Every element of `xs` is one of `ys`.
  abbrev pub Within : List A → List A → Type ℓ
  Within xs ys = (a : A) → member a xs ≡ true → member a ys ≡ true
