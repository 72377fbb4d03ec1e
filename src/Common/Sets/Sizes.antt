-- ===== src/Common/Sets/Sizes.antt =====
-- How many elements an operation leaves: the measures of the loops that work on sets.
use plugsched.Common.Logic.{Eq}
use plugsched.Common.Lists.{filter, length, length-filter-le}
use plugsched.Common.Sets.{member, add, diff, Within}
use plugsched.Common.Sets.Laws.{member-add}
use Prim.Native.Nat.{◌≤◌, ◌<◌}
use mathlib.Core.Bool.{Bool, true, false, not}
use mathlib.Core.List.{List, [], ◌∷◌}
use mathlib.Core.Path.{◌≡◌}
use native.Mathlib.Omega.{arith}

module _ {ℓ} {A : Type ℓ} ⦃e : Eq A⦄ where
  pub length-filter-lt :
      (p : A → Bool) (a : A) (xs : List A)
      → member a xs ≡ true
      → p a ≡ false
      → length (filter p xs) < length xs
  unfolding filter member
  length-filter-lt p a [] h k = absurd (cc)
  length-filter-lt p a (x ∷ xs) h k =
      ground (arith, length-filter-lt p a xs, length-filter-le p xs, e.beq_iff a x)

  -- Taking away a set that holds an element of `xs` makes `xs` shorter.
  pub length-diff-lt :
      (a : A) (xs ys : List A)
      → member a xs ≡ true
      → member a ys ≡ true
      → length (diff xs ys) < length xs
  unfolding diff
  length-diff-lt a xs ys h k = length-filter-lt (λ x. not (member x ys)) a xs h (rw k)

  length-filter_mono :
      (p q : A → Bool) (xs : List A)
      → ((a : A) → p a ≡ true → q a ≡ true)
      → length (filter p xs) ≤ length (filter q xs)
  unfolding filter
  length-filter_mono p q [] h = omega arith
  length-filter_mono p q (x ∷ xs) h = ground (arith, h x, length-filter_mono p q xs h)

  -- The more is taken away, the less is left.
  pub length-diff_anti :
      (xs ys zs : List A) → Within ys zs → length (diff xs zs) ≤ length (diff xs ys)
  unfolding diff
  length-diff_anti xs ys zs h =
      length-filter_mono (λ x. not (member x zs)) (λ x. not (member x ys)) xs
        (λ a k. ground (arith, h a))

  -- Taking away one element more leaves strictly less.
  pub length-diff-add :
      (a : A) (xs ys : List A)
      → member a xs ≡ true
      → member a ys ≡ false
      → length (diff xs (add a ys)) < length (diff xs ys)
  unfolding diff filter member
  length-diff-add a [] ys h k = absurd (cc)
  length-diff-add a (x ∷ xs) ys h k = ground (
    arith,
    length-diff_anti xs ys (add a ys) (λ b m. ground (arith, member-add b a ys)),
    length-diff-add a xs ys,
    member-add x a ys,
    e.beq_iff a x,
    e.beq_iff x a,
  )
