-- ===== src/Common/Order/Sorted.antt =====
-- `sorted` keeps the elements and puts a least one first.
use mathlib.Core.Bool.{true, false, ◌||◌}
use mathlib.Core.List.{List, [], ◌∷◌}
use mathlib.Core.Logic.{inl, inr}
use mathlib.Core.Path.{◌≡◌, refl, ◌∙◌}
use native.Mathlib.Omega.{arith}
use plugsched.Common.Logic.{Eq, ◌==◌, Bool-cases}
use plugsched.Common.Sets.{member, IsDistinct}
use plugsched.Common.Order.{Order, insert_sorted, sorted}

module _ {ℓ} {A : Type ℓ} ⦃e : Eq A⦄ ⦃o : Order A⦄ where
  member-insert_sorted :
      (a x : A) (xs : List A) → member a (insert_sorted x xs) ≡ (a == x || member a xs)
  unfolding member insert_sorted
  member-insert_sorted a x [] = refl
  member-insert_sorted a x (y ∷ ys) = ground (arith, member-insert_sorted a x ys)

  pub member-sorted : (a : A) (xs : List A) → member a (sorted xs) ≡ member a xs
  unfolding member sorted
  member-sorted a [] = refl
  member-sorted a (x ∷ xs) =
      ground (arith, member-insert_sorted a x (sorted xs), member-sorted a xs)

  insert_sorted-IsDistinct :
      (a : A) (xs : List A) → member a xs ≡ false → IsDistinct xs → IsDistinct (insert_sorted a xs)
  unfolding insert_sorted member
  insert_sorted-IsDistinct a [] fresh h = (refl, tt)
  insert_sorted-IsDistinct a (x ∷ xs) fresh (out, h) = elim (Bool-cases (o.le a x)) [
    | inl small ↦ rw small (fresh, (out, h))
    | inr large ↦ rw large (
      ground (arith, member-insert_sorted x a xs, e.beq_iff x a, e.beq_iff a x),
      insert_sorted-IsDistinct a xs (ground arith) h,
    )
  ]

  pub sorted-IsDistinct : (xs : List A) → IsDistinct xs → IsDistinct (sorted xs)
  unfolding sorted
  sorted-IsDistinct [] h = tt
  sorted-IsDistinct (x ∷ xs) (out, h) =
      insert_sorted-IsDistinct x (sorted xs) (member-sorted x xs ∙ out) (sorted-IsDistinct xs h)

  -- every element is at least `a`
  abbrev pub Above : A → List A → Type ℓ
  Above a xs = (b : A) → member b xs ≡ true → o.le a b ≡ true

  -- Each element stands before the greater ones.
  abbrev pub IsSorted : List A → Type ℓ
  IsSorted [] = Unit
  IsSorted (x ∷ xs) = Above x xs × IsSorted xs

  large_total : (a x : A) → o.le a x ≡ false → o.le x a ≡ true
  large_total a x large = elim (o.total a x) [ inl small ↦ absurd (cc) | inr le ↦ le ]

  Above-insert :
      (a x : A) (xs : List A) → Above x xs → o.le x a ≡ true → Above x (insert_sorted a xs)
  Above-insert a x xs above le b h =
      ground (arith, member-insert_sorted b a xs, e.beq_iff b a, above b)

  insert_sorted-IsSorted : (a : A) (xs : List A) → IsSorted xs → IsSorted (insert_sorted a xs)
  unfolding insert_sorted member
  insert_sorted-IsSorted a [] h = (λ b k. absurd (cc), tt)
  insert_sorted-IsSorted a (x ∷ xs) h = elim (Bool-cases (o.le a x)) [
    | inl small ↦ rw small (
      λ b k. elim (Bool-cases (b == x)) [
        | inl same ↦ rw ((e.beq_iff b x).0 same) small
        | inr other ↦ o.trans a x b small (h.0 b (rw other at k))
      ],
      h,
    )
    | inr large ↦ rw large (
      λ b k. Above-insert a x xs h.0 (large_total a x large) b k,
      insert_sorted-IsSorted a xs h.1,
    )
  ]

  pub sorted-IsSorted : (xs : List A) → IsSorted (sorted xs)
  unfolding sorted
  sorted-IsSorted [] = tt
  sorted-IsSorted (x ∷ xs) = insert_sorted-IsSorted x (sorted xs) (sorted-IsSorted xs)
