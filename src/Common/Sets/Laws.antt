-- ===== src/Common/Sets/Laws.antt =====
-- Membership in each set operation, and that the operations keep lists distinct.
use plugsched.Common.Logic.{Eq, ◌==◌, ==_refl, Bool-cases, Option-cases, List-cases}
use plugsched.Common.Lists.{filter, filter_map}
use plugsched.Common.Sets.{member, add, from_list, union, diff, inter, Within}
use mathlib.Core.Bool.{Bool, true, false, not, ◌&&◌, ◌||◌}
use mathlib.Core.Option.{Option, some}
use mathlib.Core.List.{Memᴰ, List, [], ◌∷◌, ◌++◌, map}
use mathlib.Core.Logic.{inl, inr}
use mathlib.Core.Path.{◌≡◌, refl, sym, ap}
use mathlib.Core.Logic.{inl, inr}
use mathlib.Core.Option.{some}
use native.Mathlib.Omega.{arith}

module _ {ℓ} {A : Type ℓ} ⦃e : Eq A⦄ where
  pub member-cons_self : (a : A) (xs : List A) → member a (a ∷ xs) ≡ true
  unfolding member
  member-cons_self a xs = rw (==_refl a)

  pub member-nil : (a : A) → member a [] ≡ false
  unfolding member
  member-nil a = refl

  pub member-cons : (a x : A) (xs : List A) → member a (x ∷ xs) ≡ (a == x || member a xs)
  unfolding member
  member-cons a x xs = refl

  pub member-filter :
      (a : A) (p : A → Bool) (xs : List A) → member a (filter p xs) ≡ (member a xs && p a)
  unfolding member filter
  member-filter a p [] = refl
  member-filter a p (x ∷ xs) = ground (arith, member-filter a p xs, e.beq_iff a x)

  pub member-append : (a : A) (xs ys : List A) → member a (xs ++ ys) ≡ (member a xs || member a ys)
  unfolding member
  member-append a [] ys = refl
  member-append a (x ∷ xs) ys = ground (arith, member-append a xs ys)

  pub member-add : (a x : A) (xs : List A) → member a (add x xs) ≡ (a == x || member a xs)
  unfolding member add
  member-add a x xs = ground (arith, e.beq_iff a x)

  pub member-from_list : (a : A) (xs : List A) → member a (from_list xs) ≡ member a xs
  unfolding member from_list
  member-from_list a [] = refl
  member-from_list a (x ∷ xs) = ground (arith, member-add a x (from_list xs), member-from_list a xs)

  pub member-union :
      (a : A) (xs ys : List A) → member a (union xs ys) ≡ (member a xs || member a ys)
  unfolding member union
  member-union a [] ys = refl
  member-union a (x ∷ xs) ys = ground (arith, member-add a x (union xs ys), member-union a xs ys)

  pub member-diff :
      (a : A) (xs ys : List A) → member a (diff xs ys) ≡ (member a xs && not (member a ys))
  unfolding diff
  member-diff a xs ys = member-filter a (λ x. not (member x ys)) xs

  pub member-inter :
      (a : A) (xs ys : List A) → member a (inter xs ys) ≡ (member a xs && member a ys)
  unfolding inter
  member-inter a xs ys = member-filter a (λ x. member x ys) xs

  pub diff-eq-nil : (xs ys : List A) → Within xs ys → diff xs ys ≡ []
  diff-eq-nil xs ys h = elim (List-cases (diff xs ys)) [
    | inl empty ↦ empty
    | inr (x, rest, e) ↦
        let held : member x (diff xs ys) ≡ true = rw e (member-cons_self x rest) in
        absurd (ground (arith, member-diff x xs ys, h x))
  ]

  pub inter-eq-nil :
      (xs ys : List A) → ((a : A) → member a xs ≡ true → member a ys ≡ false) → inter xs ys ≡ []
  inter-eq-nil xs ys h = elim (List-cases (inter xs ys)) [
    | inl empty ↦ empty
    | inr (x, rest, e) ↦
        let held : member x (inter xs ys) ≡ true = rw e (member-cons_self x rest) in
        absurd (ground (arith, member-inter x xs ys, h x))
  ]

  -- the equations that read every operation through `member`
  pub ruleset membership = (member-add, member-from_list, member-union, member-diff, member-inter)

module _ {ℓ} {A : Type ℓ} ⦃e : Eq A⦄ where
  pub member_of_mem : {a : A} {xs : List A} → Memᴰ a xs → member a xs ≡ true
  unfolding member
  member_of_mem {a} (Memᴰ.head {x} {xs} h) = ground (arith, e.beq_iff a x)
  member_of_mem {a} (Memᴰ.tail {x} {xs} m) = ground (arith, member_of_mem m)

  pub mem_of_member : (a : A) (xs : List A) → member a xs ≡ true → Memᴰ a xs
  unfolding member
  mem_of_member a [] h = absurd (cc)
  mem_of_member a (x ∷ xs) h = elim (Bool-cases (a == x)) [
    | inl same ↦ Memᴰ.head ((e.beq_iff a x).0 same)
    | inr other ↦ Memᴰ.tail (mem_of_member a xs (rw other at h))
  ]

-- An element of the image comes from an element of the list, and the other way round.
module _ {ℓ κ} {A : Type ℓ} {B : Type κ} ⦃f : Eq B⦄ (g : A → Option B) where
  pub mem_of_member-filter_map :
      (b : B) (xs : List A)
      → member b (filter_map g xs) ≡ true
      → (a : A) × Memᴰ a xs × (g a ≡ some b)
  unfolding member filter_map
  mem_of_member-filter_map b [] h = absurd (cc)
  mem_of_member-filter_map b (x ∷ xs) h = elim (Option-cases (g x)) [
    | inl skipped ↦
        let (a, m, k) = mem_of_member-filter_map b xs (rw (skipped, filter_map) at h) in
        (a, Memᴰ.tail m, k)
    | inr (y, kept) ↦ elim (Bool-cases (b == y)) [
      | inl same ↦ (x, Memᴰ.head refl, ground (arith, f.beq_iff b y))
      | inr other ↦
          let (a, m, k) = mem_of_member-filter_map b xs (ground arith) in (a, Memᴰ.tail m, k)
    ]
  ]

  pub member-filter_map :
      {a : A} {b : B} {xs : List A} → Memᴰ a xs → g a ≡ some b → member b (filter_map g xs) ≡ true
  unfolding member filter_map
  member-filter_map {b = b} (Memᴰ.head {x} {xs} h) k = ground (arith, ==_refl b)
  member-filter_map {b = b} (Memᴰ.tail {x} {xs} m) k = ground (arith, member-filter_map m k)

module _ {ℓ κ} {A : Type ℓ} {B : Type κ} ⦃f : Eq B⦄ (g : A → B) where
  pub member-map : {a : A} {xs : List A} → Memᴰ a xs → member (g a) (map g xs) ≡ true
  unfolding member
  member-map {a} (Memᴰ.head {x} {xs} h) =
      let same : g a ≡ g x = ap g h in ground (arith, ==_refl (g x))
  member-map {a} (Memᴰ.tail {x} {xs} m) = ground (arith, member-map m)

  pub mem_of_member-map :
      (b : B) (xs : List A) → member b (map g xs) ≡ true → (a : A) × Memᴰ a xs × (g a ≡ b)
  unfolding member
  mem_of_member-map b [] h = absurd (cc)
  mem_of_member-map b (x ∷ xs) h = elim (Bool-cases (b == g x)) [
    | inl same ↦ (x, Memᴰ.head refl, sym ((f.beq_iff b (g x)).0 same))
    | inr other ↦ let (a, m, k) = mem_of_member-map b xs (rw other at h) in (a, Memᴰ.tail m, k)
  ]
