-- ===== src/Common/Order.antt =====
-- `sorted` over an interface for total orders, and Python's order of tuples and texts.
pub mod Sorted
use Prim.Native.Nat.{ℕ}
use mathlib.Core.Bool.{Bool, true, false, ◌&&◌, ◌||◌}
use mathlib.Core.List.{List, [], ◌∷◌}
use mathlib.Core.Path.{◌≡◌, refl}
use mathlib.Core.Logic.{◌⊎◌, inl, inr}
use native.Mathlib.Omega.{arith}
use plugsched.Common.Logic.{Eq, nat_eq, pair_eq, if◌then◌else◌, leb, ltb, nat_beq, nat_beq_iff}
use plugsched.Common.Text.{Text, text_eq}

pub record Order {ℓ} (A : Type ℓ) : Type ℓ where
  pub le : A → A → Bool
  pub total : (a b : A) → (le a b ≡ true) ⊎ (le b a ≡ true)
  pub trans : (a b c : A) → le a b ≡ true → le b c ≡ true → le a c ≡ true

-- the order of str: by the first code points that differ, a prefix before what it begins
unfoldable pub text_le : Text → Text → Bool
text_le [] t = true
text_le (c ∷ s) [] = false
text_le (c ∷ s) (d ∷ t) = ltb c d || nat_beq c d && text_le s t

pub text_le_total : (s t : Text) → (text_le s t ≡ true) ⊎ (text_le t s ≡ true)
unfolding text_le
text_le_total [] t = inl refl
text_le_total (c ∷ s) [] = inr refl
text_le_total (c ∷ s) (d ∷ t) = ground (arith, text_le_total s t)

pub text_le_trans : (s t u : Text) → text_le s t ≡ true → text_le t u ≡ true → text_le s u ≡ true
unfolding text_le
text_le_trans [] t u h k = refl
text_le_trans (c ∷ s) [] u h k = absurd (cc)
text_le_trans (c ∷ s) (d ∷ t) [] h k = absurd (cc)
text_le_trans (c ∷ s) (d ∷ t) (e ∷ u) h k = ground (arith, text_le_trans s t u)

-- the order of tuples (priority, file)
unfoldable pub ranked_le : ℕ × Text → ℕ × Text → Bool
ranked_le (m, s) (n, t) = ltb m n || nat_beq m n && text_le s t

pub ranked_le_total : (a b : ℕ × Text) → (ranked_le a b ≡ true) ⊎ (ranked_le b a ≡ true)
unfolding ranked_le
ranked_le_total (m, s) (n, t) = ground (arith, text_le_total s t)

pub ranked_le_trans :
    (a b c : ℕ × Text) → ranked_le a b ≡ true → ranked_le b c ≡ true → ranked_le a c ≡ true
unfolding ranked_le
ranked_le_trans (m, s) (n, t) (o, u) h k = ground (arith, text_le_trans s t u)

instance unfoldable pub text_order : Order Text
text_order = record { le = text_le; total = text_le_total; trans = text_le_trans }

instance unfoldable pub ranked_order : Order (ℕ × Text)
ranked_order = record { le = ranked_le; total = ranked_le_total; trans = ranked_le_trans }

instance unfoldable pub ranked_eq : Eq (ℕ × Text)
unfolding text_eq
ranked_eq = pair_eq

module _ {ℓ} {A : Type ℓ} ⦃o : Order A⦄ where
  unfoldable pub insert_sorted : A → List A → List A
  insert_sorted a [] = a ∷ []
  insert_sorted a (x ∷ xs) = if o.le a x then a ∷ x ∷ xs else x ∷ insert_sorted a xs

  -- `sorted(xs)`
  unfoldable pub sorted : List A → List A
  sorted [] = []
  sorted (x ∷ xs) = insert_sorted x (sorted xs)
