-- ===== src/Common/Dict.antt =====
-- Python's dictionaries in insertion order, with one entry for a key.
use mathlib.Core.List.{List, [], ◌∷◌}
use mathlib.Core.Option.{Option, none, some}
use mathlib.Core.Logic.{inl, inr}
use mathlib.Core.Path.{◌≡◌, refl, ap}
use native.Mathlib.Omega.{arith}
use plugsched.Common.Logic.{Eq, Bool-cases, ◌==◌, if◌then◌else◌}
use plugsched.Common.Errors.{Result, ok, err, key_error}

abbrev or_key_error {ℓ} : {V : Type ℓ} → Option V → Result V
or_key_error none = err key_error
or_key_error (some v) = ok v

abbrev pub Dict {ℓ κ} : Type ℓ → Type κ → Type (ℓ ⊔ κ)
Dict K V = List (K × V)

module _ {ℓ κ} {K : Type ℓ} {V : Type κ} ⦃e : Eq K⦄ where
  -- `d.get(k)`
  unfoldable pub lookup : K → Dict K V → Option V
  lookup k [] = none
  lookup k ((j, v) ∷ d) = if k == j then some v else lookup k d

  -- `d[k]`
  unfoldable pub get_item : K → Dict K V → Result V
  unfolding lookup
  get_item k d = or_key_error (lookup k d)

  -- `d[k] = v`
  unfoldable pub insert : K → V → Dict K V → Dict K V
  insert k v [] = (k, v) ∷ []
  insert k v ((j, w) ∷ d) = if k == j then (k, v) ∷ d else (j, w) ∷ insert k v d

  pub get_item_of_some : (k : K) (d : Dict K V) (v : V) → lookup k d ≡ some v → get_item k d ≡ ok v
  unfolding get_item lookup
  get_item_of_some k d v h = ap or_key_error h

  pub get_item_of_none : (k : K) (d : Dict K V) → lookup k d ≡ none → get_item k d ≡ err key_error
  unfolding get_item lookup
  get_item_of_none k d h = ap or_key_error h

  pub lookup-insert :
      (j k : K) (v : V) (d : Dict K V)
      → lookup j (insert k v d) ≡ (if j == k then some v else lookup j d)
  unfolding insert lookup
  lookup-insert j k v [] = refl
  lookup-insert j k v ((i, w) ∷ d) =
      ground (arith, lookup-insert j k v d, e.beq_iff j k, e.beq_iff k i, e.beq_iff j i)

  pub insert_twice : (k : K) (v w : V) (d : Dict K V) → insert k v (insert k w d) ≡ insert k v d
  unfolding insert
  insert_twice k v w [] = ground (arith, e.beq_iff k k)
  insert_twice k v w ((j, u) ∷ d) = ground (arith, insert_twice k v w d, e.beq_iff k k)

module _ {ℓ κ μ} {K : Type ℓ} {V : Type κ} (P : V → Type μ) where
  -- every value of a dictionary
  abbrev pub Values : Dict K V → Type μ
  Values [] = Unit
  Values ((_, v) ∷ d) = P v × Values d

module _ {ℓ κ μ} {K : Type ℓ} {V : Type κ} ⦃e : Eq K⦄ (P : V → Type μ) where
  pub insert-Values : (k : K) (v : V) (d : Dict K V) → P v → Values P d → Values P (insert k v d)
  unfolding insert
  insert-Values k v [] p h = (p, tt)
  insert-Values k v ((j, w) ∷ d) p (q, h) = elim (Bool-cases (k == j)) [
    | inl same ↦ rw same (p, h)
    | inr other ↦ rw other (q, insert-Values k v d p h)
  ]
