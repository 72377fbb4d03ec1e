-- ===== src/Common/Lists.antt =====
-- Lists under native indices, Boolean filters.
use Prim.Native.Nat.{ℕ, zero, suc, ◌≤◌}
use mathlib.Core.Path.{◌≡◌, refl, subst, ap}
use mathlib.Core.Logic.{◌↔◌, ◌⊎◌, inl, inr, ⊎_elim}
use mathlib.Core.List.Memᴰ
use mathlib.Core.Bool.{Bool, false, ◌||◌}
use mathlib.Core.Option.{Option, none, some}
use mathlib.Core.List.{Memᴰ, List, [], ◌∷◌, ◌++◌}
use native.Mathlib.Omega.{arith}
use plugsched.Common.Logic.{if◌then◌else◌, Bool-cases}

module _ {ℓ} {A : Type ℓ} where
  abbrev pub length : List A → ℕ
  length [] = 0
  length (_ ∷ xs) = suc (length xs)

  -- `[x for x in xs if p(x)]`
  unfoldable pub filter : (A → Bool) → List A → List A
  filter p [] = []
  filter p (x ∷ xs) = let rest = filter p xs in if p x then x ∷ rest else rest

  -- `any(p(x) for x in xs)`
  unfoldable pub any : (A → Bool) → List A → Bool
  any p [] = false
  any p (x ∷ xs) = p x || any p xs

  -- `xs[:n]`
  abbrev pub take : ℕ → List A → List A
  take zero xs = []
  take (suc n) [] = []
  take (suc n) (x ∷ xs) = x ∷ take n xs

  pub length-filter-le : (p : A → Bool) (xs : List A) → length (filter p xs) ≤ length xs
  unfolding filter
  length-filter-le p [] = omega arith
  length-filter-le p (x ∷ xs) = ground (arith, length-filter-le p xs)

-- `filter(None, map(f, xs))`
unfoldable pub filter_map {ℓ κ} : {A : Type ℓ} {B : Type κ} → (A → Option B) → List A → List B
filter_map f [] = []
filter_map f (x ∷ xs) = let rest = filter_map f xs in elim (f x) [ none ↦ rest | some y ↦ y ∷ rest ]

pub length-filter_map-le {ℓ κ} :
    {A : Type ℓ} {B : Type κ} (f : A → Option B) (xs : List A)
    → length (filter_map f xs) ≤ length xs
unfolding filter_map
length-filter_map-le f [] = omega arith
length-filter_map-le f (x ∷ xs) = ground (arith, length-filter_map-le f xs)

-- A loop `for x in xs` that changes a state step by step collects, over all rounds, what each
-- round adds.
module _ {ℓ κ μ ν} {X : Type ℓ} {S : Type κ} (P : S → Type μ) (Q : X → Type ν) (step : X → S → S)
    (each : (x : X) (s : S) → P (step x s) ↔ (P s ⊎ Q x)) where
  pub loop_collects :
      (run : List X → S → S)
      → ((s : S) → run [] s ≡ s)
      → ((x : X) (xs : List X) (s : S) → run (x ∷ xs) s ≡ run xs (step x s))
      → (xs : List X) (s : S) → P (run xs s) ↔ (P s ⊎ ((x : X) × Memᴰ x xs × Q x))
  loop_collects run nil cons [] s =
      rw (nil s) (inl, ⊎_elim (λ p. p) (λ (x, m, _). absurd (Memᴰ.not-nil m)))
  loop_collects run nil cons (x ∷ xs) s =
      let (fore, back) = loop_collects run nil cons xs (step x s) in
      rw (cons x xs s) (
        λ h. elim (fore h) [
          | inl p ↦ ⊎_elim inl (λ q. inr (x, Memᴰ.head refl, q)) ((each x s).0 p)
          | inr (y, m, q) ↦ inr (y, Memᴰ.tail m, q)
        ],
        λ h. elim h [
          | inl p ↦ back (inl ((each x s).1 (inl p)))
          | inr (y, m, q) ↦ elim (Memᴰ.cases_cons m) [
            | inl same ↦ back (inl ((each x s).1 (inr (subst Q same q))))
            | inr rest ↦ back (inr (y, rest, q))
          ]
        ],
      )

module _ {ℓ} {A : Type ℓ} where
  pub filter-++ : (p : A → Bool) (xs ys : List A) → filter p (xs ++ ys) ≡ filter p xs ++ filter p ys
  unfolding filter
  filter-++ p [] ys = refl
  filter-++ p (x ∷ xs) ys = elim (Bool-cases (p x)) [
    | inl kept ↦ rw kept (ap (λ zs. x ∷ zs) (filter-++ p xs ys))
    | inr dropped ↦ rw dropped (filter-++ p xs ys)
  ]
