-- ===== src/Common/Gather.antt =====
-- A loop that appends what each round yields, unless a round raises.
use mathlib.Core.List.Memᴰ
use mathlib.Core.List.{Memᴰ, List, [], ◌∷◌, ◌++◌}
use mathlib.Core.Path.{◌≡◌, refl, subst, sym, ap, ◌∙◌}
use mathlib.Core.Logic.{◌↔◌, inl, inr}
use plugsched.Common.Errors.{Result, ok, ◌>>=◌, >>=-eq-ok, ok-injective}

module _ {ℓ κ} {X : Type ℓ} {Y : Type κ} where
  unfoldable pub gather : (X → Result (List Y)) → List X → Result (List Y)
  gather round [] = ok []
  gather round (x ∷ xs) = do ys ← round x; rest ← gather round xs; ok (ys ++ rest)

  -- What has been gathered is what the rounds have yielded.
  pub mem-gather :
      (round : X → Result (List Y)) (xs : List X) (out : List Y)
      → gather round xs ≡ ok out
      → (y : Y) → Memᴰ y out ↔ ((x : X) × (ys : List Y) × Memᴰ x xs × (round x ≡ ok ys) × Memᴰ y ys)
  unfolding gather
  mem-gather round [] out e y = (
    λ m. absurd (Memᴰ.not-nil (subst (λ out. Memᴰ y out) (sym (ok-injective [] out e)) m)),
    λ (x, ys, m, _, _). absurd (Memᴰ.not-nil m),
  )
  mem-gather round (x ∷ xs) out e y =
      let (ys, r, e₁) = >>=-eq-ok (round x) _ e in
      let (rest, g, e₂) = >>=-eq-ok (gather round xs) _ e₁ in
      let (fore, back) = mem-gather round xs rest g y in
      rw (← (ok-injective _ out e₂)) (
        λ m. elim (Memᴰ.append_cases ys m) [
          | inl now ↦ (x, ys, Memᴰ.head refl, r, now)
          | inr later ↦ let (x', ys', m', r', n) = fore later in (x', ys', Memᴰ.tail m', r', n)
        ],
        λ (x', ys', m', r', n). elim (Memᴰ.cases_cons m') [
          | inl same ↦
              let ys'-eq : ys' ≡ ys = ok-injective ys' ys (sym r' ∙ ap round same ∙ r) in
              Memᴰ.append_left rest (subst (λ zs. Memᴰ y zs) ys'-eq n)
          | inr later ↦ Memᴰ.append_right ys (back (x', ys', later, r', n))
        ],
      )

  mem-gather_ok :
      (round : X → Result (List Y)) (xs : List X) (out : List Y)
      → gather round xs ≡ ok out
      → (x : X) → Memᴰ x xs
      → (ys : List Y) × (round x ≡ ok ys)
  unfolding gather
  mem-gather_ok round [] out e x m = absurd (Memᴰ.not-nil m)
  mem-gather_ok round (x ∷ xs) out e x' m =
      let (ys, r, e₁) = >>=-eq-ok (round x) _ e in
      let (rest, g, e₂) = >>=-eq-ok (gather round xs) _ e₁ in
      elim (Memᴰ.cases_cons m) [
        | inl same ↦ (ys, ap round same ∙ r)
        | inr later ↦ mem-gather_ok round xs rest g x' later
      ]

module _ {ℓ κ μ} {X : Type ℓ} {Y : Type κ} (P : X → Y → Type μ) (round : X → Result (List Y))
    (each : (x : X) (ys : List Y) → round x ≡ ok ys → (y : Y) → Memᴰ y ys ↔ P x y) where
  -- What has been gathered is what each round yields.
  pub gather_exact :
      (xs : List X) (out : List Y)
      → gather round xs ≡ ok out
      → (y : Y) → Memᴰ y out ↔ ((x : X) × Memᴰ x xs × P x y)
  gather_exact xs out e y =
      let (fore, back) = mem-gather round xs out e y in
      (
        λ m. let (x, ys, n, r, k) = fore m in (x, n, (each x ys r y).0 k),
        λ (x, n, p).
            let (ys, r) = mem-gather_ok round xs out e x n in
            back (x, ys, n, r, (each x ys r y).1 p),
      )

-- one element
pub mem-one {κ} : {Y : Type κ} (y z : Y) → Memᴰ y (z ∷ []) ↔ (y ≡ z)
mem-one y z = (
  λ m. elim (Memᴰ.cases_cons m) [ inl same ↦ same | inr rest ↦ absurd (Memᴰ.not-nil rest) ],
  λ e. Memᴰ.head e,
)
