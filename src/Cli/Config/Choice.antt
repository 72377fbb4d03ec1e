-- ===== src/Cli/Config/Choice.antt =====
-- Which directory is chosen, and what `common_prefix_len` counts.
use plugsched.Common.{
  ℕ, zero, suc, ◌+◌, ◌<◌, ◌≤◌, true, ◌||◌, Option, none, some, List, [], ◌∷◌, ◌≡◌, refl, ◌⊎◌, inl,
  inr, arith, length, Bool-cases, if◌then◌else◌, ◌==◌, nat_eq, leb, ◌∙◌, sym, ap,
}
use plugsched.Common.Sets.{member}
use plugsched.Common.Sets.Laws.{member-nil, member-cons}
use plugsched.Common.Text.{Text, text_eq}
use plugsched.Common.Order.{text_order, sorted}
use plugsched.Common.Order.Sorted.{member-sorted}
use plugsched.Common.Errors.{ok, err, unbound_local, >>=-eq-ok}
use plugsched.Cli.Config.{
  compare_from, common_prefix_len, longest, backwards, choose, get_config_dir,
}

-- the length of the longest common prefix
abbrev pub shared : Text → Text → ℕ
shared (a ∷ s) (b ∷ t) = let rest = shared s t in if a == b then suc rest else 0
shared _ _ = 0

zero_or_suc : (n : ℕ) → (n ≡ 0) ⊎ ((m : ℕ) × (n ≡ suc m))
zero_or_suc zero = inl refl
zero_or_suc (suc n) = inr (n, refl)

ends_empty :
    (s t : Text)
    → shared s t ≡ 0
    → (shared s t ≡ length s) ⊎ (shared s t ≡ length t)
    → (s ≡ []) ⊎ (t ≡ [])
ends_empty [] t e h = inl refl
ends_empty (a ∷ s) [] e h = inr refl
ends_empty (a ∷ s) (b ∷ t) e h = absurd (elim h [ inl x ↦ omega arith | inr x ↦ omega arith ])

-- The loop ends at the first pair that differs, or at the last pair.
compare_from_exact :
    (i : ℕ) (last : Option ℕ) (s t : Text)
    → ((shared s t < length s)
        → (shared s t < length t)
        → compare_from i last s t ≡ some (i + shared s t))
      × ((n : ℕ)
          → shared s t ≡ suc n
          → (shared s t ≡ length s) ⊎ (shared s t ≡ length t)
          → compare_from i last s t ≡ some (i + n))
      × ((s ≡ []) ⊎ (t ≡ []) → compare_from i last s t ≡ last)
unfolding compare_from
compare_from_exact i last [] t =
    (λ a b. absurd (omega arith), λ n e h. absurd (omega arith), λ h. refl)
compare_from_exact i last (a ∷ s) [] =
    (λ p q. absurd (omega arith), λ n e h. absurd (omega arith), λ h. refl)
compare_from_exact i last (a ∷ s) (b ∷ t) =
    let (early, full, empty) = compare_from_exact (suc i) (some i) s t in
    elim (Bool-cases (a == b)) [
      | inr differ ↦ rw differ (
        λ p q. ap some (omega arith),
        λ n e h. absurd (omega arith),
        λ h. elim h [ inl x ↦ absurd (cc) | inr x ↦ absurd (cc) ],
      )
      | inl same ↦ rw same (
        λ p q. early (omega arith) (omega arith) ∙ ap some (omega arith),
        λ n e h. elim (zero_or_suc (shared s t)) [
          | inl none_more ↦ empty (ends_empty s t none_more (ground arith)) ∙ ap some (omega arith)
          | inr (m, more) ↦ full m more (ground arith) ∙ ap some (omega arith)
        ],
        λ h. elim h [ inl x ↦ absurd (cc) | inr x ↦ absurd (cc) ],
      )
    ]

-- Where neither text is the start of the other, the result is the length of the longest common
-- prefix. Where one is the start of the other, it is one less than that length. An empty text makes
-- the local variable unbound.
pub common_prefix_len_exact :
    (s t : Text)
    → ((shared s t < length s) → (shared s t < length t) → common_prefix_len s t ≡ ok (shared s t))
      × ((n : ℕ)
          → shared s t ≡ suc n
          → (shared s t ≡ length s) ⊎ (shared s t ≡ length t)
          → common_prefix_len s t ≡ ok n)
      × ((s ≡ []) ⊎ (t ≡ []) → common_prefix_len s t ≡ err unbound_local)
unfolding common_prefix_len
common_prefix_len_exact s t =
    let (early, full, empty) = compare_from_exact 0 none s t in
    (
      λ p q. rw (early p q) (ap ok (omega arith)),
      λ n e h. rw (full n e h) (ap ok (omega arith)),
      λ h. rw (empty h) refl,
    )

member-backwards :
    (a : Text) (done ts : List Text) → member a (backwards done ts) ≡ (member a ts || member a done)
member-backwards a done [] = rw (member-nil a) refl
member-backwards a done (t ∷ ts) =
    ground (arith, member-backwards a (t ∷ done) ts, member-cons a t done, member-cons a t ts)

-- The choice so far is of the given length, and the end result is no shorter than any candidate.
longest_best :
    (uname_r : Text) (len : ℕ) (chosen : Text) (ts : List Text) (len' : ℕ) (chosen' : Text)
    → longest uname_r len chosen ts ≡ ok (len', chosen')
    → common_prefix_len uname_r chosen ≡ ok len
    → (common_prefix_len uname_r chosen' ≡ ok len')
      × ((chosen' ≡ chosen) ⊎ (member chosen' ts ≡ true))
      × (len ≤ len')
      × ((t : Text)
          → member t ts ≡ true
          → (l : ℕ) × (common_prefix_len uname_r t ≡ ok l) × (l ≤ len'))
unfolding longest
longest_best uname_r len chosen [] len' chosen' h known =
    let same : len ≡ len' = cc in
    let same' : chosen ≡ chosen' = cc in
    (cc, inl (sym same'), omega arith, λ t m. absurd (cc (member-nil t)))
longest_best uname_r len chosen (t ∷ ts) len' chosen' h known =
    let (l, first, rest) = >>=-eq-ok (common_prefix_len uname_r t) _ h in
    let (right, among, more, all) =
      longest_best uname_r (if leb len l then l else len) (if leb len l then t else chosen) ts len'
        chosen' rest (ground (arith, first, known)) in
    (
      right,
      elim among [
        | inl kept ↦ elim (Bool-cases (leb len l)) [
          | inl better ↦
              let same : chosen' ≡ t = cc in
              inr (ground (arith, member-cons chosen' t ts, text_eq.beq_iff chosen' t))
          | inr worse ↦ inl (ground arith)
        ]
        | inr later ↦ inr (ground (arith, member-cons chosen' t ts))
      ],
      ground arith,
      λ c m. elim (Bool-cases (c == t)) [
        | inl same ↦ (l, rw ((text_eq.beq_iff c t).0 same) first, ground arith)
        | inr other ↦ all c (ground (arith, member-cons c t ts))
      ],
    )

choose_best :
    (uname_r : Text) (ts : List Text) (len : ℕ) (chosen : Text)
    → choose uname_r ts ≡ ok (len, chosen)
    → (member chosen ts ≡ true)
      × (common_prefix_len uname_r chosen ≡ ok len)
      × ((t : Text)
          → member t ts ≡ true
          → (l : ℕ) × (common_prefix_len uname_r t ≡ ok l) × (l ≤ len))
choose_best uname_r [] len chosen h = absurd (cc)
choose_best uname_r (t ∷ ts) len chosen h =
    let (l, first, rest) = >>=-eq-ok (common_prefix_len uname_r t) _ h in
    let (right, among, more, all) = longest_best uname_r l t ts len chosen rest first in
    (
      elim among [
        | inl kept ↦ ground (arith, member-cons chosen t ts, text_eq.beq_iff chosen t)
        | inr later ↦ ground (arith, member-cons chosen t ts)
      ],
      right,
      λ c m. elim (Bool-cases (c == t)) [
        | inl same ↦ (l, rw ((text_eq.beq_iff c t).0 same) first, more)
        | inr other ↦ all c (ground (arith, member-cons c t ts))
      ],
    )

-- A directory that is found is one of the candidates, and for no candidate `common_prefix_len` is
-- greater than for this one.
pub get_config_dir_best :
    (uname_r : Text) (candidates : List Text) (len : ℕ) (chosen : Text)
    → get_config_dir uname_r candidates ≡ ok (len, chosen)
    → (member chosen candidates ≡ true)
      × (common_prefix_len uname_r chosen ≡ ok len)
      × ((t : Text)
          → member t candidates ≡ true
          → (l : ℕ) × (common_prefix_len uname_r t ≡ ok l) × (l ≤ len))
unfolding get_config_dir
get_config_dir_best uname_r candidates len chosen h =
    let (m, right, all) = choose_best uname_r (backwards [] (sorted candidates)) len chosen h in
    let same : (t : Text) → member t (backwards [] (sorted candidates)) ≡ member t candidates = λ t.
      ground (
        arith,
        member-backwards t [] (sorted candidates),
        member-nil t,
        member-sorted t candidates,
      ) in
    (sym (same chosen) ∙ m, right, λ t k. all t (same t ∙ k))
