-- ===== src/Cli/Version/Exact.antt =====
-- What `get_kernel_version` and `find_old_springboard` find.
use plugsched.Common.{
  ℕ, zero, suc, true, false, Option, none, some, List, [], ◌∷◌, ◌++◌, ◌≡◌, refl, sym, ◌∙◌, ap, ◌↔◌,
  ◌⊎◌, inl, inr, arith, Bool-cases, some-injective, none-some, true-false, Option-cases, List-cases,
}
use plugsched.Common.Text.{Text, codes, starts_with, occurs}
use plugsched.Common.Errors.{ok, err, fatal, ok-injective}
use plugsched.Extract.Lines.{get_elem?}
use plugsched.Cli.Version.{
  strip_of, is_margin, put_before, text_before, Release, or_else, strip_arches, arches,
  get_kernel_version, is_springboard, find_old_springboard,
}

starts_with-split : (s t : Text) → starts_with s t ≡ true → (rest : Text) × (t ≡ s ++ rest)
unfolding starts_with
starts_with-split [] t h = (t, refl)
starts_with-split (c ∷ s) [] h = absurd (cc)
starts_with-split (c ∷ s) (d ∷ t) h =
    let same : (c ≡ d) × (starts_with s t ≡ true) = ground arith in
    let (rest, e) = starts_with-split s t same.1 in (rest, rw (same.0, e) refl)

put_before-eq-none : (c : ℕ) (o : Option Text) → put_before c o ≡ none → o ≡ none
put_before-eq-none c none h = refl
put_before-eq-none c (some t) h = absurd (cc)

err_ok : {a : Release} → ¬ (err fatal ≡ ok a)
err_ok h = absurd (cc)

-- What stands before a text is followed by it.
text_before-split :
    (s t found : Text) → text_before s t ≡ some found → (rest : Text) × (t ≡ found ++ (s ++ rest))
unfolding text_before
text_before-split s [] found h = elim (Bool-cases (starts_with s [])) [
  | inl here ↦
      let (rest, e) = starts_with-split s [] here in
      (rest, rw (← (some-injective (rw here at h))) e)
  | inr later ↦ absurd (none-some (rw later at h))
]
text_before-split s (c ∷ t) found h = elim (Bool-cases (starts_with s (c ∷ t))) [
  | inl here ↦
      let (rest, e) = starts_with-split s (c ∷ t) here in
      (rest, rw (← (some-injective (rw here at h))) e)
  | inr later ↦ elim (Option-cases (text_before s t)) [
    | inl missing ↦ absurd (none-some (rw (later, missing) at h))
    | inr (found', e) ↦
        let (rest, f) = text_before-split s t found' e in
        (rest, rw (← (some-injective (rw (later, e) at h))) (ap (λ t. c ∷ t) f))
  ]
]

text_before-eq-none : (s t : Text) → (text_before s t ≡ none) ↔ (occurs s t ≡ false)
unfolding text_before occurs
text_before-eq-none s [] = ground arith
text_before-eq-none s (c ∷ t) =
    let (fore, back) = text_before-eq-none s t in
    elim (Bool-cases (starts_with s (c ∷ t))) [
      | inl here ↦ rw here (λ h. absurd (cc), λ h. absurd (cc))
      | inr later ↦
          rw later
            (λ h. fore (put_before-eq-none c (text_before s t) h), λ h. ap (put_before c) (back h))
    ]

-- two rounds of the loop over the suffixes
or_else_split :
    (a b krel found : Text)
    → or_else (text_before b krel) (or_else (text_before a krel) none) ≡ some found
    → (arch : Text) × (rest : Text) × ((arch ≡ a) ⊎ (arch ≡ b)) × (krel ≡ found ++ (arch ++ rest))
or_else_split a b krel found h = elim (Option-cases (text_before b krel)) [
  | inr (found', e) ↦
      let (rest, split) = text_before-split b krel found' e in
      (b, rest, inr refl, rw (← (some-injective (rw e at h))) split)
  | inl missing ↦ elim (Option-cases (text_before a krel)) [
    | inr (found', e) ↦
        let (rest, split) = text_before-split a krel found' e in
        (a, rest, inl refl, rw (← (some-injective (rw (missing, e) at h))) split)
    | inl missing' ↦ absurd (none-some (rw (missing, missing') at h))
  ]
]

or_else-eq-none :
    (o p : Option Text) → (or_else o (or_else p none) ≡ none) ↔ (p ≡ none) × (o ≡ none)
or_else-eq-none none none = (λ h. (refl, refl), λ h. refl)
or_else-eq-none none (some t) = (λ h. absurd (cc), λ h. absurd (cc))
or_else-eq-none (some s) p = (λ h. absurd (cc), λ h. absurd (cc))

krel_split :
    (krel found : Text)
    → strip_arches krel arches none ≡ some found
    → (arch : Text) × (rest : Text) × ((arch ≡ codes ".x86_64") ⊎ (arch ≡ codes ".aarch64"))
      × (krel ≡ found ++ (arch ++ rest))
unfolding strip_arches
krel_split krel found h = or_else_split (codes ".x86_64") (codes ".aarch64") krel found h

krel-eq-none :
    (krel : Text)
    → (strip_arches krel arches none ≡ none)
      ↔ (occurs (codes ".x86_64") krel ≡ false) × (occurs (codes ".aarch64") krel ≡ false)
unfolding strip_arches
krel-eq-none krel =
    let (fore, back) = text_before-eq-none (codes ".x86_64") krel in
    let (fore', back') = text_before-eq-none (codes ".aarch64") krel in
    let (split, join) =
      or_else-eq-none (text_before (codes ".aarch64") krel) (text_before (codes ".x86_64") krel) in
    (λ h. (fore (split h).0, fore' (split h).1), λ (a, b). join (back a, back' b))

-- a pair of adjacent lines that tells that the springboard is there
abbrev pub IsPair : List Text → ℕ → Text → Text → Type 0
IsPair lines i line next =
    (get_elem? lines i ≡ some line)
    × (get_elem? lines (suc i) ≡ some next)
    × (is_springboard line next ≡ true)

later-IsPair :
    (first second : Text) (lines : List Text) (i : ℕ) (line next : Text)
    → is_springboard first second ≡ false
    → IsPair (first ∷ second ∷ lines) i line next
    → (j : ℕ) × IsPair (second ∷ lines) j line next
later-IsPair first second lines zero line next other (a, b, c) =
    let same : is_springboard first second ≡ is_springboard line next =
      rw (some-injective a, some-injective b) refl in
    absurd (true-false (sym c ∙ sym same ∙ other))
later-IsPair first second lines (suc i) line next other h = (i, h)

-- `find_old_springboard` answers false exactly when some line that holds "no-omit-frame-pointer" is
-- directly above a line that holds "__schedule".
pub find_old_springboard_exact :
    (lines : List Text)
    → (find_old_springboard lines ≡ false)
      ↔ ((i : ℕ) × (line : Text) × (next : Text) × IsPair lines i line next)
unfolding find_old_springboard
find_old_springboard_exact [] = (λ h. absurd (cc), λ (i, line, next, (a, b, c)). absurd (cc))
find_old_springboard_exact (line ∷ []) =
    (λ h. absurd (cc), λ (i, l, next, (a, b, c)). absurd (none-some b))
find_old_springboard_exact (line ∷ next ∷ lines) =
    let (fore, back) = find_old_springboard_exact (next ∷ lines) in
    elim (Bool-cases (is_springboard line next)) [
      | inl here ↦ rw here (λ h. (0, line, next, (refl, refl, here)), λ k. refl)
      | inr other ↦ rw other (
        λ h. let (i, l, n, pair) = fore h in (suc i, l, n, pair),
        λ (i, l, n, pair).
            let (j, pair') = later-IsPair line next lines i l n other pair in back (j, l, n, pair'),
      )
    ]

-- The release of a kernel is its version, a dash and the extra version without blanks and dashes at
-- its ends. Its KREL, when it is set, is what stands in the extra version before one of the two
-- architecture suffixes. KREL stays unset exactly when the extra version holds neither suffix.
pub get_kernel_version_exact :
    (version patchlevel sublevel extraversion : Text) (release : Release)
    → get_kernel_version version patchlevel sublevel extraversion ≡ ok release
    → (release.uname_r ≡ release.kver ++ (codes "-" ++ strip_of is_margin extraversion))
      × ((krel : Text)
          → release.krel ≡ some krel
          → (arch : Text) × (rest : Text) × ((arch ≡ codes ".x86_64") ⊎ (arch ≡ codes ".aarch64"))
            × (strip_of is_margin extraversion ≡ krel ++ (arch ++ rest)))
      × ((release.krel ≡ none)
          ↔ (occurs (codes ".x86_64") (strip_of is_margin extraversion) ≡ false)
            × (occurs (codes ".aarch64") (strip_of is_margin extraversion) ≡ false))
unfolding get_kernel_version
get_kernel_version_exact version patchlevel sublevel extraversion release h =
    elim (List-cases (strip_of is_margin extraversion)) [
      | inl empty ↦ absurd (err_ok (rw empty at h))
      | inr (c, krel, e) ↦
          rw (e, ← (ok-injective _ release (rw e at h)))
            (refl, krel_split (c ∷ krel), krel-eq-none (c ∷ krel))
    ]
