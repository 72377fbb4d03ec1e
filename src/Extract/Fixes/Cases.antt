-- ===== src/Extract/Fixes/Cases.antt =====
-- What one round of the loop of `fix_up` does, by cases on its line.
use plugsched.Common.{
  ℕ, true, false, not, ◌&&◌, some, List, [], ◌≡◌, ◌∙◌, refl, sym, ap, subst, ◌⊎◌, inl, inr, arith,
  Bool-cases,
}
use plugsched.Common.Text.{Text, codes, starts_with, occurs}
use plugsched.Common.Errors.{ok, >>=-eq-ok, ok-injective}
use plugsched.Extract.Lines.{get_elem?, set_line, merge_down_fn}
use plugsched.Extract.Lines.Closes.{Merges, merge_down_fn-Merges}
use plugsched.Extract.Fixes.{
  Extraction, fix_include, is_deleted, last_class, substitute, swallow, fix_line,
}
use plugsched.Extract.Fixes.Reached.{
  is_include, is_init, is_init_definition, substitute-IsSubstitute, is_deleted-eq, IsFix,
}

-- one round that changes no line but `i`
pub record Sets (config : Extraction) (i : ℕ) (line : Text) (lines lines' : List Text)
    : Type 0 where
  pub fixed : Text
  pub same : lines' ≡ set_line i fixed lines
  pub plain : is_init_definition line ≡ false
  pub fix : IsFix config line fixed

-- one round that takes out a definition
pub record Swallows (config : Extraction) (i : ℕ) (line : Text) (lines lines' : List Text)
    : Type 0 where
  pub stop : ℕ
  pub rest : List Text
  pub merges : Merges lines i stop rest
  pub same : lines' ≡ set_line i [] rest
  pub definition : is_init_definition line ≡ true
  pub fix : IsFix config line []

fix_line_deletes :
    (config : Extraction) (i : ℕ) (lines mid lines' : List Text) (line : Text)
    → is_include line ≡ false
    → is_init line ≡ true
    → swallow lines i line ≡ ok mid
    → set_line i [] mid ≡ lines'
    → Sets config i line lines lines' ⊎ Swallows config i line lines lines'
unfolding swallow
fix_line_deletes config i lines mid lines' line other deleted h same =
    let fix : IsFix config line [] = inr (inl (other, deleted, refl)) in
    elim (Bool-cases (occurs (codes "__init ") line && not (occurs (codes ";") line))) [
      | inl whole ↦
          let (r, e, h₁) = >>=-eq-ok (merge_down_fn lines i) _ (rw whole at h) in
          let (stop, merges) = merge_down_fn-Merges lines i r e in
          let rest : r.1 ≡ mid = ok-injective r.1 mid h₁ in
          inr (record {
            stop = stop;
            rest = mid;
            merges = subst (λ m. Merges lines i stop m) rest merges;
            same = sym same;
            definition = rw (other, whole) refl;
            fix = fix;
          })
      | inr declared ↦
          let kept = ok-injective lines mid (rw declared at h) in
          inl (record {
            fixed = [];
            same = sym same ∙ ap (set_line i []) (sym kept);
            plain = rw (other, declared) refl;
            fix = fix;
          })
    ]

not_init : (line : Text) → is_init line ≡ false → is_init_definition line ≡ false
not_init line h = ground arith

pub fix_line_cases :
    (config : Extraction) (i : ℕ) (lines lines' : List Text) (line : Text)
    → get_elem? lines i ≡ some line
    → fix_line config i lines ≡ ok lines'
    → Sets config i line lines lines' ⊎ Swallows config i line lines lines'
unfolding fix_line
fix_line_cases config i lines lines' line found h =
    let h₁ = rw found at h in
    elim (Bool-cases (is_include line)) [
      | inl include ↦
          let (fixed, e, h₂) = >>=-eq-ok (fix_include config line) _ (rw include at h₁) in
          inl (record {
            fixed = fixed;
            same = sym (ok-injective _ lines' h₂);
            plain = rw include refl;
            fix = inl (include, e);
          })
      | inr other ↦ elim (Bool-cases (is_deleted line)) [
        | inl deleted ↦
            let (mid, e, h₂) = >>=-eq-ok (swallow lines i line) _ (rw (other, deleted) at h₁) in
            fix_line_deletes config i lines mid lines' line other
              (sym (is_deleted-eq line) ∙ deleted) e (ok-injective _ lines' h₂)
        | inr kept ↦
            let no_macro = sym (is_deleted-eq line) ∙ kept in
            inl (record {
              fixed = substitute line;
              same = sym (ok-injective _ lines' (rw (other, kept) at h₁));
              plain = not_init line no_macro;
              fix = inr (inr (other, no_macro, substitute-IsSubstitute line));
            })
      ]
    ]

-- an empty line stays empty
pub fix_line_blank :
    (config : Extraction) (i : ℕ) (lines lines' : List Text)
    → get_elem? lines i ≡ some []
    → fix_line config i lines ≡ ok lines'
    → lines' ≡ set_line i [] lines
unfolding fix_line occurs is_deleted substitute last_class starts_with
fix_line_blank config i lines lines' found h = sym (ok-injective _ lines' (rw found at h))
