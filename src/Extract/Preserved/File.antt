-- ===== src/Extract/Preserved/File.antt =====
-- `fix_up` and the whole of `extract_file` keep the number of lines.
use plugsched.Common.{
  ℕ, zero, suc, not, ◌&&◌, List, [], ◌++◌, ◌≡◌, ◌∙◌, sym, ap, length, Bool-cases, inl, inr, ◌+◌,
  ◌||◌, ◌==◌, nat_eq, ltb,
}
use plugsched.Common.Text.{Text, codes, occurs}
use plugsched.Common.Errors.{ok, >>=-eq-ok, ok-injective}
use plugsched.Analyze.Meta.{FnMeta}
use plugsched.Extract.Lines.{get_line, set_line, strip, count, merge_down, merge_down_fn}
use plugsched.Extract.Lines.Access.{length-set_line}
use plugsched.Extract.Locate.{VarMeta, function_location, nothing_located, var_location}
use plugsched.Extract.Functions.{function_extract}
use plugsched.Extract.Vars.{var_extract}
use plugsched.Extract.Fixes.{
  Extraction, extract_sdcr_srcs, fix_include, is_deleted, substitute, swallow, fix_line, fix_lines,
  fix_up, extract_file,
}
use plugsched.Extract.Preserved.{KeepsLength, function_extract-KeepsLength}
use plugsched.Extract.Preserved.Vars.{var_extract-KeepsLength}

merge_down-length :
    (fuel curr : ℕ) (merged : Text) (l_brace r_brace : ℕ) (lines : List Text)
    (r : ℕ × Text × List Text)
    → merge_down fuel curr merged l_brace r_brace lines ≡ ok r
    → length r.2 ≡ length lines
unfolding merge_down
merge_down-length zero curr merged l_brace r_brace lines r h = absurd (cc)
merge_down-length (suc fuel) curr merged l_brace r_brace lines r h =
    let (line, _, h₁) = >>=-eq-ok (get_line lines curr) _ h in
    let more = merged ++ strip line ++ codes " " in
    elim (Bool-cases (l_brace == 0 || ltb r_brace l_brace)) [
      | inl going ↦
          let (below, _, h₂) =
            >>=-eq-ok (get_line (set_line curr [] lines) (suc curr)) _ (rw going at h₁) in
          merge_down-length fuel (suc curr) more (l_brace + count b'{' below)
            (r_brace + count b'}' below) (set_line curr [] lines) r h₂
          ∙ length-set_line curr [] lines
      | inr closed ↦
          ap (λ (r : ℕ × Text × List Text). length r.2) (sym (ok-injective _ r (rw closed at h₁)))
    ]

merge_down_fn-length :
    (lines : List Text) (start : ℕ) (r : ℕ × List Text)
    → merge_down_fn lines start ≡ ok r
    → length r.1 ≡ length lines
unfolding merge_down_fn
merge_down_fn-length lines start r h =
    let (line, _, h₁) = >>=-eq-ok (get_line lines start) _ h in
    let (t, e, h₂) = >>=-eq-ok (merge_down (suc (length lines)) start [] _ _ lines) _ h₁ in
    let (last, _, h₃) = >>=-eq-ok (get_line t.2 t.0) _ h₂ in
    ap (λ (r : ℕ × List Text). length r.1) (sym (ok-injective _ r h₃))
    ∙ length-set_line start _ (set_line t.0 [] t.2)
    ∙ length-set_line t.0 [] t.2
    ∙ merge_down-length (suc (length lines)) start [] _ _ lines t e

pub swallow-length :
    (lines : List Text) (i : ℕ) (line : Text) (lines' : List Text)
    → swallow lines i line ≡ ok lines'
    → length lines' ≡ length lines
unfolding swallow
swallow-length lines i line lines' h =
    elim (Bool-cases (occurs (codes "__init ") line && not (occurs (codes ";") line))) [
      | inl whole ↦
          let (r, e, h₁) = >>=-eq-ok (merge_down_fn lines i) _ (rw whole at h) in
          ap length (sym (ok-injective r.1 lines' h₁)) ∙ merge_down_fn-length lines i r e
      | inr other ↦ ap length (sym (ok-injective lines lines' (rw other at h)))
    ]

fix_line-KeepsLength : (config : Extraction) (i : ℕ) → KeepsLength (fix_line config i)
unfolding fix_line
fix_line-KeepsLength config i lines lines' h =
    let (line, _, h₁) = >>=-eq-ok (get_line lines i) _ h in
    elim (Bool-cases (occurs (codes "#include \"") line)) [
      | inl include ↦
          let (fixed, _, h₂) = >>=-eq-ok (fix_include config line) _ (rw include at h₁) in
          ap length (sym (ok-injective _ lines' h₂)) ∙ length-set_line i fixed lines
      | inr other ↦ elim (Bool-cases (is_deleted line)) [
        | inl deleted ↦
            let (rest, e, h₂) = >>=-eq-ok (swallow lines i line) _ (rw (other, deleted) at h₁) in
            ap length (sym (ok-injective _ lines' h₂))
            ∙ length-set_line i [] rest
            ∙ swallow-length lines i line rest e
        | inr kept ↦
            ap length (sym (ok-injective _ lines' (rw (other, kept) at h₁)))
            ∙ length-set_line i (substitute line) lines
      ]
    ]

fix_lines-KeepsLength :
    (config : Extraction) (rounds i : ℕ) → KeepsLength (fix_lines config rounds i)
unfolding fix_lines
fix_lines-KeepsLength config zero i lines lines' h = ap length (sym (ok-injective lines lines' h))
fix_lines-KeepsLength config (suc rounds) i lines lines' h =
    let (mid, first, rest) = >>=-eq-ok (fix_line config i lines) _ h in
    fix_lines-KeepsLength config rounds (suc i) mid lines' rest
    ∙ fix_line-KeepsLength config i lines mid first

-- An extraction without an error writes as many entries of `lines` as it read: no pass over them
-- adds one or takes one away.
pub extract_file-KeepsLength :
    (config : Extraction) (meta_fn : List FnMeta) (meta_var : List VarMeta)
    (lines lines' : List Text)
    → extract_file config meta_fn meta_var lines ≡ ok lines'
    → length lines' ≡ length lines
unfolding extract_file fix_up
extract_file-KeepsLength config meta_fn meta_var lines lines' h =
    let located = function_location config.boundary config.src_file meta_fn nothing_located in
    let vars = var_location config.var_config config.src_file (extract_sdcr_srcs config) meta_var in
    let (a, e, h₁) =
      >>=-eq-ok (function_extract config.outsider_opt config.interface_prefix located lines) _ h in
    let (b, e', h₂) = >>=-eq-ok (var_extract vars a) _ h₁ in
    fix_lines-KeepsLength config (length b) 0 b lines' h₂
    ∙ var_extract-KeepsLength vars a b e'
    ∙ function_extract-KeepsLength config.outsider_opt config.interface_prefix located lines a e
