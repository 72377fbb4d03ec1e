-- ===== src/YamlDiff/Exact.antt =====
-- What `YamlDiff` reports, and what becomes of the files that the analysis writes.
use plugsched.Common.{Eq, true, false, none, List, ◌≡◌, refl, ◌∙◌, ◌↔◌, ◌⊎◌, arith}
use plugsched.Common.Sets.{member}
use plugsched.Common.Sets.Laws.{member-diff, member-union, member-inter, member-from_list}
use plugsched.Common.Text.{Text, codes, text_eq}
use plugsched.Common.Dict.{Dict, get_item, lookup, get_item_of_none}
use plugsched.Common.Sets.{from_list, union, inter}
use plugsched.Common.Errors.{ok, err, key_error, >>=-eq-ok, ok-injective}
use plugsched.Analyze.Meta.{Sym}
use plugsched.Analyze.Classes.{Given, FuncClass}
use plugsched.Analyze.Output.{extract_function}
use plugsched.Analyze.Output.Reads.{extract_function-outsider}
use plugsched.YamlDiff.{yaml_diff}

module _ {ℓ} {Item : Type ℓ} ⦃e : Eq Item⦄ where
  -- When `YamlDiff` returns, both files hold a list of outsiders, and an element is reported exactly
  -- when it is in one of the two lists and not in the other.
  pub yaml_diff_exact :
      (old_yaml new_yaml : Dict Text (List Item)) (changed : List Item)
      → yaml_diff old_yaml new_yaml ≡ ok changed
      → (old : List Item) × (new : List Item) × (get_item (codes "outsider") old_yaml ≡ ok old)
        × (get_item (codes "outsider") new_yaml ≡ ok new)
        × ((a : Item)
            → (member a changed ≡ true)
              ↔ ((member a old ≡ true) × (member a new ≡ false))
                ⊎ ((member a old ≡ false) × (member a new ≡ true)))
  unfolding yaml_diff
  yaml_diff_exact old_yaml new_yaml changed h =
      let (old, a, h₁) = >>=-eq-ok (get_item (codes "outsider") old_yaml) _ h in
      let (new, b, h₂) = >>=-eq-ok (get_item (codes "outsider") new_yaml) _ h₁ in
      let old_set = from_list old in
      let new_set = from_list new in
      (
        old,
        new,
        a,
        b,
        λ x. rw (← (ok-injective _ changed h₂)) (
            ground (
              arith,
              member-diff x (union old_set new_set) (inter old_set new_set),
              member-union x old_set new_set,
              member-inter x old_set new_set,
              member-from_list x old,
              member-from_list x new,
            )),
      )

  -- Comparing a file that the analysis has written raises a KeyError, unless boundary.yaml already
  -- has a list "outsider" of its own: the analysis writes no key of this name.
  pub yaml_diff_refuses :
      (item : Sym → Item) (fns : Given) (classes : FuncClass)
      (function new_yaml : Dict Text (List Item))
      → lookup (codes "outsider") function ≡ none
      → yaml_diff (extract_function item fns classes function) new_yaml ≡ err key_error
  unfolding yaml_diff
  yaml_diff_refuses item fns classes function new_yaml h =
      let missing =
        get_item_of_none (codes "outsider") (extract_function item fns classes function)
          (extract_function-outsider item fns classes function ∙ h) in
      rw missing refl
