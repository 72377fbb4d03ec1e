-- ===== src/YamlDiff.antt =====
-- `YamlDiff` of tools/yaml-diff.py. An argument stands for the part `function` of a file; the result
-- holds the elements that are logged.
pub mod Exact
use plugsched.Common.{Eq, List}
use plugsched.Common.Sets.{from_list, union, inter, diff}
use plugsched.Common.Text.{Text, codes, text_eq}
use plugsched.Common.Dict.{Dict, get_item}
use plugsched.Common.Errors.{Result, ok, ◌>>=◌}

module _ {ℓ} {Item : Type ℓ} ⦃e : Eq Item⦄ where
  unfoldable pub yaml_diff : Dict Text (List Item) → Dict Text (List Item) → Result (List Item)
  yaml_diff old_yaml new_yaml = do
    old ← get_item ⦃e = text_eq⦄ (codes "outsider") old_yaml
    new ← get_item ⦃e = text_eq⦄ (codes "outsider") new_yaml
    let old_set = from_list old
    let new_set = from_list new
    ok (diff (union old_set new_set) (inter old_set new_set))
