-- ===== src/Analyze/Output.antt =====
-- The part `function` of boundary_extract.yaml, as the main program of boundary/analyze.py fills it.
pub mod Reads
use plugsched.Common.{List, [], ◌∷◌, map}
use plugsched.Common.Text.{Text, codes, text_eq}
use plugsched.Common.Dict.{Dict, insert}
use plugsched.Analyze.Meta.{Sym}
use plugsched.Analyze.Classes.{Given, FuncClass}

-- the sets that `classes_out` names
unfoldable pub classes_out : Given → FuncClass → Dict Text (List Sym)
classes_out fns classes =
    (codes "sched_outsider", classes.sched_outsider)
    ∷ (codes "callback", classes.callback)
    ∷ (codes "interface", fns.interface)
    ∷ (codes "init", fns.init)
    ∷ (codes "insider", classes.insider)
    ∷ (codes "outsider_opt", classes.outsider_opt)
    ∷ (codes "export", fns.export)
    ∷ (codes "sdcr_out", classes.sdcr_out)
    ∷ []

-- `config.function`, which holds names from boundary.yaml too; `item` embeds the signatures
module _ {ℓ} {Item : Type ℓ} (item : Sym → Item) where
  unfoldable pub put_classes : Dict Text (List Sym) → Dict Text (List Item) → Dict Text (List Item)
  put_classes [] function = function
  put_classes ((output_item, syms) ∷ classes) function =
      put_classes classes (insert output_item (map item syms) function)

  unfoldable pub extract_function :
      Given → FuncClass → Dict Text (List Item) → Dict Text (List Item)
  unfolding put_classes
  extract_function fns classes function = put_classes (classes_out fns classes) function
