-- ===== src/Analyze/Output/Reads.antt =====
-- What a reader of boundary_extract.yaml finds under each key.
use plugsched.Common.{
  Bool, true, false, Option, none, some, List, [], ◌∷◌, map, ◌==◌, if◌then◌else◌, ◌≡◌, refl, ◌∙◌,
  ap,
}
use plugsched.Common.Text.{Text, codes, text_eq}
use plugsched.Common.Dict.{Dict, insert, lookup, get_item, lookup-insert, get_item_of_some}
use plugsched.Common.Errors.{ok}
use plugsched.Analyze.Meta.{Sym}
use plugsched.Analyze.Classes.{Given, FuncClass}
use plugsched.Analyze.Output.{classes_out, put_classes, extract_function}

-- the value that is put last under a key
abbrev or_here : Option (List Sym) → Bool → List Sym → Option (List Sym)
or_here (some later) same syms = some later
or_here none true syms = some syms
or_here none false syms = none

unfoldable last_value : Text → Dict Text (List Sym) → Option (List Sym)
last_value key [] = none
last_value key ((name, syms) ∷ classes) = or_here (last_value key classes) (key == name) syms

module _ {ℓ} {Item : Type ℓ} (item : Sym → Item) where
  abbrev or_before : Option (List Sym) → Option (List Item) → Option (List Item)
  or_before none before = before
  or_before (some syms) before = some (map item syms)

  or_before-or_here :
      (later : Option (List Sym)) (same : Bool) (syms : List Sym) (before : Option (List Item))
      → or_before later (if same then some (map item syms) else before)
        ≡ or_before (or_here later same syms) before
  or_before-or_here (some later) same syms before = refl
  or_before-or_here none true syms before = refl
  or_before-or_here none false syms before = refl

  lookup-put_classes :
      (key : Text) (classes : Dict Text (List Sym)) (function : Dict Text (List Item))
      → lookup key (put_classes item classes function)
        ≡ or_before (last_value key classes) (lookup key function)
  unfolding put_classes last_value
  lookup-put_classes key [] function = refl
  lookup-put_classes key ((name, syms) ∷ classes) function =
      lookup-put_classes key classes (insert name (map item syms) function)
      ∙ ap (or_before (last_value key classes)) (lookup-insert key name (map item syms) function)
      ∙ or_before-or_here (last_value key classes) (key == name) syms (lookup key function)

  put_classes_item :
      (key : Text) (classes : Dict Text (List Sym)) (function : Dict Text (List Item))
      (syms : List Sym)
      → last_value key classes ≡ some syms
      → get_item key (put_classes item classes function) ≡ ok (map item syms)
  put_classes_item key classes function syms h =
      get_item_of_some key (put_classes item classes function) (map item syms)
        (lookup-put_classes key classes function ∙ ap (λ o. or_before o (lookup key function)) h)

  -- Whatever boundary.yaml holds, the keys that boundary/extract.py looks up in boundary_extract.yaml
  -- hold the sets that the analysis has computed: "init", "sched_outsider", "sdcr_out", "callback",
  -- "interface" and "outsider_opt" are the sets of these names.
  pub extract_function_reads :
      (fns : Given) (classes : FuncClass) (function : Dict Text (List Item))
      → (get_item (codes "init") (extract_function item fns classes function)
          ≡ ok (map item fns.init))
        × (get_item (codes "sched_outsider") (extract_function item fns classes function)
            ≡ ok (map item classes.sched_outsider))
        × (get_item (codes "sdcr_out") (extract_function item fns classes function)
            ≡ ok (map item classes.sdcr_out))
        × (get_item (codes "callback") (extract_function item fns classes function)
            ≡ ok (map item classes.callback))
        × (get_item (codes "interface") (extract_function item fns classes function)
            ≡ ok (map item fns.interface))
        × (get_item (codes "outsider_opt") (extract_function item fns classes function)
            ≡ ok (map item classes.outsider_opt))
  unfolding extract_function classes_out last_value text_eq
  extract_function_reads fns classes function = (
    put_classes_item (codes "init") (classes_out fns classes) function fns.init refl,
    put_classes_item (codes "sched_outsider") (classes_out fns classes) function
        classes.sched_outsider refl,
    put_classes_item (codes "sdcr_out") (classes_out fns classes) function classes.sdcr_out refl,
    put_classes_item (codes "callback") (classes_out fns classes) function classes.callback refl,
    put_classes_item (codes "interface") (classes_out fns classes) function fns.interface refl,
    put_classes_item (codes "outsider_opt") (classes_out fns classes) function classes.outsider_opt
        refl,
  )

  -- The other keys stay as they were, for instance "outsider".
  pub extract_function-outsider :
      (fns : Given) (classes : FuncClass) (function : Dict Text (List Item))
      → lookup (codes "outsider") (extract_function item fns classes function)
        ≡ lookup (codes "outsider") function
  unfolding extract_function classes_out last_value text_eq
  extract_function-outsider fns classes function =
      lookup-put_classes (codes "outsider") (classes_out fns classes) function
