-- ===== src/Extract/Locate/Exact.antt =====
-- Which functions are edited: each function of the file once, in the list of its class.
use plugsched.Common.{
  Bool, true, false, not, ◌&&◌, ◌||◌, List, [], ◌∷◌, ◌++◌, ◌≡◌, refl, ◌↔◌, ◌⊎◌, inl, inr, arith,
  Bool-cases, ◌==◌, ⊎_elim, ==_refl, loop_collects, if◌then◌else◌,
}
use plugsched.Common.Sets.{member, add, IsDistinct}
use plugsched.Common.Sets.Laws.{member-nil, member-cons, member-add}
use plugsched.Common.Text.{Text, text_eq}
use plugsched.Analyze.Meta.{Sym, sym_eq, FnMeta}
use plugsched.Extract.Locate.{Boundary, Located, nothing_located, place, locate, function_location}
use mathlib.Core.Bool.{So-prop}
use mathlib.Core.Logic.{∥∥₁_elim}
use mathlib.Core.List.{Memᴰ}

abbrev pub signatures : List FnMeta → List Sym
signatures [] = []
signatures (fn ∷ fns) = fn.signature ∷ signatures fns

-- the class of a symbol by which it is edited
abbrev pub is_removed : Boundary → Sym → Bool
is_removed config s =
    not (member s config.init) && (member s config.sched_outsider || member s config.sdcr_out)

abbrev pub is_kept : Boundary → Sym → Bool
is_kept config s =
    not (member s config.init) && not (member s config.sched_outsider || member s config.sdcr_out)

abbrev pub is_callback : Boundary → Sym → Bool
is_callback config s = is_kept config s && member s config.callback

abbrev pub is_interface : Boundary → Sym → Bool
is_interface config s =
    is_kept config s && (not (member s config.callback) && member s config.interface)

abbrev pub is_sidecar : Boundary → Sym → Bool
is_sidecar config s =
    is_kept config s
    && (not (member s config.callback)
        && (not (member s config.interface) && member s config.sidecar))

member-snoc :
    (s : Sym) (fns : List FnMeta) (fn : FnMeta)
    → member s (signatures (fns ++ fn ∷ [])) ≡ (member s (signatures fns) || s == fn.signature)
member-snoc s [] fn = ground (arith, member-cons s fn.signature [], member-nil s)
member-snoc s (f ∷ fns) fn = ground (
  arith,
  member-snoc s fns fn,
  member-cons s f.signature (signatures (fns ++ fn ∷ [])),
  member-cons s f.signature (signatures fns),
)

snoc-IsDistinct :
    (fns : List FnMeta) (fn : FnMeta)
    → IsDistinct (signatures fns)
    → member fn.signature (signatures fns) ≡ false
    → IsDistinct (signatures (fns ++ fn ∷ []))
snoc-IsDistinct [] fn h k = (member-nil fn.signature, tt)
snoc-IsDistinct (f ∷ fns) fn (fresh, h) k = (
  ground (
    arith,
    member-snoc f.signature fns fn,
    member-cons fn.signature f.signature (signatures fns),
    sym_eq.beq_iff f.signature fn.signature,
    sym_eq.beq_iff fn.signature f.signature,
  ),
  snoc-IsDistinct fns fn h (ground (arith, member-cons fn.signature f.signature (signatures fns))),
)

-- A list holds the symbols of a class that were seen, each of them once.
pub record Collects (holds : Sym → Bool) (unique : List Sym) (fns : List FnMeta) : Type 0 where
  pub members : (s : Sym) → member s (signatures fns) ≡ (member s unique && holds s)
  pub distinct : IsDistinct (signatures fns)

pub record IsSorted (config : Boundary) (found : Located) : Type 0 where
  pub removed : Collects (is_removed config) found.unique found.fn_list
  pub callbacks : Collects (is_callback config) found.unique found.callback_list
  pub interfaces : Collects (is_interface config) found.unique found.interface_list
  pub sidecars : Collects (is_sidecar config) found.unique found.sidecar_list

-- A function of the class is appended.
Collects-snoc :
    (holds : Sym → Bool) (unique : List Sym) (fns : List FnMeta) (fn : FnMeta)
    → Collects holds unique fns
    → member fn.signature unique ≡ false
    → holds fn.signature ≡ true
    → Collects holds (add fn.signature unique) (fns ++ fn ∷ [])
Collects-snoc holds unique fns fn c fresh h = record {
  members = λ s. elim (Bool-cases (s == fn.signature)) [
    | inl same ↦ rw ((sym_eq.beq_iff s fn.signature).0 same) (
        ground (
          arith,
          member-snoc fn.signature fns fn,
          member-add fn.signature fn.signature unique,
          ==_refl fn.signature,
        ))
    | inr other ↦
        ground (arith, member-snoc s fns fn, member-add s fn.signature unique, c.members s)
  ];
  distinct = snoc-IsDistinct fns fn c.distinct (ground (arith, c.members fn.signature));
}

-- A function of another class is only marked as seen.
Collects-skip :
    (holds : Sym → Bool) (unique : List Sym) (fns : List FnMeta) (t : Sym)
    → Collects holds unique fns
    → holds t ≡ false
    → Collects holds (add t unique) fns
Collects-skip holds unique fns t c h = record {
  members = λ s. elim (Bool-cases (s == t)) [
    | inl same ↦ rw ((sym_eq.beq_iff s t).0 same) (ground (arith, c.members t))
    | inr other ↦ ground (arith, member-add s t unique, c.members s)
  ];
  distinct = c.distinct;
}

abbrev append_if : Bool → FnMeta → List FnMeta → List FnMeta
append_if b fn fns = if b then fns ++ fn ∷ [] else fns

Collects-append_if :
    (holds : Sym → Bool) (unique : List Sym) (fns : List FnMeta) (fn : FnMeta)
    → Collects holds unique fns
    → member fn.signature unique ≡ false
    → Collects holds (add fn.signature unique) (append_if (holds fn.signature) fn fns)
Collects-append_if holds unique fns fn c fresh = elim (Bool-cases (holds fn.signature)) [
  | inl yes_holds ↦ rw yes_holds (Collects-snoc holds unique fns fn c fresh yes_holds)
  | inr other ↦ rw other (Collects-skip holds unique fns fn.signature c other)
]

-- Each list gets the function if it is of its class.
place_lists :
    (config : Boundary) (fn : FnMeta) (found : Located)
    → ((place config fn found).unique ≡ found.unique)
      × ((place config fn found).fn_list
          ≡ append_if (is_removed config fn.signature) fn found.fn_list)
      × ((place config fn found).callback_list
          ≡ append_if (is_callback config fn.signature) fn found.callback_list)
      × ((place config fn found).interface_list
          ≡ append_if (is_interface config fn.signature) fn found.interface_list)
      × ((place config fn found).sidecar_list
          ≡ append_if (is_sidecar config fn.signature) fn found.sidecar_list)
unfolding place
place_lists config fn found = (ground arith, ground arith, ground arith, ground arith, ground arith)

locate-IsSorted :
    (config : Boundary) (src_file : Text) (fn : FnMeta) (found : Located)
    → IsSorted config found
    → IsSorted config (locate config src_file fn found)
unfolding locate
locate-IsSorted config src_file fn found h = elim (Bool-cases (fn.file == src_file)) [
  | inr other ↦ rw other h
  | inl same ↦ elim (Bool-cases (member fn.signature found.unique)) [
    | inl seen ↦ rw (same, seen) h
    | inr fresh ↦
        let (u, a, b, c, d) =
          place_lists config fn (record found { unique = add fn.signature found.unique }) in
        rw (same, fresh)
          (record {
            removed = rw (u, a) (Collects-append_if (is_removed config) _ _ fn h.removed fresh);
            callbacks =
                rw (u, b) (Collects-append_if (is_callback config) _ _ fn h.callbacks fresh);
            interfaces =
                rw (u, c) (Collects-append_if (is_interface config) _ _ fn h.interfaces fresh);
            sidecars = rw (u, d) (Collects-append_if (is_sidecar config) _ _ fn h.sidecars fresh);
          })
  ]
]

locate_unique :
    (config : Boundary) (src_file : Text) (fn : FnMeta) (found : Located) (s : Sym)
    → member s (locate config src_file fn found).unique
      ≡ (fn.file == src_file && s == fn.signature || member s found.unique)
unfolding locate
locate_unique config src_file fn found s = ground (
  arith,
  place_lists config fn (record found { unique = add fn.signature found.unique }),
  member-add s fn.signature found.unique,
  sym_eq.beq_iff s fn.signature,
)

-- a function of the file
abbrev pub DefinedAs : Text → Sym → FnMeta → Type 0
DefinedAs src_file s fn = (fn.file ≡ src_file) × (fn.signature ≡ s)

function_location-collects :
    (config : Boundary) (src_file : Text) (meta_fn : List FnMeta) (s : Sym) (found : Located)
    → (member s (function_location config src_file meta_fn found).unique ≡ true) ↔ (
        (member s found.unique ≡ true)
        ⊎ ((fn : FnMeta) × Memᴰ fn meta_fn × DefinedAs src_file s fn))
unfolding function_location
function_location-collects config src_file meta_fn s =
    loop_collects (λ (f : Located). member s f.unique ≡ true) (DefinedAs src_file s)
      (locate config src_file) each (function_location config src_file) (λ f. refl)
      (λ fn fns f. refl) meta_fn
  where
    each :
        (fn : FnMeta) (f : Located)
        → (member s (locate config src_file fn f).unique ≡ true)
          ↔ ((member s f.unique ≡ true) ⊎ DefinedAs src_file s fn)
    each fn f = ground (
      arith,
      locate_unique config src_file fn f s,
      text_eq.beq_iff fn.file src_file,
      sym_eq.beq_iff s fn.signature,
    )

function_location-IsSorted :
    (config : Boundary) (src_file : Text) (meta_fn : List FnMeta) (found : Located)
    → IsSorted config found
    → IsSorted config (function_location config src_file meta_fn found)
unfolding function_location
function_location-IsSorted config src_file [] found h = h
function_location-IsSorted config src_file (fn ∷ meta_fn) found h =
    function_location-IsSorted config src_file meta_fn (locate config src_file fn found)
      (locate-IsSorted config src_file fn found h)

nothing_collected : (holds : Sym → Bool) → Collects holds [] []
nothing_collected holds = record { members = λ s. ground (arith, member-nil s); distinct = tt }

-- The functions whose signatures were seen are exactly those that the metadata place in the file.
-- Each list holds the seen functions of its class, each of them once: the outsiders, then of the
-- others the callbacks, the interface functions and the sidecar functions, none of which is an
-- initialisation function.
pub function_location_exact :
    (config : Boundary) (src_file : Text) (meta_fn : List FnMeta)
    → IsSorted config (function_location config src_file meta_fn nothing_located)
      × ((s : Sym)
          → (member s (function_location config src_file meta_fn nothing_located).unique ≡ true)
            ↔ ∥ ((fn : FnMeta) × Memᴰ fn meta_fn × DefinedAs src_file s fn) ∥₁)
function_location_exact config src_file meta_fn = (
  function_location-IsSorted config src_file meta_fn nothing_located (record {
    removed = nothing_collected (is_removed config);
    callbacks = nothing_collected (is_callback config);
    interfaces = nothing_collected (is_interface config);
    sidecars = nothing_collected (is_sidecar config);
  }),
  λ s.
      let (fore, back) = function_location-collects config src_file meta_fn s nothing_located in
      (
        λ h. ⊎_elim (λ m. absurd (cc (member-nil s))) (λ x. ∣ x ∣₁) (fore h),
        λ t. ∥∥₁_elim t (So-prop _) (λ x. back (inr x)),
      ),
)
