-- ===== src/Analyze/Main/Structs.antt =====
-- The document on the structs that boundary/analyze.py writes.
use plugsched.Common.{
  ℕ, true, false, some, List, [], ◌∷◌, ◌≡◌, refl, sym, ◌∙◌, ap, ◌↔◌, arith, map, Bool-cases, inl,
  inr, ◌==◌,
}
use plugsched.Common.Sets.{member, diff, from_list}
use plugsched.Common.Sets.Laws.{
  member-append, member-from_list, member-diff, member-cons, member-nil,
}
use plugsched.Common.Text.{Text, text_eq}
use plugsched.Common.Dict.{Dict, lookup}
use plugsched.Common.Errors.{ok}
use plugsched.Analyze.Meta.{Sym, sym_eq, Edge, MetaEdge, StructMeta, Meta, Config}
use plugsched.Analyze.Structs.{
  StructProperties, names, all_names, no_properties, scan_structs, struct_properties,
}
use plugsched.Analyze.Structs.Public.{scan_structs-public}
use plugsched.Analyze.Classes.{Given, FuncClass, border, func_class_arithmetics, classify}
use plugsched.Analyze.Classes.Shape.{func_class_arithmetics-eq-ok}
use plugsched.Analyze.Main.{Output, metas, given, analyze}
use plugsched.Analyze.Main.Safety.{sets, collected, analyze-Run}
use mathlib.Core.Logic.{∥∥₁_map}
use mathlib.Core.List.{Memᴰ}
use mathlib.Core.List.Memᴰ

-- Each struct that a file names is a struct of the document.
member-names :
    (struct : Text) (d : Dict Text StructMeta) {entry : StructMeta}
    → lookup struct d ≡ some entry
    → member struct (names d) ≡ true
unfolding lookup
member-names struct [] h = absurd (cc)
member-names struct ((name, other) ∷ d) h = elim (Bool-cases (struct == name)) [
  | inl same ↦ ground (arith, member-cons struct name (names d))
  | inr differ ↦
      ground (arith, member-cons struct name (names d), member-names struct d (rw differ at h))
]

member-all_names :
    (struct : Text) (metas : List Meta) (m : Meta) {entry : StructMeta}
    → Memᴰ m metas
    → lookup struct m.struct ≡ some entry
    → member struct (all_names metas) ≡ true
member-all_names struct [] m here h = absurd (Memᴰ.not-nil here)
member-all_names struct (n ∷ metas) m here h = elim (Memᴰ.cases_cons here) [
  | inl same ↦
      let own =
        member-names struct n.struct (ap (λ (n : Meta). lookup struct n.struct) (sym same) ∙ h) in
      ground (arith, member-append struct (names n.struct) (all_names metas))
  | inr later ↦ ground (
    arith,
    member-append struct (names n.struct) (all_names metas),
    member-all_names struct metas m later h,
  )
]

lookup-map :
    (f : Text → StructProperties) (keys : List Text) (key : Text)
    → member key keys ≡ true
    → lookup key (map (λ k. (k, f k)) keys) ≡ some (f key)
unfolding lookup
lookup-map f [] key h = absurd (cc (member-nil key))
lookup-map f (k ∷ keys) key h = elim (Bool-cases (key == k)) [
  | inl same ↦ rw same (ap (λ k. some (f k)) (sym ((text_eq.beq_iff key k).0 same)))
  | inr differ ↦ rw differ (lookup-map f keys key (ground (arith, member-cons key k keys)))
]

lookup-struct_properties :
    (public_user : List Sym) (metas : List Meta) (struct : Text)
    → member struct (all_names metas) ≡ true
    → lookup struct (struct_properties public_user metas)
      ≡ some (scan_structs public_user struct metas no_properties)
unfolding struct_properties
lookup-struct_properties public_user metas struct h =
    lookup-map (λ s. scan_structs public_user s metas no_properties) (from_list (all_names metas))
      struct (member-from_list struct (all_names metas) ∙ h)

member-public_user :
    (metas_by_name : Dict Text (List MetaEdge)) (edges : List Edge) (fns : Given)
    (classes : FuncClass) (user : Sym)
    → func_class_arithmetics metas_by_name edges fns ≡ ok classes
    → (member user classes.public_user ≡ true) ↔ (
        (member user fns.fn ≡ true)
        × (member user classes.insider ≡ false)
        × (member user classes.border ≡ false))
unfolding classify
member-public_user metas_by_name edges fns classes user h =
    let (left, inflected, _, _, _, shape) =
      func_class_arithmetics-eq-ok metas_by_name edges fns classes h in
    rw shape (
      ground (
        arith,
        member-diff user (diff fns.fn (classify fns left inflected).insider) (border fns),
        member-diff user fns.fn (classify fns left inflected).insider,
      ))

-- In some file, a field of the struct has a list of users for which `Found` holds.
abbrev pub InSome : Text → List Meta → (Text → List Sym → Type 0) → Type 0
InSome struct metas Found =
    (m : Meta) × Memᴰ m metas
    × ((entry : StructMeta) × (lookup struct m.struct ≡ some entry)
        × ((field : Text × List Sym) × Memᴰ field entry.public_fields × Found (field.0) (field.1)))

-- a function of the metadata that is neither an insider nor of the border
abbrev pub IsOutside : Config → Dict Text Meta → Output → Sym → Type 0
IsOutside config meta_files out user =
    (member user (collected config meta_files).fn ≡ true)
    × (member user out.classes.insider ≡ false)
    × (member user out.classes.border ≡ false)

-- After a run without an error the document has properties of each struct that a file names. A field
-- is among its public fields exactly if, in some file, a function of the metadata that is neither an
-- insider nor of the border is listed as a user of the field; and its public users are exactly the
-- functions of that kind that some file lists as users of one of its fields.
pub struct_is_public :
    (depth : ℕ) (config : Config) (meta_files : Dict Text Meta) (lines : List Text) (out : Output)
    (struct : Text) (file : Meta) (named : StructMeta)
    → analyze depth config meta_files lines ≡ ok out
    → Memᴰ file (metas meta_files)
    → lookup struct file.struct ≡ some named
    → (props : StructProperties) × (lookup struct out.structs ≡ some props)
      × ((field : Text)
          → (member field props.public_fields ≡ true)
            ↔ ∥ InSome struct (metas meta_files) (λ f users.
              (field ≡ f)
              × ((user : Sym) × (member user users ≡ true)
                  × IsOutside config meta_files out user)) ∥₁)
      × ((user : Sym)
          → (member user props.public_users ≡ true)
            ↔ ∥ InSome struct
                (metas meta_files)
                (λ f users. (member user users ≡ true) × IsOutside config meta_files out user) ∥₁)
unfolding given
struct_is_public depth config meta_files lines out struct file named h m known =
    let run = analyze-Run depth config meta_files lines out h in
    let all = metas meta_files in
    let public_user = out.classes.public_user in
    let outside = λ (user : Sym).
      member-public_user out.resolved.metas_by_name out.resolved.edges (sets config meta_files out)
        out.classes user run.arithmetic in
    let (fields, users) = scan_structs-public public_user struct all in
    (
      scan_structs public_user struct all no_properties,
      ap (lookup struct) run.structs
          ∙ lookup-struct_properties public_user all struct
              (member-all_names struct all file m known),
      λ field. (
        λ k. ∥∥₁_map ((fields field).0 k) (λ (n, i, (entry, e, (f, j, (same, (user, both))))). (
          n,
          i,
          (entry, e, (f, j, (same, (user, ground arith, (outside user).0 (ground arith))))),
        )),
        λ t. (fields field).1 (
            ∥∥₁_map t (λ (n, i, (entry, e, (f, j, (same, (user, listed, out_user))))). (
              n,
              i,
              (entry, e, (f, j, (same, (user, rw (listed, (outside user).1 out_user) refl)))),
            ))),
      ),
      λ user. (
        λ k. ∥∥₁_map ((users user).0 k) (λ (n, i, (entry, e, (f, j, both))).
            (n, i, (entry, e, (f, j, (ground arith, (outside user).0 (ground arith)))))),
        λ t. (users user).1 (
            ∥∥₁_map t (λ (n, i, (entry, e, (f, j, (listed, out_user)))).
              (n, i, (entry, e, (f, j, rw (listed, (outside user).1 out_user) refl))))),
      ),
    )
