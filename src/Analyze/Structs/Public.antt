-- ===== src/Analyze/Structs/Public.antt =====
-- A field is public exactly if a public user uses it, in some file.
use plugsched.Common.{
  true, some, List, [], ◌∷◌, ◌≡◌, refl, ◌↔◌, ◌⊎◌, inl, inr, arith, Bool-cases, Option-cases, ⊎_elim,
  ◌==◌, ap, sym, subst, ◌∙◌, loop_collects, ◌&&◌, ◌||◌,
}
use plugsched.Common.Sets.{member, union, inter, from_list}
use plugsched.Common.Sets.Laws.{
  member-nil, member-cons_self, member-add, member-union, member-inter, member-from_list,
}
use plugsched.Common.Text.{Text, text_eq}
use plugsched.Common.Dict.{Dict, lookup}
use plugsched.Analyze.Meta.{Sym, sym_eq, StructMeta, Meta}
use plugsched.Analyze.Structs.{
  StructProperties, add_users, scan_fields, scan_struct, scan_structs, no_properties,
}
use mathlib.Core.Bool.{So-prop}
use mathlib.Core.Logic.{∥∥₁_elim}
use mathlib.Core.Option.{some-injective}
use mathlib.Core.List.{Memᴰ}

module _ (public_user : List Sym) (struct : Text) where
  add_users_fields :
      (f field : Text) (p_user : List Sym) (props : StructProperties)
      → (member f (add_users field p_user props).public_fields ≡ true) ↔ (
          (member f props.public_fields ≡ true)
          ⊎ (f ≡ field) × ((user : Sym) × (member user p_user ≡ true)))
  add_users_fields f field [] props =
      (inl, ⊎_elim (λ m. m) (λ (_, (user, m)). absurd (cc (member-nil user))))
  add_users_fields f field (u ∷ p_user) props =
      let more = member-add f field props.public_fields in
      let same = text_eq.beq_iff f field in
      (
        λ h. elim (Bool-cases (f == field)) [
          | inl e ↦ inr (same.0 e, (u, member-cons_self u p_user))
          | inr e ↦ inl (ground arith)
        ],
        λ h. elim h [ inl m ↦ ground arith | inr (e, _) ↦ ground arith ],
      )

  add_users_users :
      (user : Sym) (field : Text) (p_user : List Sym) (props : StructProperties)
      → member user (add_users field p_user props).public_users
        ≡ (member user p_user || member user props.public_users)
  add_users_users user field [] props = rw (member-nil user)
  add_users_users user field (u ∷ p_user) props = member-union user (u ∷ p_user) props.public_users

  member-p_user :
      (user : Sym) (users : List Sym)
      → member user (inter (from_list users) public_user)
        ≡ (member user users && member user public_user)
  member-p_user user users =
      member-inter user (from_list users) public_user ∙ rw (member-from_list user users)

  -- one entry of meta['struct'][struct]['public_fields'], for the field and for the user
  abbrev pub Entry : Type 0
  Entry = Text × List Sym

  abbrev pub EntryOf : Text → Entry → Type 0
  EntryOf f (field, users) =
      (f ≡ field) × ((user : Sym) × ((member user users && member user public_user) ≡ true))

  abbrev pub EntryBy : Sym → Entry → Type 0
  EntryBy user (field, users) = (member user users && member user public_user) ≡ true

  abbrev scan_entry : Entry → StructProperties → StructProperties
  scan_entry (field, users) props = add_users field (inter (from_list users) public_user) props

  scan_fields_fields :
      (f : Text) (fields : Dict Text (List Sym)) (props : StructProperties)
      → (member f (scan_fields public_user fields props).public_fields ≡ true) ↔ (
          (member f props.public_fields ≡ true)
          ⊎ ((entry : Entry) × Memᴰ entry fields × EntryOf f entry))
  unfolding scan_fields
  scan_fields_fields f =
      loop_collects (λ (p : StructProperties). member f p.public_fields ≡ true) (EntryOf f)
        scan_entry each (scan_fields public_user) (λ s. refl) (λ x xs s. refl)
    where
      each :
          (x : Entry) (s : StructProperties)
          → (member f (scan_entry x s).public_fields ≡ true)
            ↔ ((member f s.public_fields ≡ true) ⊎ EntryOf f x)
      each (field, users) s =
          let (fore, back) = add_users_fields f field (inter (from_list users) public_user) s in
          (
            λ h. elim (fore h) [
              | inl m ↦ inl m
              | inr (e, (u, m)) ↦ inr (e, (u, rw (member-p_user u users) at m))
            ],
            λ h. elim h [
              | inl m ↦ back (inl m)
              | inr (e, (u, m)) ↦ back (inr (e, (u, member-p_user u users ∙ m)))
            ],
          )

  scan_fields_users :
      (user : Sym) (fields : Dict Text (List Sym)) (props : StructProperties)
      → (member user (scan_fields public_user fields props).public_users ≡ true) ↔ (
          (member user props.public_users ≡ true)
          ⊎ ((entry : Entry) × Memᴰ entry fields × EntryBy user entry))
  unfolding scan_fields
  scan_fields_users user =
      loop_collects (λ (p : StructProperties). member user p.public_users ≡ true) (EntryBy user)
        scan_entry each (scan_fields public_user) (λ s. refl) (λ x xs s. refl)
    where
      each :
          (x : Entry) (s : StructProperties)
          → (member user (scan_entry x s).public_users ≡ true)
            ↔ ((member user s.public_users ≡ true) ⊎ EntryBy user x)
      each (field, users) s = ground (
        arith,
        add_users_users user field (inter (from_list users) public_user) s,
        member-p_user user users,
      )

  -- what a file holds of the struct
  abbrev pub Holds : (Entry → Type 0) → Meta → Type 0
  Holds Found m =
      (entry : StructMeta) × (lookup struct m.struct ≡ some entry)
      × ((field : Entry) × Memᴰ field entry.public_fields × Found field)

  module _ (P : StructProperties → Type 0) (Found : Entry → Type 0)
      (reads : (p : StructProperties) (a : List Text) → P (record p { all_fields = a }) ↔ P p)
      (collects : (fields : Dict Text (List Sym)) (p : StructProperties)
        → P (scan_fields public_user fields p)
          ↔ (P p ⊎ ((entry : Entry) × Memᴰ entry fields × Found entry))) where
    scan_struct_collects :
        (m : Meta) (p : StructProperties)
        → P (scan_struct public_user (lookup struct m.struct) p) ↔ (P p ⊎ Holds Found m)
    unfolding scan_struct
    scan_struct_collects m p = elim (Option-cases (lookup struct m.struct)) [
      | inl missing ↦ rw missing (inl, ⊎_elim (λ x. x) (λ (entry, e, _). absurd (cc)))
      | inr (entry, e) ↦
          let all = union entry.all_fields p.all_fields in
          let (fore, back) = collects entry.public_fields (record p { all_fields = all }) in
          let (off, on) = reads p all in
          rw e (
            λ h. elim (fore h) [ inl q ↦ inl (off q) | inr found ↦ inr (entry, refl, found) ],
            λ h. elim h [
              | inl q ↦ back (inl (on q))
              | inr (other, e', (field, m', x)) ↦
                  let same : other.public_fields ≡ entry.public_fields =
                    ap (λ (s : StructMeta). s.public_fields)
                      (some-injective other entry (sym e')) in
                  back (inr (field, subst (Memᴰ field) same m', x))
            ],
          )
    ]

    scan_structs_collects :
        (metas : List Meta) (p : StructProperties)
        → P (scan_structs public_user struct metas p)
          ↔ (P p ⊎ ((m : Meta) × Memᴰ m metas × Holds Found m))
    unfolding scan_structs
    scan_structs_collects =
        loop_collects P (Holds Found) (λ m. scan_struct public_user (lookup struct m.struct))
          scan_struct_collects (scan_structs public_user struct) (λ s. refl) (λ x xs s. refl)

-- A field of a struct is public exactly if, in some file, one of `public_user` is among its users, and
-- the public users are exactly these functions.
pub scan_structs-public :
    (public_user : List Sym) (struct : Text) (metas : List Meta)
    → ((field : Text)
        → (member field (scan_structs public_user struct metas no_properties).public_fields ≡ true)
          ↔ ∥ (
              (m : Meta) × Memᴰ m metas
              × Holds public_user struct (EntryOf public_user struct field) m) ∥₁)
      × ((user : Sym)
          → (member user (scan_structs public_user struct metas no_properties).public_users ≡ true)
            ↔ ∥ (
                (m : Meta) × Memᴰ m metas
                × Holds public_user struct (EntryBy public_user struct user) m) ∥₁)
scan_structs-public public_user struct metas = (
  λ field.
      let (fore, back) =
        scan_structs_collects public_user struct (λ p. member field p.public_fields ≡ true)
          (EntryOf public_user struct field) (λ p a. (λ h. h, λ h. h))
          (scan_fields_fields public_user struct field) metas no_properties in
      (
        λ h. ⊎_elim (λ m. absurd (cc (member-nil field))) (λ x. ∣ x ∣₁) (fore h),
        λ t. ∥∥₁_elim t (So-prop _) (λ x. back (inr x)),
      ),
  λ user.
      let (fore, back) =
        scan_structs_collects public_user struct (λ p. member user p.public_users ≡ true)
          (EntryBy public_user struct user) (λ p a. (λ h. h, λ h. h))
          (scan_fields_users public_user struct user) metas no_properties in
      (
        λ h. ⊎_elim (λ m. absurd (cc (member-nil user))) (λ x. ∣ x ∣₁) (fore h),
        λ t. ∥∥₁_elim t (So-prop _) (λ x. back (inr x)),
      ),
)
