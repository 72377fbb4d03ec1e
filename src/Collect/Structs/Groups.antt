-- ===== src/Collect/Structs/Groups.antt =====
-- `groupby` against a filter.
use plugsched.Common.{
  true, false, Option, none, some, List, [], ◌∷◌, ◌==◌, if◌then◌else◌, ◌≡◌, refl, sym, ◌∙◌, ap,
  arith, Bool-cases, inl, inr,
}
use plugsched.Common.Text.{Text, text_eq}
use plugsched.Common.Dict.{Dict, lookup}
use plugsched.Common.Order.{text_le, text_le_total, text_le_trans}
use plugsched.Collect.Gcc.{Decl}
use plugsched.Collect.Structs.{User, insert_user, sort_users, add_to_groups, groups_of, groupby}

-- the users of a field, in the order of the list
unfoldable pub with_field : Text → List User → List Decl
with_field field [] = []
with_field field ((decl, f) ∷ users) =
    let rest = with_field field users in if field == f then decl ∷ rest else rest

abbrev pub unless_empty : List Decl → Option (List Decl)
unless_empty [] = none
unless_empty (decl ∷ decls) = some (decl ∷ decls)

text_le_refl : (s : Text) → text_le s s ≡ true
text_le_refl s = elim (text_le_total s s) [ inl h ↦ h | inr h ↦ h ]

with_field-insert_user :
    (field : Text) (user : User) (users : List User)
    → with_field field (insert_user user users) ≡ with_field field (user ∷ users)
unfolding with_field insert_user
with_field-insert_user field user [] = refl
with_field-insert_user field user (u ∷ users) = ground (
  arith,
  with_field-insert_user field user users,
  text_eq.beq_iff field user.1,
  text_eq.beq_iff field u.1,
  text_le_refl field,
)

with_field-sort_users :
    (field : Text) (users : List User)
    → with_field field (sort_users users) ≡ with_field field users
unfolding with_field sort_users
with_field-sort_users field [] = refl
with_field-sort_users field ((decl, f) ∷ users) =
    with_field-insert_user field (decl, f) (sort_users users)
    ∙ ap (λ rest. if field == f then decl ∷ rest else rest) (with_field-sort_users field users)

text_le_antisymm : (s t : Text) → text_le s t ≡ true → text_le t s ≡ true → s ≡ t
unfolding text_le
text_le_antisymm [] [] h k = refl
text_le_antisymm [] (d ∷ t) h k = absurd (cc)
text_le_antisymm (c ∷ s) [] h k = absurd (cc)
text_le_antisymm (c ∷ s) (d ∷ t) h k = ground (arith, text_le_antisymm s t)

-- Every field is at least the given one.
abbrev pub AtLeast : Text → List User → Type 0
AtLeast field [] = Unit {0}
AtLeast field (u ∷ users) = (text_le field u.1 ≡ true) × AtLeast field users

abbrev pub InOrder : List User → Type 0
InOrder [] = Unit {0}
InOrder (u ∷ users) = AtLeast u.1 users × InOrder users

AtLeast-trans :
    (s t : Text) (users : List User) → text_le s t ≡ true → AtLeast t users → AtLeast s users
AtLeast-trans s t [] h k = tt
AtLeast-trans s t (u ∷ users) h (k, ks) = (text_le_trans s t u.1 h k, AtLeast-trans s t users h ks)

insert_user-AtLeast :
    (s : Text) (user : User) (users : List User)
    → text_le s user.1 ≡ true
    → AtLeast s users
    → AtLeast s (insert_user user users)
unfolding insert_user
insert_user-AtLeast s user [] h k = (h, tt)
insert_user-AtLeast s user (u ∷ users) h (k, ks) = elim (Bool-cases (text_le user.1 u.1)) [
  | inl before ↦ rw before (h, (k, ks))
  | inr after ↦ rw after (k, insert_user-AtLeast s user users h ks)
]

insert_user-InOrder :
    (user : User) (users : List User) → InOrder users → InOrder (insert_user user users)
unfolding insert_user
insert_user-InOrder user [] h = (tt, tt)
insert_user-InOrder user (u ∷ users) (k, ks) = elim (Bool-cases (text_le user.1 u.1)) [
  | inl before ↦ rw before ((before, AtLeast-trans user.1 u.1 users before k), (k, ks))
  | inr after ↦
      let le : text_le u.1 user.1 ≡ true = ground (arith, text_le_total u.1 user.1) in
      rw after (insert_user-AtLeast u.1 user users le k, insert_user-InOrder user users ks)
]

sort_users-InOrder : (users : List User) → InOrder (sort_users users)
unfolding sort_users
sort_users-InOrder [] = tt
sort_users-InOrder (user ∷ users) =
    insert_user-InOrder user (sort_users users) (sort_users-InOrder users)

-- A field before all others has no user.
with_field-eq-nil :
    (field least : Text) (users : List User)
    → (field == least) ≡ false
    → text_le field least ≡ true
    → AtLeast least users
    → with_field field users ≡ []
unfolding with_field
with_field-eq-nil field least [] ne le h = refl
with_field-eq-nil field least ((decl, f) ∷ users) ne le (h, hs) = ground (
  arith,
  with_field-eq-nil field least users ne le hs,
  text_le_antisymm field least,
  text_eq.beq_iff field f,
  text_eq.beq_iff field least,
)

-- The first group belongs to the first user.
head_group :
    (user : User) (groups : Dict Text (List Decl))
    → (decls : List Decl) × (rest : Dict Text (List Decl)) × (add_to_groups user groups
        ≡ (user.1, decls) ∷ rest)
head_group user [] = (user.0 ∷ [], [], refl)
head_group user ((field, decls) ∷ groups) = elim (Bool-cases (user.1 == field)) [
  | inl same ↦ (user.0 ∷ decls, groups, rw (same, sym ((text_eq.beq_iff user.1 field).0 same)) refl)
  | inr other ↦ (user.0 ∷ [], (field, decls) ∷ groups, rw other refl)
]

unless_empty-eq-some : (xs ys : List Decl) → some ys ≡ unless_empty xs → xs ≡ ys
unless_empty-eq-some [] ys h = absurd (cc)
unless_empty-eq-some (x ∷ xs) ys h = cc

-- one more user before the first group
lookup-add_to_groups :
    (field f k : Text) (decl : Decl) (decls users : List Decl) (rest : Dict Text (List Decl))
    → lookup field ((k, decls) ∷ rest) ≡ unless_empty users
    → ((field == k) ≡ false → field ≡ f → users ≡ [])
    → lookup field (add_to_groups (decl, f) ((k, decls) ∷ rest))
      ≡ unless_empty (if field == f then decl ∷ users else users)
unfolding lookup
lookup-add_to_groups field f k decl decls users rest h none_left = elim (Bool-cases (field == f)) [
  | inr other ↦ elim (Bool-cases (f == k)) [
    | inl same ↦
        let differ : (field == k) ≡ false =
          ground (arith, text_eq.beq_iff field f, text_eq.beq_iff field k, text_eq.beq_iff f k) in
        rw (other, same, differ) (rw differ at h)
    | inr differ ↦ rw (other, differ, other) h
  ]
  | inl here ↦
      let e = (text_eq.beq_iff field f).0 here in
      elim (Bool-cases (f == k)) [
        | inl same ↦
            let found : (field == k) ≡ true = rw e same in
            rw (here, same, found)
              (ap (λ xs. some (decl ∷ xs)) (sym (unless_empty-eq-some users decls (rw found at h))))
        | inr differ ↦
            rw (here, differ, here) (ap (λ xs. some (decl ∷ xs)) (sym (none_left (rw e differ) e)))
      ]
]

lookup-groups_of :
    (field : Text) (users : List User)
    → InOrder users
    → lookup field (groups_of users) ≡ unless_empty (with_field field users)
unfolding groups_of with_field lookup
lookup-groups_of field [] h = refl
lookup-groups_of field ((decl, f) ∷ []) h = ground arith
lookup-groups_of field ((decl, f) ∷ v ∷ users) ((k, ks), h) =
    let (decls, rest, e) = head_group v (groups_of users) in
    rw e (
      lookup-add_to_groups field f v.1 decl decls (with_field field (v ∷ users)) rest
        (rw e at (lookup-groups_of field (v ∷ users) h))
        (λ differ here.
          with_field-eq-nil field v.1 (v ∷ users) differ (rw here k) (text_le_refl v.1, h.0)))

-- Grouping the users of a struct by field yields, for every field, its users in the order in which
-- they were; and no entry for a field without users.
pub lookup-groupby :
    (field : Text) (users : List User)
    → lookup field (groupby users) ≡ unless_empty (with_field field users)
unfolding groupby
lookup-groupby field users =
    lookup-groups_of field (sort_users users) (sort_users-InOrder users)
    ∙ ap unless_empty (with_field-sort_users field users)
