-- ===== src/Extract/Paths/Resolve.antt =====
-- A relative path leads from its start to the file that it stands for.
use plugsched.Common.{
  suc, false, List, [], ◌∷◌, ◌++◌, ◌≡◌, ◌∙◌, refl, sym, ap, inl, inr, arith, Bool-cases, ◌==◌,
  nat_eq, length, ==_refl,
}
use plugsched.Common.Sets.{member}
use plugsched.Common.Sets.Laws.{member-cons}
use plugsched.Common.Text.{Text, codes, text_eq, starts_with}
use plugsched.Common.Errors.{ok, ok-injective}
use plugsched.Extract.Paths.{
  split_at, walk, parent, absolute, ups, lead, join_names, or_dot, relpath,
}
use plugsched.Extract.Paths.Names.{
  IsPart, IsName, All, All-append, absolute-names, split_on-join_names,
}
use mathlib.Core.List.{append-nil, append_assoc}

parent-append :
    (p : List Text) (name : Text) (names : List Text)
    → parent (p ++ name ∷ names) ≡ p ++ parent (name ∷ names)
parent-append [] name names = refl
parent-append (x ∷ []) name names = refl
parent-append (x ∷ y ∷ p) name names = ap (λ t. x ∷ t) (parent-append (y ∷ p) name names)

length-parent : (name : Text) (names : List Text) → length (parent (name ∷ names)) ≡ length names
length-parent name [] = refl
length-parent name (next ∷ names) = ap suc (length-parent next names)

-- As many steps up as there are names lead back.
walk-ups :
    (p below start rest : List Text)
    → length below ≡ length start
    → walk (p ++ below) (ups start ++ rest) ≡ walk p rest
unfolding walk ups text_eq
walk-ups p [] [] rest h = rw (append-nil p) refl
walk-ups p [] (_ ∷ start) rest h = absurd (omega arith)
walk-ups p (_ ∷ below) [] rest h = absurd (omega arith)
walk-ups p (name ∷ below) (_ ∷ start) rest h =
    ap (λ dir. walk dir (ups start ++ rest)) (parent-append p name below)
    ∙ walk-ups p (parent (name ∷ below)) start rest (omega (arith, length-parent name below))

walk_names : (dir names : List Text) → All IsName names → walk dir names ≡ dir ++ names
unfolding walk
walk_names dir [] h = sym (append-nil dir)
walk_names dir (name ∷ names) (p, h) =
    rw (p.nonempty, p.no_dot, p.no_dots)
      (walk_names (dir ++ name ∷ []) names h ∙ append_assoc dir (name ∷ []) names)

walk-lead :
    (p start path : List Text) → All IsName path → walk (p ++ start) (lead start path) ≡ p ++ path
unfolding lead
walk-lead p [] path h = rw (append-nil p) (walk_names p path h)
walk-lead p (s ∷ start) [] h =
    ap (walk (p ++ s ∷ start)) (sym (append-nil (ups (s ∷ start))))
    ∙ walk-ups p (s ∷ start) (s ∷ start) [] refl
    ∙ walk_names p [] tt
walk-lead p (s ∷ start) (t ∷ path) (name, h) = elim (Bool-cases (s == t)) [
  | inl same ↦
      let e : s ≡ t = (text_eq.beq_iff s t).0 same in
      rw same (
        ap (λ dir. walk dir (lead start path)) (sym (append_assoc p (s ∷ []) start))
        ∙ walk-lead (p ++ s ∷ []) start path h
        ∙ append_assoc p (s ∷ []) path
        ∙ ap (λ x. p ++ x ∷ path) e)
  | inr differ ↦
      rw differ
        (walk-ups p (s ∷ start) (s ∷ start) (t ∷ path) refl ∙ walk_names p (t ∷ path) (name, h))
]

-- a part of a relative path
abbrev IsStep : Text → Type 0
IsStep name = IsPart name × ((name == []) ≡ false)

ups-steps : (names : List Text) → All IsStep (ups names)
unfolding ups member text_eq
ups-steps [] = tt
ups-steps (_ ∷ names) = ((refl, refl), ups-steps names)

steps_of_names : (names : List Text) → All IsName names → All IsStep names
steps_of_names [] h = tt
steps_of_names (name ∷ names) (p, h) = ((p.part, p.nonempty), steps_of_names names h)

parts_of_steps : (names : List Text) → All IsStep names → All IsPart names
parts_of_steps [] h = tt
parts_of_steps (name ∷ names) ((part, _), h) = (part, parts_of_steps names h)

lead-steps : (start path : List Text) → All IsName path → All IsStep (lead start path)
unfolding lead
lead-steps [] path h = steps_of_names path h
lead-steps (s ∷ start) [] h = ups-steps (s ∷ start)
lead-steps (s ∷ start) (t ∷ path) (name, h) = elim (Bool-cases (s == t)) [
  | inl same ↦ rw same (lead-steps start path h)
  | inr differ ↦ rw differ (
      All-append IsStep (ups (s ∷ start)) (t ∷ path) (ups-steps (s ∷ start))
        (steps_of_names (t ∷ path) (name, h)))
]

-- A joined path of parts is no path from the root, unless its first part is empty.
join_names-relative :
    (name : Text) (names : List Text)
    → IsPart name
    → (name == []) ≡ false
    → starts_with (codes "/") (join_names (name ∷ names)) ≡ false
unfolding join_names starts_with
join_names-relative [] names h k = absurd (cc (==_refl {A = Text} []))
join_names-relative (c ∷ t) [] h k = ground (arith, member-cons b'/' c t)
join_names-relative (c ∷ t) (next ∷ names) h k = ground (arith, member-cons b'/' c t)

pub from_dot : (dir : List Text) → absolute dir (codes ".") ≡ dir
unfolding absolute walk starts_with split_at text_eq
from_dot dir = refl

-- From any directory the text of a relative path is taken apart into its steps.
absolute-or_dot :
    (dir names : List Text) → All IsStep names → absolute dir (or_dot names) ≡ walk dir names
unfolding absolute walk
absolute-or_dot dir [] h = from_dot dir
absolute-or_dot dir (name ∷ names) ((part, nonempty), h) =
    rw
      (
        join_names-relative name names part nonempty,
        split_on-join_names name names part (parts_of_steps names h),
      )
      refl

-- A path relative to a start directory, followed from there, leads to the place of the path itself,
-- whatever names the working directory has.
pub relpath_resolves :
    (cwd : List Text) (path start rel : Text)
    → All IsName cwd
    → relpath cwd path start ≡ ok rel
    → absolute (absolute cwd start) rel ≡ absolute cwd path
unfolding relpath
relpath_resolves cwd [] start rel h e = absurd (cc)
relpath_resolves cwd (c ∷ path) start rel h e =
    let there = absolute cwd (c ∷ path) in
    let here = absolute cwd start in
    let names = absolute-names cwd (c ∷ path) h in
    ap (absolute here) (sym (ok-injective _ rel e))
    ∙ absolute-or_dot here (lead here there) (lead-steps here there names)
    ∙ walk-lead [] here there names
