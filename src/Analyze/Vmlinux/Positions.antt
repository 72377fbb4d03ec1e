-- ===== src/Analyze/Vmlinux/Positions.antt =====
-- The sympos of a local function is its place among the local functions of its name.
use plugsched.Common.{
  ℕ, ◌+◌, Bool, true, false, not, ◌&&◌, Option, none, some, List, [], ◌∷◌, ◌++◌, ◌≡◌, ◌∙◌, ap, refl,
  inl, inr, arith, Bool-cases, Option-cases, ◌==◌, if◌then◌else◌, nat_eq,
}
use mathlib.Core.Bool.{and-eq-true_iff}
use plugsched.Common.Sets.{member}
use plugsched.Common.Text.{Text, codes, text_eq, split}
use plugsched.Common.Dict.{lookup, insert, lookup-insert}
use plugsched.Common.Errors.{ok, >>=-eq-ok}
use plugsched.Analyze.Meta.{sym_eq}
use plugsched.Analyze.Vmlinux.{
  Files, Scan, Entry, entry, position, see_notype, see_mangled, see_local, see_func, see_entry,
  see_fields, set_file, local_file, find_in_vmlinux, start,
}

-- a line for a local function `key`, mangled copies apart
abbrev pub is_local : Text → Option Entry → Bool
is_local key none = false
is_local key (some sym) =
    sym.symtype == codes "FUNC"
    && (sym.scope == codes "LOCAL" && (not (member b'.' sym.key) && key == sym.key))

abbrev pub local_count : Text → List Text → ℕ
local_count key [] = 0
local_count key (line ∷ lines) =
    (if is_local key (entry (split line)) then 1 else 0) + local_count key lines

differ_file : (codes "FUNC" == codes "FILE") ≡ false
unfolding text_eq
differ_file = refl

differ_notype : (codes "FUNC" == codes "NOTYPE") ≡ false
unfolding text_eq
differ_notype = refl

-- no text is two of the symbol types
other_type :
    (symtype a b : Text) → (symtype == a) ≡ true → (a == b) ≡ false → (symtype == b) ≡ false
other_type symtype a b h k = rw ((text_eq.beq_iff symtype a).0 h) k

module _ (files : Files) (key : Text) where
  fn_pos-see_local :
      (name filename : Text) (scan : Scan)
      → (see_local files name filename scan).fn_pos
        ≡ insert name (position name scan + 1) scan.fn_pos
  unfolding see_local
  fn_pos-see_local name filename scan = ground arith

  position-see_local :
      (name filename : Text) (scan : Scan)
      → position key (see_local files name filename scan)
        ≡ position key scan + (if key == name then 1 else 0)
  unfolding position
  position-see_local name filename scan = ground (
    arith,
    fn_pos-see_local name filename scan,
    lookup-insert key name (position name scan + 1) scan.fn_pos,
    text_eq.beq_iff key name,
  )

  fn_pos-see_notype :
      (name : Text) (scan scan' : Scan)
      → see_notype files name scan ≡ ok scan'
      → scan'.fn_pos ≡ scan.fn_pos
  unfolding see_notype
  fn_pos-see_notype name scan scan' h = ground arith

  position-see_func :
      (sym : Entry) (scan scan' : Scan)
      → see_func files sym scan ≡ ok scan'
      → position key scan'
        ≡ position key scan
          + (if sym.scope == codes "LOCAL" && (not (member b'.' sym.key) && key == sym.key)
              then 1
              else 0)
  unfolding see_func see_mangled position
  position-see_func sym scan scan' h = elim (Option-cases scan.filename) [
    | inl unbound ↦ absurd (ground arith)
    | inr (filename, e) ↦ ground (arith, position-see_local sym.key filename scan)
  ]

  position-see_entry :
      (sym : Entry) (scan scan' : Scan)
      → see_entry files sym scan ≡ ok scan'
      → position key scan' ≡ position key scan + (if is_local key (some sym) then 1 else 0)
  unfolding see_entry set_file position
  position-see_entry sym scan scan' h = elim (Bool-cases (sym.symtype == codes "FUNC")) [
    | inl is_func ↦
        let not_file = other_type sym.symtype (codes "FUNC") (codes "FILE") is_func differ_file in
        let not_notype =
          other_type sym.symtype (codes "FUNC") (codes "NOTYPE") is_func differ_notype in
        rw is_func (position-see_func sym scan scan' (ground arith))
    | inr other ↦ ground (arith, fn_pos-see_notype sym.key scan scan')
  ]

  position-see_fields :
      (o : Option Entry) (scan scan' : Scan)
      → see_fields files o scan ≡ ok scan'
      → position key scan' ≡ position key scan + (if is_local key o then 1 else 0)
  position-see_fields none scan scan' h = ground arith
  position-see_fields (some sym) scan scan' h = position-see_entry sym scan scan' h

  -- The counter of a name grows by the local functions of that name in the lines read.
  pub position-find_in_vmlinux :
      (lines : List Text) (scan scan' : Scan)
      → find_in_vmlinux files lines scan ≡ ok scan'
      → position key scan' ≡ position key scan + local_count key lines
  unfolding find_in_vmlinux
  position-find_in_vmlinux [] scan scan' h = ground arith
  position-find_in_vmlinux (line ∷ lines) scan scan' h =
      let (mid, first, rest) = >>=-eq-ok (see_fields files (entry (split line)) scan) _ h in
      omega (
        arith,
        position-find_in_vmlinux lines mid scan' rest,
        position-see_fields (entry (split line)) scan mid first,
      )

find_in_vmlinux-append :
    (files : Files) (lines : List Text) (line : Text) (scan mid scan' : Scan)
    → find_in_vmlinux files lines scan ≡ ok mid
    → see_fields files (entry (split line)) mid ≡ ok scan'
    → find_in_vmlinux files (lines ++ line ∷ []) scan ≡ ok scan'
unfolding find_in_vmlinux
find_in_vmlinux-append files [] line scan mid scan' h k =
    let same : scan ≡ mid = ground arith in rw (same, k)
find_in_vmlinux-append files (l ∷ lines) line scan mid scan' h k =
    let (next, first, rest) = >>=-eq-ok (see_fields files (entry (split l)) scan) _ h in
    rw first (find_in_vmlinux-append files lines line next mid scan' rest k)

local_count-append :
    (key : Text) (lines : List Text) (line : Text)
    → local_count key (lines ++ line ∷ [])
      ≡ local_count key lines + (if is_local key (entry (split line)) then 1 else 0)
local_count-append key [] line = omega arith
local_count-append key (l ∷ lines) line = omega (arith, local_count-append key lines line)

see_entry_local :
    (files : Files) (sym : Entry) (scan : Scan) (filename : Text)
    → is_local sym.key (some sym) ≡ true
    → scan.filename ≡ some filename
    → see_entry files sym scan ≡ ok (see_local files sym.key filename scan)
unfolding see_entry see_func
see_entry_local files sym scan filename local e =
    let (is_func, _) = (and-eq-true_iff (sym.symtype == codes "FUNC") _).0 local in
    let not_file = other_type sym.symtype (codes "FUNC") (codes "FILE") is_func differ_file in
    let not_notype = other_type sym.symtype (codes "FUNC") (codes "NOTYPE") is_func differ_notype in
    ground arith

lookup-see_local :
    (files : Files) (key filename file : Text) (scan : Scan)
    → member filename files.all_files ≡ true
    → local_file files key filename ≡ some file
    → lookup (key, file) (see_local files key filename scan).local_sympos
      ≡ some (position key scan + 1)
unfolding see_local
lookup-see_local files key filename file scan inside found = ground (
  arith,
  lookup-insert (key, file) (key, file) (position key scan + 1) scan.local_sympos,
  sym_eq.beq_iff (key, file) (key, file),
)

position-start : (key : Text) → position key start ≡ 0
unfolding position lookup
position-start key = refl

last_counts :
    (key : Text) (o : Option Entry)
    → is_local key o ≡ true
    → ◌≡◌ {A = ℕ} (if is_local key o then 1 else 0) 1
last_counts key o h = rw h

-- When the line of a local function is read whose file is known, its position is recorded, and it
-- is the number of local functions of that name in the lines up to that one.
pub sympos_exact :
    (files : Files) (lines : List Text) (line : Text) (before : Scan) (sym : Entry)
    (filename file : Text)
    → find_in_vmlinux files lines start ≡ ok before
    → entry (split line) ≡ some sym
    → is_local sym.key (some sym) ≡ true
    → before.filename ≡ some filename
    → member filename files.all_files ≡ true
    → local_file files sym.key filename ≡ some file
    → (scan : Scan) × (find_in_vmlinux files (lines ++ line ∷ []) start ≡ ok scan)
      × (lookup (sym.key, file) scan.local_sympos ≡ some (local_count sym.key (lines ++ line ∷ [])))
sympos_exact files lines line before sym filename file h e local in_file inside found =
    let scan = see_local files sym.key filename before in
    let counted = position-find_in_vmlinux files sym.key lines start before h in
    (
      scan,
      find_in_vmlinux-append files lines line start before scan h
          (rw e (see_entry_local files sym before filename local in_file)),
      lookup-see_local files sym.key filename file before inside found
          ∙ ap some (
              omega (
                arith,
                counted,
                position-start sym.key,
                local_count-append sym.key lines line,
                last_counts sym.key (entry (split line)) (rw e local),
              )),
    )
