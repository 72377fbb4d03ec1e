-- ===== src/Analyze/Vmlinux.antt =====
-- `find_in_vmlinux` of boundary/analyze.py: what the symbol table of vmlinux says of the functions.
-- The lines are those that readelf prints after its three header lines.
pub mod Found
pub mod Positions
use plugsched.Common.{
  ℕ, suc, ◌+◌, Bool, true, false, not, ◌&&◌, Option, none, some, List, [], ◌∷◌, if◌then◌else◌, ◌==◌,
  nat_eq,
}
use plugsched.Common.Sets.{member, add}
use plugsched.Common.Text.{Text, codes, text_eq, starts_with, occurs, drop_text, before, split}
use plugsched.Common.Dict.{Dict, lookup, insert}
use plugsched.Common.Errors.{Result, ok, err, unbound_local, ◌>>=◌}
use plugsched.Analyze.Meta.{Sym, sym_eq}

-- the configuration that the function reads, and `func_class.fn`
pub record Files : Type 0 where
  pub fullname : Dict Text Text
  pub mod_files : List Text
  pub mod_hdrs : List Text
  pub all_files : List Text
  pub fn : List Sym

-- The local variables; `filename` is unbound until the first FILE symbol.
pub record Scan : Type 0 where
  pub filename : Option Text
  pub fn_pos : Dict Text ℕ
  pub in_vmlinux : List Sym
  pub mangled : List Sym
  pub export : List Sym
  pub local_sympos : Dict Sym ℕ

abbrev pub start : Scan
start = record {
  filename = none;
  fn_pos = [];
  in_vmlinux = [];
  mangled = [];
  export = [];
  local_sympos = [];
}

-- fields[3], fields[4] and fields[7] of a line of eight fields
pub record Entry : Type 0 where
  pub symtype : Text
  pub scope : Text
  pub key : Text

abbrev pub entry : List Text → Option Entry
entry (_ ∷ _ ∷ _ ∷ symtype ∷ scope ∷ _ ∷ _ ∷ key ∷ []) =
    some (record { symtype = symtype; scope = scope; key = key })
entry _ = none

unfoldable pub get_in_any : List Sym → Text → List Text → Option Text
get_in_any fns name [] = none
get_in_any fns name (file ∷ files) =
    let rest = get_in_any fns name files in if member (name, file) fns then some file else rest

-- `fn_pos.get(key, 0)`
abbrev pub or_zero : Option ℕ → ℕ
or_zero none = 0
or_zero (some n) = n

unfoldable pub position : Text → Scan → ℕ
position key scan = or_zero (lookup key scan.fn_pos)

-- a FILE symbol
unfoldable pub set_file : Files → Text → Scan → Scan
set_file files key scan = record scan {
  filename = elim (lookup key files.fullname) [ none ↦ some key | some full ↦ some full ];
}

abbrev pub add_export : Text → Option Text → Scan → Scan
add_export name none scan = scan
add_export name (some file) scan = record scan { export = add (name, file) scan.export }

-- a NOTYPE symbol
unfoldable pub see_notype : Files → Text → Scan → Result Scan
see_notype files key scan =
    if starts_with (codes "__ksymtab_") key
    then elim (scan.filename) [
      | none ↦ err unbound_local
      | some filename ↦
          if member filename files.mod_files
          then (let name = drop_text (codes "__ksymtab_") key in
              ok (add_export name (get_in_any files.fn name files.mod_files) scan))
          else ok scan
    ]
    else ok scan

-- a FUNC symbol whose name has a dot, in the file of the last FILE symbol
unfoldable pub see_mangled : Text → Text → Scan → Scan
see_mangled key filename scan =
    if occurs (codes ".cold") key
    then scan
    else record scan { mangled = add (before b'.' key, filename) scan.mangled }

-- the file of a local function that stands in one of the files, or in a module header
unfoldable pub local_file : Files → Text → Text → Option Text
local_file files key filename =
    if member (key, filename) files.fn
    then some filename
    else get_in_any files.fn key files.mod_hdrs

-- the end of the loop body for a local function, where `file` is found
abbrev pub add_local : Text → ℕ → Option Text → Scan → Scan
add_local key pos none scan = scan
add_local key pos (some file) scan = record scan {
  in_vmlinux = add (key, file) scan.in_vmlinux;
  local_sympos = insert (key, file) pos scan.local_sympos;
}

unfoldable pub see_local : Files → Text → Text → Scan → Scan
see_local files key filename scan =
    let pos = position key scan + 1 in
    let counted = record scan { fn_pos = insert key pos scan.fn_pos } in
    if member filename files.all_files
    then add_local key pos (local_file files key filename) counted
    else counted

abbrev pub add_global : Text → Option Text → Scan → Scan
add_global key none scan = scan
add_global key (some file) scan = record scan { in_vmlinux = add (key, file) scan.in_vmlinux }

-- a FUNC symbol
unfoldable pub see_func : Files → Entry → Scan → Result Scan
see_func files sym scan = elim (scan.filename) [
  | none ↦ err unbound_local
  | some filename ↦
      if member b'.' sym.key
      then ok (see_mangled sym.key filename scan)
      else if sym.scope == codes "LOCAL"
      then ok (see_local files sym.key filename scan)
      else ok (add_global sym.key (get_in_any files.fn sym.key files.all_files) scan)
]

-- the body of the loop
unfoldable pub see_entry : Files → Entry → Scan → Result Scan
see_entry files sym scan =
    if sym.symtype == codes "FILE"
    then ok (set_file files sym.key scan)
    else if sym.symtype == codes "NOTYPE"
    then see_notype files sym.key scan
    else if sym.symtype == codes "FUNC"
    then see_func files sym scan
    else ok scan

abbrev pub see_fields : Files → Option Entry → Scan → Result Scan
see_fields files none scan = ok scan
see_fields files (some sym) scan = see_entry files sym scan

unfoldable pub find_in_vmlinux : Files → List Text → Scan → Result Scan
find_in_vmlinux files [] scan = ok scan
find_in_vmlinux files (line ∷ lines) scan = do
  scan' ← see_fields files (entry (split line)) scan
  find_in_vmlinux files lines scan'
