-- ===== src/Tests/Symbols.antt =====
-- The theorems about names, files and the symbol table, on the sample kernel.
use plugsched.Common.{ℕ, true, false, List, [], ◌∷◌, ◌++◌, ◌≡◌, ◌≢◌, refl, ◌↔◌, some, arith, ◌≤◌}
use plugsched.Common.Sets.{member, IsDistinct}
use plugsched.Common.Text.{Text, codes, text_eq, ends_with, split}
use plugsched.Common.Dict.{lookup}
use plugsched.Common.Errors.{ok}
use plugsched.Common.Order.{ranked_le, ranked_eq}
use plugsched.Analyze.Meta.{Sym, sym_eq, FnMeta}
use plugsched.Analyze.Linkage.{Definition, Link, link, link_all}
use plugsched.Analyze.Linkage.Choice.{IsWeak, link_exact}
use plugsched.Analyze.Linkage.Collect.{definitions, DefinedIn, all_fns, first_pass-definitions}
use plugsched.Analyze.Linkage.Lookup.{strong_is_linked}
use plugsched.Analyze.Resolve.{lookup_if_global}
use plugsched.Analyze.Vmlinux
use plugsched.Analyze.Vmlinux.{Files, Scan, Entry, entry, find_in_vmlinux, local_file}
use plugsched.Analyze.Vmlinux.Found.{IsSound, find_in_vmlinux-IsSound}
use plugsched.Analyze.Vmlinux.Positions.{is_local, local_count, sympos_exact}
use plugsched.Analyze.Emit.{get_func_decl_strs}
use plugsched.Analyze.Emit.Laws.{HasLine, get_func_decl_strs_lines}
use plugsched.Tests.Samples.{
  schedule, pick, function, config, meta_files, lines, row, pass, globals, program, is_ok, value_or,
  ok-value_or, sym, no_globals,
}
use plugsched.Analyze.Main.{metas, files}
use mathlib.Core.List.{Memᴰ}

-- two definitions of `helper`: the weak one of mm/user.c, the strong one of k/core.c
abbrev helpers : List Definition
helpers = (3, codes "mm/user.c") ∷ (1, codes "k/core.c") ∷ []

weak_first : member (3, codes "mm/user.c") helpers ≡ true
unfolding program
weak_first = refl

helpers-IsDistinct : IsDistinct helpers
unfolding program
helpers-IsDistinct = (refl, (refl, tt))

link_exact_example :
    (l : Link) × (prio : ℕ) × (link (codes "helper") helpers ≡ some l)
    × (member (prio, l.linked) helpers ≡ true)
    × ((other : Definition) → member other helpers ≡ true → ranked_le (prio, l.linked) other ≡ true)
    × ((other : Definition)
        → member other helpers ≡ true
        → IsWeak other
        → other ≢ (prio, l.linked)
        → member (codes "helper", other.1) l.overridden ≡ true)
    × ((s : Sym)
        → member s l.overridden ≡ true
        → (other : Definition) × (member other helpers ≡ true)
          × IsWeak other
          × (other ≢ (prio, l.linked))
          × (s ≡ (codes "helper", other.1)))
link_exact_example =
    link_exact (codes "helper") helpers (3, codes "mm/user.c") helpers-IsDistinct weak_first

strong_second : member (1, codes "k/core.c") helpers ≡ true
unfolding program
strong_second = refl

helper_priorities : (d : Definition) → member d helpers ≡ true → 1 ≤ d.0
unfolding member
helper_priorities d h =
    ground
      (arith, ranked_eq.beq_iff d (3, codes "mm/user.c"), ranked_eq.beq_iff d (1, codes "k/core.c"))

first_pass-definitions_example :
    (member (1, codes "k/core.c") (definitions (codes "helper") pass.global_fn_dict) ≡ true)
    ↔ ∥ DefinedIn (all_fns (metas meta_files)) (codes "helper") (1, codes "k/core.c") ∥₁
first_pass-definitions_example =
    first_pass-definitions config (metas meta_files) (codes "helper") (1, codes "k/core.c")

linking_ends : is_ok (link_all pass.global_fn_dict) ≡ true
unfolding program
linking_ends = refl

globals-ok : link_all pass.global_fn_dict ≡ ok globals
globals-ok = ok-value_or no_globals (link_all pass.global_fn_dict) linking_ends

abbrev strong_helper : FnMeta
strong_helper = function true false "helper" "k/core.c"

in_c_file : ends_with (codes ".c") strong_helper.file ≡ true
unfolding program
in_c_file = refl

strong_is_linked_example :
    (winner : FnMeta) × Memᴰ winner (all_fns (metas meta_files))
    × (winner.name ≡ codes "helper")
    × (winner.public ≡ true)
    × (winner.weak ≡ false)
    × (lookup (codes "helper") globals.linked ≡ some winner.file)
strong_is_linked_example =
    strong_is_linked config (metas meta_files) globals strong_helper globals-ok
      (Memᴰ.tail (Memᴰ.tail (Memᴰ.tail (Memᴰ.head refl)))) refl refl in_c_file

found_helper : lookup_if_global globals.linked (sym "helper" "?") ≡ some (sym "helper" "k/core.c")
unfolding program
found_helper = refl

abbrev table : Files
table = files config pass

abbrev scanned : List Text → Scan
scanned ls = value_or Vmlinux.start (find_in_vmlinux table ls Vmlinux.start)

scan_ends : is_ok (find_in_vmlinux table lines Vmlinux.start) ≡ true
unfolding program
scan_ends = refl

find_in_vmlinux-IsSound_example : IsSound table (scanned lines)
find_in_vmlinux-IsSound_example =
    find_in_vmlinux-IsSound table lines (scanned lines)
      (ok-value_or Vmlinux.start (find_in_vmlinux table lines Vmlinux.start) scan_ends)

-- the lines up to the second `pick`
abbrev earlier : List Text
earlier = row "FILE" "LOCAL" "user.c" ∷ row "FUNC" "LOCAL" "pick" ∷ row "FILE" "LOCAL" "core.c" ∷ []

abbrev pick_line : Text
pick_line = row "FUNC" "LOCAL" "pick"

abbrev pick_entry : Entry
pick_entry = record { symtype = codes "FUNC"; scope = codes "LOCAL"; key = codes "pick" }

earlier_ends : is_ok (find_in_vmlinux table earlier Vmlinux.start) ≡ true
unfolding program
earlier_ends = refl

pick_fields : entry (split pick_line) ≡ some pick_entry
unfolding program
pick_fields = refl

pick_local : is_local (codes "pick") (some pick_entry) ≡ true
unfolding program
pick_local = refl

core_file : (scanned earlier).filename ≡ some (codes "k/core.c")
unfolding program
core_file = refl

core_known : member (codes "k/core.c") table.all_files ≡ true
unfolding program
core_known = refl

pick_file : local_file table (codes "pick") (codes "k/core.c") ≡ some (codes "k/core.c")
unfolding program
pick_file = refl

sympos_exact_example :
    (scan : Scan) × (find_in_vmlinux table (earlier ++ pick_line ∷ []) Vmlinux.start ≡ ok scan)
    × (lookup pick scan.local_sympos
        ≡ some (local_count (codes "pick") (earlier ++ pick_line ∷ [])))
sympos_exact_example =
    sympos_exact table earlier pick_line (scanned earlier) pick_entry (codes "k/core.c")
      (codes "k/core.c")
      (ok-value_or Vmlinux.start (find_in_vmlinux table earlier Vmlinux.start) earlier_ends)
      pick_fields pick_local core_file core_known pick_file

second : local_count (codes "pick") (earlier ++ pick_line ∷ []) ≡ 2
unfolding program
second = refl

abbrev strs : List Text
strs =
    value_or [] (
      get_func_decl_strs globals.linked pass.decls (schedule ∷ pick ∷ [])
        (codes "EXPORT_PLUGSCHED"))

strs_end :
    is_ok (
      get_func_decl_strs globals.linked pass.decls
        (schedule ∷ pick ∷ [])
        (codes "EXPORT_PLUGSCHED"))
    ≡ true
unfolding program
strs_end = refl

get_func_decl_strs_lines_example :
    ((fn : Sym)
      → Memᴰ fn (schedule ∷ pick ∷ [])
      → HasLine globals.linked pass.decls (codes "EXPORT_PLUGSCHED") strs fn)
    × ((fn g : Sym)
        → Memᴰ fn (schedule ∷ pick ∷ [])
        → Memᴰ g (schedule ∷ pick ∷ [])
        → fn.0 ≡ g.0
        → lookup fn.0 globals.linked ≢ some fn.1
        → lookup g.0 globals.linked ≢ some g.1
        → fn ≡ g)
get_func_decl_strs_lines_example =
    get_func_decl_strs_lines globals.linked pass.decls (schedule ∷ pick ∷ [])
      (codes "EXPORT_PLUGSCHED") strs
      (ok-value_or []
        (get_func_decl_strs globals.linked pass.decls (schedule ∷ pick ∷ [])
          (codes "EXPORT_PLUGSCHED"))
        strs_end)
