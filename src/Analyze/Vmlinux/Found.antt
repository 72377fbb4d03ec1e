-- ===== src/Analyze/Vmlinux/Found.antt =====
-- Every symbol that the scan records is a function of the metadata.
use plugsched.Common.{
  ℕ, ◌≤◌, true, false, Option, none, some, List, [], ◌∷◌, ◌≡◌, refl, inl, inr, arith, Bool-cases,
  Option-cases, ◌==◌, ◌+◌, nat_eq, ==_refl,
}
use mathlib.Core.Option.{some-injective}
use plugsched.Common.Sets.{member, add}
use plugsched.Common.Sets.Laws.{member-add}
use plugsched.Common.Text.{Text, codes, text_eq, starts_with, occurs, drop_text, split}
use plugsched.Common.Dict.{lookup, insert, lookup-insert}
use plugsched.Common.Errors.{ok, >>=-eq-ok}
use plugsched.Analyze.Meta.{Sym, sym_eq}
use plugsched.Analyze.Vmlinux.{
  Files, Scan, Entry, entry, get_in_any, position, set_file, add_export, see_notype, see_mangled,
  local_file, add_local, see_local, add_global, see_func, see_entry, see_fields, find_in_vmlinux,
  start,
}

-- the file found is one of the files, and the metadata know the function there
get_in_any-eq-some :
    (fns : List Sym) (name : Text) (files : List Text) (file : Text)
    → get_in_any fns name files ≡ some file
    → (member (name, file) fns ≡ true) × (member file files ≡ true)
unfolding get_in_any member
get_in_any-eq-some fns name [] file h = absurd (cc)
get_in_any-eq-some fns name (f ∷ files) file h = elim (Bool-cases (member (name, f) fns)) [
  | inl here ↦ let same : f ≡ file = ground arith in rw (← same) (here, rw (==_refl f))
  | inr elsewhere ↦
      let (known, listed) = get_in_any-eq-some fns name files file (ground arith) in
      (known, ground arith)
]

module _ (files : Files) where
  -- the sets of a scan, and the positions
  pub record IsSound (scan : Scan) : Type 0 where
    pub known : (s : Sym) → member s scan.in_vmlinux ≡ true → member s files.fn ≡ true
    pub plain : (s : Sym) → member s scan.in_vmlinux ≡ true → member b'.' s.0 ≡ false
    pub exported :
        (s : Sym)
        → member s scan.export ≡ true
        → (member s files.fn ≡ true) × (member s.1 files.mod_files ≡ true)
    pub placed :
        (s : Sym) (n : ℕ)
        → lookup s scan.local_sympos ≡ some n
        → (member s scan.in_vmlinux ≡ true) × (1 ≤ n)

  -- Steps that touch neither the functions found nor the positions.
  IsSound-same :
      (scan scan' : Scan)
      → scan'.in_vmlinux ≡ scan.in_vmlinux
      → scan'.export ≡ scan.export
      → scan'.local_sympos ≡ scan.local_sympos
      → IsSound scan
      → IsSound scan'
  IsSound-same scan scan' a b c sound = record {
    known = λ s h. sound.known s (rw a at h);
    plain = λ s h. sound.plain s (rw a at h);
    exported = λ s h. sound.exported s (rw b at h);
    placed = λ s n h. rw a (sound.placed s n (rw c at h));
  }

  add_export-IsSound :
      (name : Text) (o : Option Text) (scan : Scan)
      → ((file : Text)
          → o ≡ some file
          → (member (name, file) files.fn ≡ true) × (member file files.mod_files ≡ true))
      → IsSound scan
      → IsSound (add_export name o scan)
  add_export-IsSound name none scan found sound = sound
  add_export-IsSound name (some file) scan found sound = record {
    known = sound.known;
    plain = sound.plain;
    exported = λ s h. elim (Bool-cases (s == (name, file))) [
      | inl same ↦ rw ((sym_eq.beq_iff s (name, file)).0 same) (found file refl)
      | inr other ↦ sound.exported s (ground (arith, member-add s (name, file) scan.export))
    ];
    placed = sound.placed;
  }

  module _ (key : Text) (dotless : member b'.' key ≡ false) (file : Text)
      (found : member (key, file) files.fn ≡ true) (scan : Scan) (sound : IsSound scan) where
    known_more :
        (s : Sym)
        → member s (add (key, file) scan.in_vmlinux) ≡ true
        → (member s files.fn ≡ true) × (member b'.' s.0 ≡ false)
    known_more s h = elim (Bool-cases (s == (key, file))) [
      | inl same ↦ rw ((sym_eq.beq_iff s (key, file)).0 same) (found, dotless)
      | inr other ↦ let old = ground_old s other h in (sound.known s old, sound.plain s old)
    ]
      where
        ground_old :
            (s : Sym)
            → (s == (key, file)) ≡ false
            → member s (add (key, file) scan.in_vmlinux) ≡ true
            → member s scan.in_vmlinux ≡ true
        ground_old s other h = ground (arith, member-add s (key, file) scan.in_vmlinux)

    add_global-IsSound : IsSound (add_global key (some file) scan)
    add_global-IsSound = record {
      known = λ s h. (known_more s h).0;
      plain = λ s h. (known_more s h).1;
      exported = sound.exported;
      placed = λ s n h.
          let (m, k) = sound.placed s n h in
          (ground (arith, member-add s (key, file) scan.in_vmlinux), k);
    }

    add_local-IsSound : (pos : ℕ) → 1 ≤ pos → IsSound (add_local key pos (some file) scan)
    add_local-IsSound pos positive = record {
      known = λ s h. (known_more s h).0;
      plain = λ s h. (known_more s h).1;
      exported = sound.exported;
      placed = λ s n h.
          let more = member-add s (key, file) scan.in_vmlinux in
          let looked = lookup-insert s (key, file) pos scan.local_sympos in
          elim (Bool-cases (s == (key, file))) [
            | inl same ↦ (ground arith, omega (arith, some-injective pos n (ground arith)))
            | inr other ↦ let (m, k) = sound.placed s n (ground arith) in (ground arith, k)
          ];
    }

  local_file-eq-some :
      (key filename file : Text)
      → local_file files key filename ≡ some file
      → member (key, file) files.fn ≡ true
  unfolding local_file
  local_file-eq-some key filename file h = elim (Bool-cases (member (key, filename) files.fn)) [
    | inl here ↦ rw (← some-injective filename file (rw here at h)) here
    | inr elsewhere ↦ (get_in_any-eq-some files.fn key files.mod_hdrs file (rw elsewhere at h)).0
  ]

  add_local_maybe :
      (key : Text) (pos : ℕ) (o : Option Text) (scan : Scan)
      → member b'.' key ≡ false
      → 1 ≤ pos
      → ((file : Text) → o ≡ some file → member (key, file) files.fn ≡ true)
      → IsSound scan
      → IsSound (add_local key pos o scan)
  add_local_maybe key pos none scan dotless positive found sound = sound
  add_local_maybe key pos (some file) scan dotless positive found sound =
      add_local-IsSound key dotless file (found file refl) scan sound pos positive

  add_global_maybe :
      (key : Text) (o : Option Text) (scan : Scan)
      → member b'.' key ≡ false
      → ((file : Text) → o ≡ some file → member (key, file) files.fn ≡ true)
      → IsSound scan
      → IsSound (add_global key o scan)
  add_global_maybe key none scan dotless found sound = sound
  add_global_maybe key (some file) scan dotless found sound =
      add_global-IsSound key dotless file (found file refl) scan sound

  see_local-IsSound :
      (key filename : Text) (scan : Scan)
      → member b'.' key ≡ false
      → IsSound scan
      → IsSound (see_local files key filename scan)
  unfolding see_local
  see_local-IsSound key filename scan dotless sound =
      let pos = position key scan + 1 in
      let counted = record scan { fn_pos = insert key pos scan.fn_pos } in
      let still = IsSound-same scan counted refl refl refl sound in
      elim (Bool-cases (member filename files.all_files)) [
        | inl inside ↦ rw inside (
            add_local_maybe key pos (local_file files key filename) counted dotless (omega arith)
              (local_file-eq-some key filename) still)
        | inr outside ↦ rw outside still
      ]

  see_mangled-IsSound :
      (key filename : Text) (scan : Scan) → IsSound scan → IsSound (see_mangled key filename scan)
  unfolding see_mangled
  see_mangled-IsSound key filename scan sound = elim (Bool-cases (occurs (codes ".cold") key)) [
    | inl cold ↦ rw cold sound
    | inr hot ↦ rw hot (IsSound-same scan _ refl refl refl sound)
  ]

  see_func-IsSound :
      (sym : Entry) (scan scan' : Scan)
      → see_func files sym scan ≡ ok scan'
      → IsSound scan
      → IsSound scan'
  unfolding see_func
  see_func-IsSound sym scan scan' h sound = elim (Option-cases scan.filename) [
    | inl unbound ↦ absurd (ground arith)
    | inr (filename, e) ↦ elim (Bool-cases (member b'.' sym.key)) [
      | inl dotted ↦
          let same : scan' ≡ see_mangled sym.key filename scan = ground arith in
          rw same (see_mangled-IsSound sym.key filename scan sound)
      | inr dotless ↦ elim (Bool-cases (sym.scope == codes "LOCAL")) [
        | inl local ↦
            let same : scan' ≡ see_local files sym.key filename scan = ground arith in
            rw same (see_local-IsSound sym.key filename scan dotless sound)
        | inr global ↦
            let o = get_in_any files.fn sym.key files.all_files in
            let same : scan' ≡ add_global sym.key o scan = ground arith in
            rw same (
              add_global_maybe sym.key o scan dotless
                (λ file k. (get_in_any-eq-some files.fn sym.key files.all_files file k).0) sound)
      ]
    ]
  ]

  see_notype-IsSound :
      (key : Text) (scan scan' : Scan)
      → see_notype files key scan ≡ ok scan'
      → IsSound scan
      → IsSound scan'
  unfolding see_notype
  see_notype-IsSound key scan scan' h sound =
      elim (Bool-cases (starts_with (codes "__ksymtab_") key)) [
        | inl exported ↦ elim (Option-cases scan.filename) [
          | inl unbound ↦ absurd (ground arith)
          | inr (filename, e) ↦ elim (Bool-cases (member filename files.mod_files)) [
            | inl inside ↦
                let name = drop_text (codes "__ksymtab_") key in
                let o = get_in_any files.fn name files.mod_files in
                let same : scan' ≡ add_export name o scan = ground arith in
                rw same (
                  add_export-IsSound name o scan
                    (λ file k. get_in_any-eq-some files.fn name files.mod_files file k) sound)
            | inr outside ↦ let same : scan' ≡ scan = ground arith in rw same sound
          ]
        ]
        | inr other ↦ let same : scan' ≡ scan = ground arith in rw same sound
      ]

  see_entry-IsSound :
      (sym : Entry) (scan scan' : Scan)
      → see_entry files sym scan ≡ ok scan'
      → IsSound scan
      → IsSound scan'
  unfolding see_entry set_file
  see_entry-IsSound sym scan scan' h sound = elim (Bool-cases (sym.symtype == codes "FILE")) [
    | inl is_file ↦ IsSound-same scan scan' (ground arith) (ground arith) (ground arith) sound
    | inr not_file ↦ elim (Bool-cases (sym.symtype == codes "NOTYPE")) [
      | inl is_notype ↦ see_notype-IsSound sym.key scan scan' (ground arith) sound
      | inr not_notype ↦ elim (Bool-cases (sym.symtype == codes "FUNC")) [
        | inl is_func ↦ see_func-IsSound sym scan scan' (ground arith) sound
        | inr other ↦ let same : scan' ≡ scan = ground arith in rw same sound
      ]
    ]
  ]

  find_in_vmlinux_keeps :
      (lines : List Text) (scan scan' : Scan)
      → find_in_vmlinux files lines scan ≡ ok scan'
      → IsSound scan
      → IsSound scan'
  unfolding find_in_vmlinux
  find_in_vmlinux_keeps [] scan scan' h sound =
      let same : scan' ≡ scan = ground arith in rw same sound
  find_in_vmlinux_keeps (line ∷ lines) scan scan' h sound =
      let (mid, first, rest) = >>=-eq-ok (see_fields files (entry (split line)) scan) _ h in
      find_in_vmlinux_keeps lines mid scan' rest
        (see_fields-IsSound (entry (split line)) scan mid first sound)
    where
      see_fields-IsSound :
          (o : Option Entry) (s s' : Scan) → see_fields files o s ≡ ok s' → IsSound s → IsSound s'
      see_fields-IsSound none s s' e sound = let same : s' ≡ s = ground arith in rw same sound
      see_fields-IsSound (some sym) s s' e sound = see_entry-IsSound sym s s' e sound

-- After a scan without an error every function found in vmlinux is a function of the metadata whose name has no dot, every
-- exported one stands in a module file, and every position is that of a function found and is
-- counted from 1.
pub find_in_vmlinux-IsSound :
    (files : Files) (lines : List Text) (scan : Scan)
    → find_in_vmlinux files lines start ≡ ok scan
    → IsSound files scan
unfolding lookup member
find_in_vmlinux-IsSound files lines scan h =
    find_in_vmlinux_keeps files lines start scan h (record {
      known = λ s m. absurd (cc);
      plain = λ s m. absurd (cc);
      exported = λ s m. absurd (cc);
      placed = λ s n m. absurd (cc);
    })
