-- ===== src/Analyze/Main/Safety.antt =====
-- What a run of boundary/analyze.py that ends without an error guarantees.
use plugsched.Common.{
  ℕ, Bool, true, false, not, ◌||◌, List, [], ◌∷◌, ◌≡◌, refl, inl, inr, arith, Option, some, subst,
  sym, ◌∙◌, ap,
}
use plugsched.Common.Sets.{member, union, inter}
use plugsched.Common.Sets.Laws.{member-union, member-inter, mem_of_member}
use plugsched.Common.Order.{sorted, text_order}
use plugsched.Common.Order.Sorted.{member-sorted}
use plugsched.Common.Text.{Text, codes, text_eq}
use plugsched.Common.Dict.{Dict, lookup, get_item}
use plugsched.Common.Errors.{ok, assert, assert-eq-true, >>=-eq-ok, ok-injective}
use plugsched.Analyze.Meta.{DeclStr, Sym, sym_eq, Edge, MetaEdge, Meta, Config}
use plugsched.Analyze.Linkage.{Pass, first_pass, link_all, start}
use plugsched.Analyze.Resolve.{second_pass}
use plugsched.Analyze.Vmlinux
use plugsched.Analyze.Vmlinux.{Scan, find_in_vmlinux}
use plugsched.Analyze.Classes.{Given, func_class_arithmetics, caller_class}
use plugsched.Analyze.Classes.Boundary.{insider_callers}
use plugsched.Analyze.Redirect.{CallerClass, check_redirect_mangled}
use plugsched.Analyze.Redirect.Unsafe.{Unsafe}
use plugsched.Analyze.Redirect.Verdict.{clear_safe}
use plugsched.Analyze.Sidecar.{boundary_file}
use plugsched.Analyze.Structs.{struct_properties}
use plugsched.Analyze.Emit.{get_func_decl_strs}
use plugsched.Analyze.Emit.Laws.{HasLine, get_func_decl_strs_lines}
use plugsched.Analyze.Main.{Output, metas, files, given, sanity_checks, no_edges, analyze}
use mathlib.Core.List.{Memᴰ}
use mathlib.Core.List.Memᴰ

-- A symbol of the list that passed the checks has metadata, and is safe in them.
sanity_checks_safe :
    (depth : ℕ) (func_class : CallerClass) (metas_by_name : Dict Text (List MetaEdge))
    (syms : List Sym)
    → sanity_checks depth func_class metas_by_name syms ≡ ok tt
    → (s : Sym) → Memᴰ s syms
    → (edges : List MetaEdge) × (lookup (boundary_file s) metas_by_name ≡ some edges)
      × ¬ Unsafe func_class edges s
unfolding sanity_checks get_item
sanity_checks_safe depth func_class metas_by_name [] h s m = absurd (Memᴰ.not-nil m)
sanity_checks_safe depth func_class metas_by_name (sym ∷ syms) h s m =
    let (edges, found, h₁) = >>=-eq-ok (get_item (boundary_file sym) metas_by_name) _ h in
    let (b, verdict, h₂) = >>=-eq-ok (check_redirect_mangled func_class edges depth sym) _ h₁ in
    let (_, fine, h₃) = >>=-eq-ok (assert (not b)) _ h₂ in
    elim (Memᴰ.cases_cons m) [
      | inl same ↦
          let clear : b ≡ false = not-eq-true b (assert-eq-true (not b) fine) in
          rw same (edges, ground arith, clear_safe func_class edges depth (verdict ∙ ap ok clear))
      | inr later ↦ sanity_checks_safe depth func_class metas_by_name syms h₃ s later
    ]
  where
    not-eq-true : (b : Bool) → not b ≡ true → b ≡ false
    not-eq-true b e = ground arith

-- the sets from which the arithmetic of a run started
abbrev pub sets : Config → Dict Text Meta → Output → Given
sets config meta_files out =
    given config (first_pass config (metas meta_files) start) out.globals out.resolved out.scan

abbrev pub collected : Config → Dict Text Meta → Pass
collected config meta_files = first_pass config (metas meta_files) start

-- The parts of a run that ends without an error.
pub record Run (config : Config) (meta_files : Dict Text Meta) (depth : ℕ) (out : Output)
    : Type 0 where
  pub arithmetic :
      func_class_arithmetics out.resolved.metas_by_name out.resolved.edges
        (sets config meta_files out)
      ≡ ok out.classes
  checks :
      sanity_checks depth
        (caller_class (sets config meta_files out) out.classes)
        out.resolved.metas_by_name
        (inter (union config.sidecar out.classes.border) out.scan.mangled)
      ≡ ok tt
  cb : List Text
  itf : List Text
  sdcr : List Text
  cb_lines :
      get_func_decl_strs out.globals.linked
        (collected config meta_files).decls
        out.classes.callback
        (codes "EXPORT_CALLBACK")
      ≡ ok cb
  itf_lines :
      get_func_decl_strs out.globals.linked
        (collected config meta_files).decls
        (collected config meta_files).interface
        (codes "EXPORT_PLUGSCHED")
      ≡ ok itf
  sdcr_lines :
      get_func_decl_strs out.globals.linked
        (collected config meta_files).decls
        config.sidecar
        (codes "EXPORT_PLUGSCHED")
      ≡ ok sdcr
  pub structs : out.structs ≡ struct_properties out.classes.public_user (metas meta_files)
  header : out.export_jump ≡ sorted (union sdcr (union itf cb))

pub analyze-Run :
    (depth : ℕ) (config : Config) (meta_files : Dict Text Meta) (lines : List Text) (out : Output)
    → analyze depth config meta_files lines ≡ ok out
    → Run config meta_files depth out
unfolding analyze
analyze-Run depth config meta_files lines out h =
    let pass = first_pass config (metas meta_files) start in
    let (globals, e₁, h₁) = >>=-eq-ok (link_all pass.global_fn_dict) _ h in
    let resolved = second_pass config globals.linked meta_files no_edges in
    let (scan, e₂, h₂) = >>=-eq-ok (find_in_vmlinux (files config pass) lines Vmlinux.start) _ h₁ in
    let fns = given config pass globals resolved scan in
    let (classes, e₃, h₃) =
      >>=-eq-ok (func_class_arithmetics resolved.metas_by_name resolved.edges fns) _ h₂ in
    let checked = inter (union config.sidecar classes.border) scan.mangled in
    let (done, e₄, h₄) =
      >>=-eq-ok (sanity_checks depth (caller_class fns classes) resolved.metas_by_name checked) _
        h₃ in
    let (cb, e₅, h₅) =
      >>=-eq-ok
        (get_func_decl_strs globals.linked pass.decls classes.callback (codes "EXPORT_CALLBACK")) _
        h₄ in
    let (itf, e₆, h₆) =
      >>=-eq-ok
        (get_func_decl_strs globals.linked pass.decls pass.interface (codes "EXPORT_PLUGSCHED")) _
        h₅ in
    let (sdcr, e₇, h₇) =
      >>=-eq-ok
        (get_func_decl_strs globals.linked pass.decls config.sidecar (codes "EXPORT_PLUGSCHED")) _
        h₆ in
    rw (← ok-injective _ _ h₇) (record {
      arithmetic = e₃;
      checks = e₄;
      cb = cb;
      itf = itf;
      sdcr = sdcr;
      cb_lines = e₅;
      itf_lines = e₆;
      sdcr_lines = e₇;
      structs = refl;
      header = refl;
    })

-- After a run without an error no redirection is bypassed: a sidecar, interface or callback
-- function of which vmlinux has a mangled copy is reached by no outsider of its file through
-- optimised callers; and whatever calls an insider is an insider, an interface, callback,
-- initialisation or sidecar function, or an overridden weak one.
pub analyze_is_safe :
    (depth : ℕ) (config : Config) (meta_files : Dict Text Meta) (lines : List Text) (out : Output)
    → analyze depth config meta_files lines ≡ ok out
    → ((s : Sym)
        → (member s config.sidecar || member s out.classes.border) ≡ true
        → member s out.scan.mangled ≡ true
        → (edges : List MetaEdge) × (lookup (boundary_file s) out.resolved.metas_by_name
            ≡ some edges)
          × ¬ Unsafe (caller_class (sets config meta_files out) out.classes) edges s)
      × ((edge : Edge)
          → Memᴰ edge out.resolved.edges
          → member edge.to out.classes.insider ≡ true
          → (member edge.from out.classes.insider
              || member edge.from out.classes.border
              || member edge.from (sets config meta_files out).init
              || member edge.from (sets config meta_files out).sidecar
              || member edge.from (sets config meta_files out).fake_global)
            ≡ true)
analyze_is_safe depth config meta_files lines out h =
    let run = analyze-Run depth config meta_files lines out h in
    let checked = union config.sidecar out.classes.border in
    (
      λ s m k.
          sanity_checks_safe depth (caller_class (sets config meta_files out) out.classes)
            out.resolved.metas_by_name (inter checked out.scan.mangled) run.checks s
            (mem_of_member s (inter checked out.scan.mangled) (
              ground (
                arith,
                member-inter s checked out.scan.mangled,
                member-union s config.sidecar out.classes.border,
              ))),
      insider_callers out.resolved.metas_by_name out.resolved.edges (sets config meta_files out)
          out.classes run.arithmetic,
    )

-- a line of one of the three lists is a line of the header
abbrev Holds : List Text → List Text → List Text → Text → List Text → Type 0
Holds sdcr itf cb t header =
    (member t cb ≡ true → member t header ≡ true)
    × (member t itf ≡ true → member t header ≡ true)
    × (member t sdcr ≡ true → member t header ≡ true)

header-Holds :
    (sdcr itf cb : List Text) (t : Text) → Holds sdcr itf cb t (sorted (union sdcr (union itf cb)))
header-Holds sdcr itf cb t = ground (
  arith,
  member-sorted t (union sdcr (union itf cb)),
  member-union t sdcr (union itf cb),
  member-union t itf cb,
)

lift_lines :
    (linked : Dict Text Text) (decls : Dict Sym (Option DeclStr)) (signatures : List Sym)
    (head : Text) (lines header : List Text)
    → get_func_decl_strs linked decls signatures head ≡ ok lines
    → ((t : Text) → member t lines ≡ true → member t header ≡ true)
    → (s : Sym) → member s signatures ≡ true
    → HasLine linked decls head header s
lift_lines linked decls signatures head lines header h keeps s m =
    let (lines_of, _) = get_func_decl_strs_lines linked decls signatures head lines h in
    let (d, found, line) = lines_of s (mem_of_member s signatures m) in (d, found, keeps _ line)

-- After a run without an error export_jump.h has a line for every callback, interface and sidecar function, with the declaration
-- that the metadata give for it.
pub analyze_exports :
    (depth : ℕ) (config : Config) (meta_files : Dict Text Meta) (lines : List Text) (out : Output)
    → analyze depth config meta_files lines ≡ ok out
    → ((s : Sym)
        → member s out.classes.callback ≡ true
        → HasLine out.globals.linked
            (collected config meta_files).decls
            (codes "EXPORT_CALLBACK")
            out.export_jump
            s)
      × ((s : Sym)
          → member s (collected config meta_files).interface ≡ true
          → HasLine out.globals.linked
              (collected config meta_files).decls
              (codes "EXPORT_PLUGSCHED")
              out.export_jump
              s)
      × ((s : Sym)
          → member s config.sidecar ≡ true
          → HasLine out.globals.linked
              (collected config meta_files).decls
              (codes "EXPORT_PLUGSCHED")
              out.export_jump
              s)
analyze_exports depth config meta_files lines out h =
    let run = analyze-Run depth config meta_files lines out h in
    let decls = (collected config meta_files).decls in
    let linked = out.globals.linked in
    let within = λ (t : Text).
      subst (Holds run.sdcr run.itf run.cb t) (sym run.header)
        (header-Holds run.sdcr run.itf run.cb t) in
    (
      lift_lines linked decls out.classes.callback (codes "EXPORT_CALLBACK") run.cb out.export_jump
          run.cb_lines (λ t. (within t).0),
      lift_lines linked decls (collected config meta_files).interface (codes "EXPORT_PLUGSCHED")
          run.itf out.export_jump run.itf_lines (λ t. (within t).1),
      lift_lines linked decls config.sidecar (codes "EXPORT_PLUGSCHED") run.sdcr out.export_jump
          run.sdcr_lines (λ t. (within t).2),
    )
