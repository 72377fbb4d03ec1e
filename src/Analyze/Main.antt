-- ===== src/Analyze/Main.antt =====
-- The main program of boundary/analyze.py: the passes, the arithmetic, the sanity checks and the
-- headers in their order.
pub mod Safety
pub mod Structs
use plugsched.Common.{ℕ, Bool, true, false, not, List, [], ◌∷◌, ◌++◌, Option, none, some}
use plugsched.Common.Sets.{union, inter}
use plugsched.Common.Text.{Text, codes, text_eq, basename}
use plugsched.Common.Dict.{Dict, insert, get_item}
use plugsched.Common.Errors.{Result, ok, assert, ◌>>=◌, ◌>>◌}
use plugsched.Common.Order.{sorted, text_order}
use plugsched.Analyze.Meta.{Sym, sym_eq, MetaEdge, Meta, Config}
use plugsched.Analyze.Linkage.{
  Pass, Globals, first_pass, link_all, start, mod_hdrs, mod_srcs, sdcr_srcs,
}
use plugsched.Analyze.Resolve.{Resolved, second_pass}
use plugsched.Analyze.Vmlinux
use plugsched.Analyze.Vmlinux.{Files, Scan, find_in_vmlinux}
use plugsched.Analyze.Classes.{Given, FuncClass, func_class_arithmetics, caller_class}
use plugsched.Analyze.Redirect.{CallerClass, check_redirect_mangled}
use plugsched.Analyze.Sidecar.{boundary_file}
use plugsched.Analyze.Structs.{StructProperties, struct_properties}
use plugsched.Analyze.Emit.{get_func_decl_strs, tainted_functions, undefined_functions}

abbrev pub metas : Dict Text Meta → List Meta
metas [] = []
metas ((_, meta) ∷ files) = meta ∷ metas files

-- `config.all_files`
unfoldable pub all_files : Config → List Text
all_files config = mod_hdrs config ++ mod_srcs config ++ sdcr_srcs config

-- `{os.path.basename(f): f for f in config.all_files}`
unfoldable pub fullname : List Text → Dict Text Text → Dict Text Text
fullname [] d = d
fullname (f ∷ files) d = fullname files (insert (basename f) f d)

unfoldable pub files : Config → Pass → Files
files config pass = record {
  fullname = fullname (all_files config) [];
  mod_files = config.mod_files;
  mod_hdrs = mod_hdrs config;
  all_files = all_files config;
  fn = pass.fn;
}

unfoldable pub given : Config → Pass → Globals → Resolved → Scan → Given
given config pass globals resolved scan = record {
  fn = pass.fn;
  init = pass.init;
  mod_fns = pass.mod_fns;
  callback = resolved.callback;
  sdcr_fns = pass.sdcr_fns;
  interface = pass.interface;
  fake_global = globals.fake_global;
  in_vmlinux = scan.in_vmlinux;
  mangled = scan.mangled;
  export = scan.export;
  sidecar = config.sidecar;
}

-- the loop of the sanity checks, with `depth` levels for each call of `check_redirect_mangled`
unfoldable pub sanity_checks :
    ℕ → CallerClass → Dict Text (List MetaEdge) → List Sym → Result (Unit {0})
sanity_checks depth func_class metas_by_name [] = ok tt
sanity_checks depth func_class metas_by_name (sym ∷ syms) = do
  edges ← get_item (boundary_file sym) metas_by_name
  found ← check_redirect_mangled func_class edges depth sym
  assert (not found)
  sanity_checks depth func_class metas_by_name syms

-- What the program writes, but for the YAML documents.
pub record Output : Type 0 where
  pub globals : Globals
  pub resolved : Resolved
  pub scan : Scan
  pub classes : FuncClass
  pub structs : Dict Text StructProperties
  pub tainted_functions : List Text
  pub undefined_functions : Text
  pub export_jump : List Text

abbrev pub no_edges : Resolved
no_edges = record { callback = []; metas_by_name = []; edges = [] }

-- `lines` is what readelf prints after three lines, `meta_files` the metadata by file name.
unfoldable pub analyze : ℕ → Config → Dict Text Meta → List Text → Result Output
analyze depth config meta_files lines = do
  let pass = first_pass config (metas meta_files) start
  globals ← link_all pass.global_fn_dict
  let resolved = second_pass config globals.linked meta_files no_edges
  scan ← find_in_vmlinux (files config pass) lines Vmlinux.start
  let fns = given config pass globals resolved scan
  classes ← func_class_arithmetics resolved.metas_by_name resolved.edges fns
  sanity_checks depth (caller_class fns classes) resolved.metas_by_name
      (inter (union config.sidecar classes.border) scan.mangled)
  cb ← get_func_decl_strs globals.linked pass.decls classes.callback (codes "EXPORT_CALLBACK")
  itf ← get_func_decl_strs globals.linked pass.decls pass.interface (codes "EXPORT_PLUGSCHED")
  sdcr ← get_func_decl_strs globals.linked pass.decls config.sidecar (codes "EXPORT_PLUGSCHED")
  ok (record {
    globals = globals;
    resolved = resolved;
    scan = scan;
    classes = classes;
    structs = struct_properties classes.public_user (metas meta_files);
    tainted_functions = tainted_functions scan.local_sympos classes.tainted;
    undefined_functions = undefined_functions scan.local_sympos classes.und;
    export_jump = sorted (union sdcr (union itf cb));
  })
