-- ===== src/Analyze/Linkage.antt =====
-- The first pass of boundary/analyze.py over the metadata: it sorts the functions into the sets of
-- `func_class` and finds, for each public name, the definition that the linker takes.
pub mod Choice
pub mod Collect
pub mod Lookup
use plugsched.Common.{
  ℕ, Bool, true, false, not, ◌&&◌, ◌||◌, Option, none, some, List, [], ◌∷◌, ◌++◌, length,
  if◌then◌else◌, ◌==◌, nat_eq, map, filter,
}
use plugsched.Common.Sets.{member, add, union}
use plugsched.Common.Text.{Text, codes, text_eq, starts_with, ends_with}
use plugsched.Common.Dict.{Dict, lookup, insert}
use plugsched.Common.Errors.{Result, ok, err, index_error, ◌>>=◌}
use plugsched.Common.Order.{sorted, ranked_order, ranked_eq}
use plugsched.Analyze.Meta.{Sym, sym_eq, FnMeta, DeclStr, Meta, Config}

abbrev pub weak_norm : ℕ
weak_norm = 3

abbrev pub weak_arch : ℕ
weak_arch = 2

abbrev pub strong : ℕ
strong = 1

-- a definition of a public name: its priority and its file
abbrev pub Definition : Type 0
Definition = ℕ × Text

-- The variables that the first pass fills; `hdr_sym` holds the functions of header_symbol.json.
pub record Pass : Type 0 where
  pub fn : List Sym
  pub init : List Sym
  pub mod_fns : List Sym
  pub sdcr_fns : List Sym
  pub interface : List Sym
  pub weak : List Sym
  pub decls : Dict Sym (Option DeclStr)
  pub hdr_sym : List FnMeta
  pub global_fn_dict : Dict Text (List Definition)

abbrev pub start : Pass
start = record {
  fn = [];
  init = [];
  mod_fns = [];
  sdcr_fns = [];
  interface = [];
  weak = [];
  decls = [];
  hdr_sym = [];
  global_fn_dict = [];
}

-- `config.mod_hdrs` and `config.sdcr_srcs`
unfoldable pub mod_hdrs : Config → List Text
mod_hdrs config = filter (ends_with (codes ".h")) config.mod_files

unfoldable pub mod_srcs : Config → List Text
mod_srcs config = filter (ends_with (codes ".c")) config.mod_files

unfoldable pub sdcr_srcs : Config → List Text
sdcr_srcs config = map (λ (f : Sym). f.1) config.sidecar

-- the definition that a public function adds to its name
unfoldable pub definition : FnMeta → Option Definition
definition fn =
    if fn.weak && starts_with (codes "arch/") fn.file
    then some (weak_arch, fn.file)
    else if fn.weak
    then some (weak_norm, fn.file)
    else if ends_with (codes ".c") fn.file
    then some (strong, fn.file)
    else none

-- `d.setdefault(k, set())`
abbrev pub setdefault : Text → Dict Text (List Definition) → Dict Text (List Definition)
setdefault k d = elim (lookup k d) [ none ↦ insert k [] d | some _ ↦ d ]

-- `d[k].add(v)`, after `setdefault`
abbrev pub add_definition :
    Text → Option Definition → Dict Text (List Definition) → Dict Text (List Definition)
add_definition k none d = d
add_definition k (some v) d = elim (lookup k d) [ none ↦ d | some vs ↦ insert k (add v vs) d ]

-- the block `if fn.public`
unfoldable pub record_global : FnMeta → Dict Text (List Definition) → Dict Text (List Definition)
record_global fn d =
    if fn.public
    then add_definition fn.name (definition fn)
        (if fn.weak || ends_with (codes ".c") fn.file then setdefault fn.name d else d)
    else d

-- the body of `for fn in meta['fn']`
unfoldable pub scan_fn : Config → FnMeta → Pass → Pass
scan_fn config fn pass =
    let in_mod = member fn.file config.mod_files in
    let in_sdcr = member fn.file (sdcr_srcs config) in
    let sig = fn.signature in
    let decls = if in_mod then insert sig fn.decl_str pass.decls else pass.decls in
    record {
      fn = add sig pass.fn;
      init = if fn.init then add sig pass.init else pass.init;
      mod_fns = if in_mod then add sig pass.mod_fns else pass.mod_fns;
      sdcr_fns = if in_sdcr then add sig pass.sdcr_fns else pass.sdcr_fns;
      interface = pass.interface;
      weak = if fn.weak then add sig pass.weak else pass.weak;
      decls = if in_sdcr then insert sig fn.decl_str decls else decls;
      hdr_sym = if member fn.file (mod_hdrs config) then pass.hdr_sym ++ fn ∷ [] else pass.hdr_sym;
      global_fn_dict = record_global fn pass.global_fn_dict;
    }

unfoldable pub scan_fns : Config → List FnMeta → Pass → Pass
scan_fns config [] pass = pass
scan_fns config (fn ∷ fns) pass = scan_fns config fns (scan_fn config fn pass)

unfoldable pub scan_interface : List Sym → List Sym → List Sym
scan_interface [] interface = interface
scan_interface (fn ∷ fns) interface = scan_interface fns (add fn interface)

-- the body of the first `for meta in metas`
unfoldable pub scan_meta : Config → Meta → Pass → Pass
scan_meta config meta pass =
    let scanned = scan_fns config meta.fn pass in
    record scanned { interface = scan_interface meta.interface scanned.interface }

unfoldable pub first_pass : Config → List Meta → Pass → Pass
first_pass config [] pass = pass
first_pass config (meta ∷ metas) pass = first_pass config metas (scan_meta config meta pass)

-- The definitions of one name: the file that is linked, the weak definitions that it overrides, and
-- whether the warning is printed. The lists are not empty; `none` stands for `fn_list[0]` of one
-- that is.
pub record Link : Type 0 where
  pub linked : Text
  pub overridden : List Sym
  pub warned : Bool

abbrev pub is_weak : Definition → Bool
is_weak (prio, file) = prio == weak_arch || prio == weak_norm

abbrev pub tied : ℕ → List Definition → Bool
tied prio [] = false
tied prio ((other, _) ∷ _) = prio == other

abbrev pub link_sorted : Text → List Definition → Option Link
link_sorted name [] = none
link_sorted name ((prio, file) ∷ rest) = some (record {
  linked = file;
  overridden = map (λ (d : Definition). (name, d.1)) (filter is_weak rest);
  warned = not (name == codes "main") && tied prio rest;
})

unfoldable pub link : Text → List Definition → Option Link
link name fn_list = link_sorted name (sorted fn_list)

-- What the loop over `global_fn_dict.items()` leaves: the dictionary of the linked files, the
-- overridden weak definitions, and the names that it warns about.
pub record Globals : Type 0 where
  pub linked : Dict Text Text
  pub fake_global : List Sym
  pub warned : List Text

abbrev pub add_link : Text → Link → Globals → Globals
add_link name l globals = record {
  linked = (name, l.linked) ∷ globals.linked;
  fake_global = union l.overridden globals.fake_global;
  warned = if l.warned then name ∷ globals.warned else globals.warned;
}

unfoldable pub link_all : Dict Text (List Definition) → Result Globals
link_all [] = ok (record { linked = []; fake_global = []; warned = [] })
link_all ((name, fn_list) ∷ d) = do
  globals ← link_all d
  elim (link name fn_list) [ none ↦ err index_error | some l ↦ ok (add_link name l globals) ]
