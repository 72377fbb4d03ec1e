-- ===== src/Extract/Fixes.antt =====
-- `fix_include` and `fix_up` of boundary/extract.py, the last pass over the lines, and
-- `extract_file`, which runs the three passes.
pub mod Include
pub mod Reached
pub mod Cases
pub mod Exact
use plugsched.Common.{
  ℕ, zero, suc, Bool, true, false, not, ◌&&◌, ◌||◌, Option, none, some, List, [], ◌∷◌, ◌++◌,
  if◌then◌else◌, ◌==◌, nat_eq, length, map,
}
use plugsched.Common.Sets.{member}
use plugsched.Common.Text.{Text, codes, text_eq, starts_with, drop_text, occurs, replace, basename}
use plugsched.Common.Errors.{Result, ok, err, ◌>>=◌}
use plugsched.Analyze.Meta.{Sym, FnMeta}
use plugsched.Extract.Lines.{get_elem?, or_index_error, get_line, set_line, merge_down_fn}
use plugsched.Extract.Locate.{
  Boundary, VarConfig, VarMeta, nothing_located, function_location, var_location,
}
use plugsched.Extract.Functions.{function_extract}
use plugsched.Extract.Vars.{var_extract}
use plugsched.Extract.Paths.{split_on, relpath, join_path, dirname}

-- what the methods read of `Extraction`, and the working directory of the program
pub record Extraction : Type 0 where
  pub cwd : List Text
  pub src_file : Text
  pub mod_dir : Text
  pub mod_files : List Text
  pub boundary : Boundary
  pub outsider_opt : List Sym
  pub interface_prefix : List Text
  pub var_config : VarConfig

-- `[f[1] for f in self.config['sidecar']]`
unfoldable pub extract_sdcr_srcs : Extraction → List Text
extract_sdcr_srcs config = map (λ (f : Sym). f.1) config.boundary.sidecar

-- `self.dst_file`
unfoldable pub dst_file : Extraction → Text
dst_file config =
    if member config.src_file (extract_sdcr_srcs config)
    then config.mod_dir ++ config.src_file
    else config.mod_dir ++ basename config.src_file

-- `fix_include`, where `dst_d` is the directory of the new file
unfoldable pub fix_include : Extraction → Text → Result Text
fix_include config line = do
  old_header ← or_index_error (get_elem? (split_on b'"' line) 1)
  rel_header ← relpath config.cwd (join_path (dirname config.src_file) old_header) (codes ".")
  if member rel_header config.mod_files
      then ok line
      else relpath config.cwd rel_header (dirname (dst_file config)) >>= λ new_header.
          ok (replace old_header new_header line)

-- the regular expression `initcall|early_param|__init |__initdata |__setup`
unfoldable pub is_deleted : Text → Bool
is_deleted line =
    occurs (codes "initcall") line
    || occurs (codes "early_param") line
    || occurs (codes "__init ") line
    || occurs (codes "__initdata ") line
    || occurs (codes "__setup") line

-- `struct sched_class ((stop|dl|rt|fair|idle)_sched_class)` at the start of a text: the name and
-- what follows it
abbrev pub class_name : Text → List Text → Option (Text × Text)
class_name t [] = none
class_name t (kind ∷ kinds) =
    let name = kind ++ codes "_sched_class" in
    let found = some (name, drop_text name t) in
    let rest = class_name t kinds in if starts_with name t then found else rest

abbrev pub kinds : List Text
kinds = codes "stop" ∷ codes "dl" ∷ codes "rt" ∷ codes "fair" ∷ codes "idle" ∷ []

abbrev pub class_at : Text → Option (Text × Text)
class_at t =
    if starts_with (codes "struct sched_class ") t
    then class_name (drop_text (codes "struct sched_class ") t) kinds
    else none

-- `.*` goes as far as it can, but past no newline
unfoldable pub last_class : Text → Option (Text × Text)
last_class [] = none
last_class (c ∷ t) =
    let later = last_class t in
    let here = class_at (c ∷ t) in
    if c == b'\n' then here else elim later [ none ↦ here | some found ↦ some found ]

-- the loop over `replace_list`
abbrev pub shadow : Text → Option (Text × Text) → Text
shadow line none = line
shadow line (some (name, rest)) = codes "struct sched_class shadow_" ++ (name ++ rest)

unfoldable pub substitute : Text → Text
substitute line =
    if occurs (codes "struct atomic_t") line
    then replace (codes "struct atomic_t") (codes "atomic_t") line
    else if starts_with (codes "extern ") line
    then line
    else shadow line (last_class line)

-- the lines with a definition that starts at `i` taken out, where `i` is emptied next
unfoldable pub swallow : List Text → ℕ → Text → Result (List Text)
swallow lines i line =
    if occurs (codes "__init ") line && not (occurs (codes ";") line)
    then merge_down_fn lines i >>= (λ r. ok r.1)
    else ok lines

-- the body of the loop
unfoldable pub fix_line : Extraction → ℕ → List Text → Result (List Text)
fix_line config i lines = do
  line ← get_line lines i
  if occurs (codes "#include \"") line
      then fix_include config line >>= (λ fixed. ok (set_line i fixed lines))
      else if is_deleted line
      then swallow lines i line >>= (λ rest. ok (set_line i [] rest))
      else ok (set_line i (substitute line) lines)

-- The loop reads each line when it comes to it.
unfoldable pub fix_lines : Extraction → ℕ → ℕ → List Text → Result (List Text)
fix_lines config zero i lines = ok lines
fix_lines config (suc rounds) i lines = do
  lines' ← fix_line config i lines
  fix_lines config rounds (suc i) lines'

unfoldable pub fix_up : Extraction → List Text → Result (List Text)
fix_up config lines = fix_lines config (length lines) 0 lines

-- from the lines of the source file to those of the new one
unfoldable pub extract_file :
    Extraction → List FnMeta → List VarMeta → List Text → Result (List Text)
extract_file config meta_fn meta_var lines = do
  let located = function_location config.boundary config.src_file meta_fn nothing_located
  let vars = var_location config.var_config config.src_file (extract_sdcr_srcs config) meta_var
  a ← function_extract config.outsider_opt config.interface_prefix located lines
  b ← var_extract vars a
  fix_up config b
