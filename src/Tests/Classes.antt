-- ===== src/Tests/Classes.antt =====
-- The theorems about the classes, the boundary and the whole run, on the sample kernel.
use plugsched.Common.{true, false, ◌&&◌, ◌||◌, List, [], ◌∷◌, ◌≡◌, refl, ◌↔◌, some, arith}
use plugsched.Common.Sets.{member, Within}
use plugsched.Common.Text.{Text, codes, text_eq}
use plugsched.Common.Dict.{Dict, lookup}
use plugsched.Common.Errors.{ok}
use plugsched.Analyze.Meta.{Sym, sym_eq, Edge, MetaEdge, StructMeta}
use plugsched.Analyze.Inflect.Escapes.{Escapes}
use plugsched.Analyze.Sidecar.{boundary_file}
use plugsched.Analyze.Redirect.Unsafe.{Unsafe}
use plugsched.Analyze.Classes.{
  Given, FuncClass, border, initial_insider, inflect_cut, func_class_arithmetics, caller_class,
}
use plugsched.Analyze.Classes.Shape.{func_class_arithmetics_ends}
use plugsched.Analyze.Classes.Partition.{insider_exact, mod_fns_partition}
use plugsched.Analyze.Classes.Boundary.{insider_callers, und_is_linkable, vmlinux_fn_is_handled}
use plugsched.Analyze.Emit.Laws.{HasLine}
use plugsched.Analyze.Main.Safety.{analyze_is_safe, analyze_exports, sets, collected}
use plugsched.Analyze.Main.{metas}
use plugsched.Analyze.Main.Structs.{InSome, IsOutside, struct_is_public}
use plugsched.Analyze.Structs.{StructProperties}
use plugsched.Tests.Samples.{
  schedule, pick, leaf, helper, tick, kick, user, user_meta, config, meta_files, lines, output,
  analyze-output, program, no_classes, is_ok, value_or, ok-value_or,
}
use mathlib.Core.List.{Memᴰ}

abbrev pub fns : Given
fns = record {
  fn = schedule ∷ pick ∷ leaf ∷ helper ∷ tick ∷ kick ∷ [];
  init = [];
  mod_fns = schedule ∷ pick ∷ leaf ∷ helper ∷ tick ∷ [];
  callback = tick ∷ [];
  sdcr_fns = kick ∷ [];
  interface = schedule ∷ [];
  fake_global = [];
  in_vmlinux = schedule ∷ pick ∷ helper ∷ tick ∷ kick ∷ [];
  mangled = [];
  export = helper ∷ [];
  sidecar = kick ∷ [];
}

abbrev calls : List Edge
calls =
    record { from = schedule; to = pick }
    ∷ record { from = pick; to = leaf }
    ∷ record { from = helper; to = leaf }
    ∷ []

abbrev metas_by_name : Dict Text (List MetaEdge)
metas_by_name = (codes "lib/kick.c.boundary", []) ∷ []

abbrev classes : FuncClass
classes = value_or no_classes (func_class_arithmetics metas_by_name calls fns)

ends : is_ok (func_class_arithmetics metas_by_name calls fns) ≡ true
unfolding program
ends = refl

classes-ok : func_class_arithmetics metas_by_name calls fns ≡ ok classes
classes-ok = ok-value_or no_classes (func_class_arithmetics metas_by_name calls fns) ends

-- `leaf` leaves the insiders, since the exported `helper` calls it.
insiders : classes.insider ≡ pick ∷ []
unfolding program
insiders = refl

insider_exact_example : (member pick classes.insider ≡ true) ↔ (
    (member pick fns.mod_fns ≡ true)
    × (member pick (border fns) ≡ false)
    × (member pick fns.export ≡ false)
    × (member pick fns.init ≡ false)
    × (member pick fns.fake_global ≡ false)
    × ¬ Escapes (inflect_cut fns) (initial_insider fns) calls pick)
insider_exact_example = insider_exact metas_by_name calls fns classes classes-ok pick

in_module : member helper fns.mod_fns ≡ true
unfolding program
in_module = refl

mod_fns_partition_example :
    ((member helper classes.insider
        || member helper classes.border
        || member helper classes.sched_outsider)
      ≡ true)
    × ((member helper classes.insider && member helper classes.border) ≡ false)
    × ((member helper classes.insider && member helper classes.sched_outsider) ≡ true
        → member helper classes.cb_opt ≡ true)
    × ((member helper classes.border && member helper classes.sched_outsider) ≡ true
        → member helper fns.fake_global ≡ true)
mod_fns_partition_example =
    mod_fns_partition metas_by_name calls fns classes classes-ok helper in_module

pick_inside : member pick classes.insider ≡ true
unfolding program
pick_inside = refl

insider_callers_example :
    (member schedule classes.insider
      || member schedule classes.border
      || member schedule fns.init
      || member schedule fns.sidecar
      || member schedule fns.fake_global)
    ≡ true
insider_callers_example =
    insider_callers metas_by_name calls fns classes classes-ok
      (record { from = schedule; to = pick }) (Memᴰ.head refl) pick_inside

helper_undefined : member helper classes.und ≡ true
unfolding program
helper_undefined = refl

und_is_linkable_example :
    (member helper fns.in_vmlinux || member helper fns.interface || member helper fns.init) ≡ true
und_is_linkable_example =
    und_is_linkable metas_by_name calls fns classes classes-ok helper helper_undefined

helper_in_vmlinux : member helper fns.in_vmlinux ≡ true
unfolding program
helper_in_vmlinux = refl

vmlinux_fn_is_handled_example :
    ((member helper classes.tainted || member helper classes.und) ≡ true)
    × (member helper classes.tainted ≡ true
        → (member helper classes.insider
            || member helper classes.border
            || member helper fns.sidecar)
          ≡ true)
    × ((member helper classes.insider || member helper classes.border || member helper fns.sidecar)
          ≡ false
        → (member helper classes.tainted ≡ false) × (member helper classes.und ≡ true))
vmlinux_fn_is_handled_example =
    vmlinux_fn_is_handled metas_by_name calls fns classes classes-ok helper in_module
      helper_in_vmlinux

-- the sidecar of the sample
kick_only : (s : Sym) → member s fns.sidecar ≡ true → s ≡ kick
unfolding member
kick_only s h = ground (arith, sym_eq.beq_iff s kick)

kick_present : member kick fns.in_vmlinux ≡ true
unfolding program
kick_present = refl

kick_apart : member kick (border fns) ≡ false
unfolding program
kick_apart = refl

kick_files : lookup (boundary_file kick) metas_by_name ≡ some []
unfolding program
kick_files = refl

sidecar-Within : Within fns.sidecar fns.in_vmlinux
sidecar-Within s m = rw (kick_only s m) kick_present

sidecar_files :
    (s : Sym)
    → member s fns.sidecar ≡ true
    → (found : List MetaEdge) × (lookup (boundary_file s) metas_by_name ≡ some found)
sidecar_files s m = rw (kick_only s m) ([], kick_files)

func_class_arithmetics_ends_example :
    (c : FuncClass) × (func_class_arithmetics metas_by_name calls fns ≡ ok c)
func_class_arithmetics_ends_example =
    func_class_arithmetics_ends metas_by_name calls fns sidecar-Within
      (λ s m. rw (kick_only s m) kick_apart) sidecar_files

-- the same kernel with the sidecar function among the interface functions
abbrev clash : Given
clash = record fns { interface = kick ∷ [] }

kick_in_border : member kick (border clash) ≡ true
unfolding program
kick_in_border = refl

kick_is_sidecar : member kick clash.sidecar ≡ true
unfolding program
kick_is_sidecar = refl

analyze_is_safe_example :
    ((s : Sym)
      → (member s config.sidecar || member s output.classes.border) ≡ true
      → member s output.scan.mangled ≡ true
      → (edges : List MetaEdge) × (lookup (boundary_file s) output.resolved.metas_by_name
          ≡ some edges)
        × ¬ Unsafe (caller_class (sets config meta_files output) output.classes) edges s)
    × ((edge : Edge)
        → Memᴰ edge output.resolved.edges
        → member edge.to output.classes.insider ≡ true
        → (member edge.from output.classes.insider
            || member edge.from output.classes.border
            || member edge.from (sets config meta_files output).init
            || member edge.from (sets config meta_files output).sidecar
            || member edge.from (sets config meta_files output).fake_global)
          ≡ true)
analyze_is_safe_example = analyze_is_safe 3 config meta_files lines output analyze-output

analyze_exports_example :
    ((s : Sym)
      → member s output.classes.callback ≡ true
      → HasLine output.globals.linked
          (collected config meta_files).decls
          (codes "EXPORT_CALLBACK")
          output.export_jump
          s)
    × ((s : Sym)
        → member s (collected config meta_files).interface ≡ true
        → HasLine output.globals.linked
            (collected config meta_files).decls
            (codes "EXPORT_PLUGSCHED")
            output.export_jump
            s)
    × ((s : Sym)
        → member s config.sidecar ≡ true
        → HasLine output.globals.linked
            (collected config meta_files).decls
            (codes "EXPORT_PLUGSCHED")
            output.export_jump
            s)
analyze_exports_example = analyze_exports 3 config meta_files lines output analyze-output

abbrev rq : StructMeta
rq = record {
  all_fields = codes "curr" ∷ codes "lock" ∷ [];
  public_fields = (codes "lock", user ∷ []) ∷ [];
}

rq_known : lookup (codes "rq") user_meta.struct ≡ some rq
unfolding program
rq_known = refl

struct_is_public_example :
    (props : StructProperties) × (lookup (codes "rq") output.structs ≡ some props)
    × ((field : Text)
        → (member field props.public_fields ≡ true)
          ↔ ∥ InSome (codes "rq") (metas meta_files) (λ f users.
            (field ≡ f)
            × ((s : Sym) × (member s users ≡ true) × IsOutside config meta_files output s)) ∥₁)
    × ((s : Sym)
        → (member s props.public_users ≡ true)
          ↔ ∥ InSome
              (codes "rq")
              (metas meta_files)
              (λ f users. (member s users ≡ true) × IsOutside config meta_files output s) ∥₁)
struct_is_public_example =
    struct_is_public 3 config meta_files lines output (codes "rq") user_meta rq analyze-output
      (Memᴰ.tail (Memᴰ.tail (Memᴰ.head refl))) rq_known
