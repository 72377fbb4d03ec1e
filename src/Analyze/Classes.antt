-- ===== src/Analyze/Classes.antt =====
-- `func_class_arithmetics` of boundary/analyze.py: the classes of functions.
pub mod Shape
pub mod Partition
pub mod Boundary
use plugsched.Common.{Bool, List, not}
use plugsched.Common.Sets.{union, diff, inter, is_empty}
use plugsched.Common.Text.{Text, text_eq}
use plugsched.Common.Dict.{Dict}
use plugsched.Common.Errors.{Result, ok, assert, ◌>>=◌, ◌>>◌}
use plugsched.Analyze.Meta.{Sym, sym_eq, Edge, MetaEdge}
use plugsched.Analyze.Inflect.{inflect}
use plugsched.Analyze.Sidecar.{sidecar_inflect}
use plugsched.Analyze.Redirect.{CallerClass}

-- the sets of `func_class` that the call reads; `sidecar` is `set(config.sidecar)`
pub record Given : Type 0 where
  pub fn : List Sym
  pub init : List Sym
  pub mod_fns : List Sym
  pub callback : List Sym
  pub sdcr_fns : List Sym
  pub interface : List Sym
  pub fake_global : List Sym
  pub in_vmlinux : List Sym
  pub mangled : List Sym
  pub export : List Sym
  pub sidecar : List Sym

-- the sets that it computes; `callback` is the set that the two `-=` leave
pub record FuncClass : Type 0 where
  pub callback : List Sym
  pub cb_opt : List Sym
  pub border : List Sym
  pub sdcr_left : List Sym
  pub sdcr_out : List Sym
  pub insider : List Sym
  pub sched_outsider : List Sym
  pub outsider_opt : List Sym
  pub public_user : List Sym
  pub tainted : List Sym
  pub und : List Sym

unfoldable pub cb_opt : Given → List Sym
cb_opt fns = diff (diff fns.callback fns.interface) fns.in_vmlinux

unfoldable pub callback : Given → List Sym
callback fns = diff (diff fns.callback fns.interface) (cb_opt fns)

unfoldable pub border : Given → List Sym
border fns = union fns.interface (callback fns)

unfoldable pub initial_insider : Given → List Sym
initial_insider fns = diff (diff fns.mod_fns (border fns)) fns.export

unfoldable pub inflect_cut : Given → List Sym
inflect_cut fns = union (union (border fns) fns.init) fns.sidecar

-- the assignments, from the results of `sidecar_inflect` and `inflect`
unfoldable pub classify : Given → List Sym → List Sym → FuncClass
classify fns sdcr_left inflected =
    let insider = diff (diff inflected fns.init) fns.fake_global in
    let sched_outsider =
      union (union (diff (diff fns.mod_fns insider) (border fns)) (cb_opt fns))
        (inter fns.fake_global fns.mod_fns) in
    let outsider_opt = diff (diff sched_outsider fns.in_vmlinux) fns.init in
    record {
      callback = callback fns;
      cb_opt = cb_opt fns;
      border = border fns;
      sdcr_left = sdcr_left;
      sdcr_out = diff fns.sdcr_fns sdcr_left;
      insider = insider;
      sched_outsider = sched_outsider;
      outsider_opt = outsider_opt;
      public_user = diff (diff fns.fn insider) (border fns);
      tainted = inter (union (union (border fns) insider) fns.sidecar) fns.in_vmlinux;
      und = union (union (diff sched_outsider outsider_opt) (border fns)) fns.sidecar;
    }

unfoldable pub func_class_arithmetics :
    Dict Text (List MetaEdge) → List Edge → Given → Result FuncClass
func_class_arithmetics metas_by_name edges fns = do
  sdcr_left ← sidecar_inflect metas_by_name fns.sidecar fns.in_vmlinux
  assert (is_empty (inter fns.sidecar (border fns)))
  inflected ← inflect (inflect_cut fns) (initial_insider fns) edges
  ok (classify fns sdcr_left inflected)

-- what `check_redirect_mangled` reads afterwards
abbrev pub caller_class : Given → FuncClass → CallerClass
caller_class fns classes = record {
  sched_outsider = classes.sched_outsider;
  mangled = fns.mangled;
  in_vmlinux = fns.in_vmlinux;
}
