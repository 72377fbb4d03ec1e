-- ===== src/Analyze/Classes/Boundary.antt =====
-- What the boundary guarantees: who calls the insiders, which symbols the module may leave
-- undefined, and what happens to the functions of the module that vmlinux holds.
use plugsched.Common.{true, false, ◌||◌, List, ◌≡◌, arith, ap}
use plugsched.Common.Sets.{member}
use plugsched.Common.Text.{Text, text_eq}
use plugsched.Common.Dict.{Dict}
use plugsched.Common.Errors.{ok}
use plugsched.Analyze.Meta.{Sym, sym_eq, Edge, MetaEdge}
use plugsched.Analyze.Inflect.Exact.{inflect-IsClosed}
use plugsched.Analyze.Sidecar.Exact.{sidecar_inflect-Within}
use plugsched.Analyze.Classes.{
  Given, FuncClass, initial_insider, inflect_cut, classify, func_class_arithmetics,
}
use plugsched.Analyze.Classes.Shape.{
  func_class_arithmetics-eq-ok, member-border, member-inflect_cut, member-insider,
  member-sched_outsider, member-outsider_opt, member-tainted, member-und,
}
use mathlib.Core.List.{Memᴰ}

module _ (metas_by_name : Dict Text (List MetaEdge)) (edges : List Edge) (fns : Given)
    (classes : FuncClass) (h : func_class_arithmetics metas_by_name edges fns ≡ ok classes) where
  -- Where the arithmetic ends without an error, whatever calls an insider is an insider itself, an
  -- interface or callback function, an initialisation function, a sidecar function, or a weak
  -- function that another one overrides.
  pub insider_callers :
      (edge : Edge)
      → Memᴰ edge edges
      → member edge.to classes.insider ≡ true
      → (member edge.from classes.insider
          || member edge.from classes.border
          || member edge.from fns.init
          || member edge.from fns.sidecar
          || member edge.from fns.fake_global)
        ≡ true
  unfolding classify
  insider_callers edge m inside =
      let (left, kept, _, ends, _, shape) =
        func_class_arithmetics-eq-ok metas_by_name edges fns classes h in
      let (_, closed) = inflect-IsClosed (inflect_cut fns) (initial_insider fns) edges kept ends in
      let called = closed edge m in
      let shaped = ap (λ (c : FuncClass). member edge.to c.insider) shape in
      rw shape (
        ground (
          arith,
          called,
          member-insider fns left kept edge.to,
          member-insider fns left kept edge.from,
          member-inflect_cut fns edge.from,
        ))

  -- Where the arithmetic ends without an error, a symbol that the module leaves undefined is in
  -- vmlinux, or it is an interface or an initialisation function.
  pub und_is_linkable :
      (s : Sym)
      → member s classes.und ≡ true
      → (member s fns.in_vmlinux || member s fns.interface || member s fns.init) ≡ true
  und_is_linkable s m =
      let (left, kept, found, _, _, shape) =
        func_class_arithmetics-eq-ok metas_by_name edges fns classes h in
      let shaped = ap (λ (c : FuncClass). member s c.und) shape in
      let within = sidecar_inflect-Within metas_by_name fns.sidecar fns.in_vmlinux left found s in
      ground (
        arith,
        within,
        member-und fns left kept s,
        member-outsider_opt fns left kept s,
        member-border fns s,
      )

  -- Where the arithmetic ends without an error, a function of the module that vmlinux holds is
  -- replaced (tainted), left to vmlinux (und), or both. One that is replaced is an insider, an
  -- interface, callback or sidecar function; one that is none of these is left to vmlinux only.
  pub vmlinux_fn_is_handled :
      (s : Sym)
      → member s fns.mod_fns ≡ true
      → member s fns.in_vmlinux ≡ true
      → ((member s classes.tainted || member s classes.und) ≡ true)
        × (member s classes.tainted ≡ true
            → (member s classes.insider || member s classes.border || member s fns.sidecar) ≡ true)
        × ((member s classes.insider || member s classes.border || member s fns.sidecar) ≡ false
            → (member s classes.tainted ≡ false) × (member s classes.und ≡ true))
  unfolding classify
  vmlinux_fn_is_handled s m v =
      let (left, kept, _, _, _, shape) =
        func_class_arithmetics-eq-ok metas_by_name edges fns classes h in
      rw shape (
        ground (
          arith,
          member-tainted fns left kept s,
          member-und fns left kept s,
          member-outsider_opt fns left kept s,
          member-sched_outsider fns left kept s,
        ))
