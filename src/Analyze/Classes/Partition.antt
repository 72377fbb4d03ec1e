-- ===== src/Analyze/Classes/Partition.antt =====
-- How the classes divide the functions of the module.
use plugsched.Common.{true, false, ◌&&◌, ◌||◌, List, ◌≡◌, ◌↔◌, arith, subst, ap, ◌∙◌}
use plugsched.Common.Sets.{member}
use plugsched.Common.Text.{Text, text_eq}
use plugsched.Common.Dict.{Dict}
use plugsched.Common.Errors.{ok}
use plugsched.Analyze.Meta.{Sym, sym_eq, Edge, MetaEdge}
use plugsched.Analyze.Inflect.Escapes.{Escapes}
use plugsched.Analyze.Inflect.Exact.{inflect_exact, inflect-IsClosed}
use plugsched.Analyze.Classes.{
  Given, FuncClass, border, initial_insider, inflect_cut, classify, func_class_arithmetics,
}
use plugsched.Analyze.Classes.Shape.{
  func_class_arithmetics-eq-ok, member-cb_opt, member-border, member-initial_insider,
  member-insider, member-sched_outsider,
}

module _ (metas_by_name : Dict Text (List MetaEdge)) (edges : List Edge) (fns : Given)
    (classes : FuncClass) (h : func_class_arithmetics metas_by_name edges fns ≡ ok classes) where
  -- Where the arithmetic ends without an error, the insiders are exactly the functions of the module
  -- that are no interface, callback, exported, initialisation or overridden function and that do not
  -- escape: no chain of calls between initial insiders reaches them from a function that is neither
  -- an initial insider nor exempt.
  pub insider_exact :
      (s : Sym)
      → (member s classes.insider ≡ true) ↔ (
          (member s fns.mod_fns ≡ true)
          × (member s (border fns) ≡ false)
          × (member s fns.export ≡ false)
          × (member s fns.init ≡ false)
          × (member s fns.fake_global ≡ false)
          × ¬ Escapes (inflect_cut fns) (initial_insider fns) edges s)
  insider_exact s =
      let (left, kept, _, ends, _, shape) =
        func_class_arithmetics-eq-ok metas_by_name edges fns classes h in
      let (r, ends', exact, _) = inflect_exact (inflect_cut fns) (initial_insider fns) edges in
      let same : r ≡ kept = cc in
      let inside = member-insider fns left kept s in
      let initial = member-initial_insider fns s in
      let stays =
        subst
          (λ k. (member s k ≡ true) ↔ (
            (member s (initial_insider fns) ≡ true)
            × ¬ Escapes (inflect_cut fns) (initial_insider fns) edges s))
          same (exact s) in
      let shaped = ap (λ (c : FuncClass). member s c.insider) shape in
      (
        λ m.
            let (first, safe) = stays.0 (ground arith) in
            (ground arith, ground arith, ground arith, ground arith, ground arith, safe),
        λ (a, b, c, d, e, safe).
            let first = stays.1 (initial ∙ rw (a, b, c), safe) in
            shaped ∙ inside ∙ rw (first, d, e),
      )

  -- Where the arithmetic ends without an error, every function of the module is an insider, an
  -- interface or callback function, or an outsider. No insider is an interface or callback function.
  -- An insider is an outsider as well only if it is a callback that the compiler optimised away, and
  -- an interface or callback function is an outsider as well only if it is overridden.
  pub mod_fns_partition :
      (s : Sym)
      → member s fns.mod_fns ≡ true
      → ((member s classes.insider || member s classes.border || member s classes.sched_outsider)
          ≡ true)
        × ((member s classes.insider && member s classes.border) ≡ false)
        × ((member s classes.insider && member s classes.sched_outsider) ≡ true
            → member s classes.cb_opt ≡ true)
        × ((member s classes.border && member s classes.sched_outsider) ≡ true
            → member s fns.fake_global ≡ true)
  unfolding classify
  mod_fns_partition s m =
      let (left, kept, _, ends, _, shape) =
        func_class_arithmetics-eq-ok metas_by_name edges fns classes h in
      let (within, _) = inflect-IsClosed (inflect_cut fns) (initial_insider fns) edges kept ends in
      let initial = within s in
      rw shape (
        ground (
          arith,
          member-insider fns left kept s,
          member-sched_outsider fns left kept s,
          member-initial_insider fns s,
          member-border fns s,
          member-cb_opt fns s,
          initial,
        ))
