-- ===== src/Analyze/Classes/Shape.antt =====
-- When the arithmetic succeeds, and the membership of each class.
use plugsched.Common.{
  true, false, not, ◌&&◌, ◌||◌, List, ◌≡◌, refl, inl, inr, arith, List-cases, ap, some,
}
use plugsched.Common.Sets.{member, diff, inter, is_empty, Within}
use plugsched.Common.Sets.Laws.{
  membership, member-union, member-diff, member-inter, member-nil, inter-eq-nil,
}
use plugsched.Common.Text.{Text, text_eq}
use plugsched.Common.Dict.{Dict, lookup}
use plugsched.Common.Errors.{ok, err, assertion, assert, assert-eq-true, >>=-eq-ok}
use plugsched.Analyze.Meta.{Sym, sym_eq, Edge, MetaEdge}
use plugsched.Analyze.Inflect.{inflect}
use plugsched.Analyze.Inflect.Exact.{inflect_exact}
use plugsched.Analyze.Sidecar.{sidecar_inflect, boundary_file}
use plugsched.Analyze.Sidecar.Exact.{sidecar_inflect_exact}
use plugsched.Analyze.Classes.{
  Given, FuncClass, cb_opt, callback, border, initial_insider, inflect_cut, classify,
  func_class_arithmetics,
}

pub func_class_arithmetics-eq-ok :
    (metas_by_name : Dict Text (List MetaEdge)) (edges : List Edge) (fns : Given)
    (classes : FuncClass)
    → func_class_arithmetics metas_by_name edges fns ≡ ok classes
    → (sdcr_left inflected : List Sym) × (sidecar_inflect metas_by_name fns.sidecar fns.in_vmlinux
        ≡ ok sdcr_left)
      × (inflect (inflect_cut fns) (initial_insider fns) edges ≡ ok inflected)
      × (is_empty (inter fns.sidecar (border fns)) ≡ true)
      × (classes ≡ classify fns sdcr_left inflected)
unfolding func_class_arithmetics
func_class_arithmetics-eq-ok metas_by_name edges fns classes h =
    let (left, found, h₁) =
      >>=-eq-ok (sidecar_inflect metas_by_name fns.sidecar fns.in_vmlinux) _ h in
    let (_, disjoint, h₂) = >>=-eq-ok (assert (is_empty (inter fns.sidecar (border fns)))) _ h₁ in
    let (kept, ends, h₃) = >>=-eq-ok (inflect (inflect_cut fns) (initial_insider fns) edges) _ h₂ in
    (left, kept, found, ends, assert-eq-true _ disjoint, cc)

module _ (fns : Given) (s : Sym) where
  pub member-cb_opt :
      member s (cb_opt fns)
      ≡ (member s fns.callback && not (member s fns.interface) && not (member s fns.in_vmlinux))
  unfolding cb_opt
  member-cb_opt = simp membership

  pub member-callback :
      member s (callback fns)
      ≡ (member s fns.callback && not (member s fns.interface) && member s fns.in_vmlinux)
  unfolding callback
  member-callback =
      let all = diff fns.callback fns.interface in
      ground (
        arith,
        member-diff s all (cb_opt fns),
        member-diff s fns.callback fns.interface,
        member-cb_opt,
      )

  pub member-border :
      member s (border fns)
      ≡ (member s fns.interface || member s fns.callback && member s fns.in_vmlinux)
  unfolding border
  member-border = ground (arith, member-union s fns.interface (callback fns), member-callback)

  pub member-initial_insider :
      member s (initial_insider fns)
      ≡ (member s fns.mod_fns && not (member s (border fns)) && not (member s fns.export))
  unfolding initial_insider
  member-initial_insider = simp membership

  pub member-inflect_cut :
      member s (inflect_cut fns)
      ≡ (member s (border fns) || member s fns.init || member s fns.sidecar)
  unfolding inflect_cut
  member-inflect_cut = simp membership

-- Each computed class, over the sets from which `classify` starts.
module _ (fns : Given) (sdcr_left inflected : List Sym) (s : Sym) where
  abbrev classes : FuncClass
  classes = classify fns sdcr_left inflected

  pub member-insider :
      member s (classify fns sdcr_left inflected).insider
      ≡ (member s inflected && not (member s fns.init) && not (member s fns.fake_global))
  unfolding classify
  member-insider = simp membership

  pub member-sched_outsider : member s (classify fns sdcr_left inflected).sched_outsider ≡ (
      member s fns.mod_fns
        && not (member s (classify fns sdcr_left inflected).insider)
        && not (member s (border fns))
      || member s (cb_opt fns)
      || member s fns.fake_global && member s fns.mod_fns)
  unfolding classify
  member-sched_outsider = simp membership

  pub member-outsider_opt : member s (classify fns sdcr_left inflected).outsider_opt ≡ (
      member s (classify fns sdcr_left inflected).sched_outsider
      && not (member s fns.in_vmlinux)
      && not (member s fns.init))
  unfolding classify
  member-outsider_opt = simp membership

  pub member-tainted : member s (classify fns sdcr_left inflected).tainted ≡ (
      (member s (border fns)
        || member s (classify fns sdcr_left inflected).insider
        || member s fns.sidecar)
      && member s fns.in_vmlinux)
  unfolding classify
  member-tainted = simp membership

  pub member-und : member s (classify fns sdcr_left inflected).und ≡ (
      member s (classify fns sdcr_left inflected).sched_outsider
        && not (member s (classify fns sdcr_left inflected).outsider_opt)
      || member s (border fns)
      || member s fns.sidecar)
  unfolding classify
  member-und = simp membership

-- With the metadata of each sidecar file read, every sidecar function in vmlinux and none of them
-- an interface or callback, the arithmetic succeeds.
pub func_class_arithmetics_ends :
    (metas_by_name : Dict Text (List MetaEdge)) (edges : List Edge) (fns : Given)
    → Within fns.sidecar fns.in_vmlinux
    → ((s : Sym) → member s fns.sidecar ≡ true → member s (border fns) ≡ false)
    → ((s : Sym)
        → member s fns.sidecar ≡ true
        → (found : List MetaEdge) × (lookup (boundary_file s) metas_by_name ≡ some found))
    → (classes : FuncClass) × (func_class_arithmetics metas_by_name edges fns ≡ ok classes)
unfolding func_class_arithmetics
func_class_arithmetics_ends metas_by_name edges fns within apart files =
    let (left, found, _) =
      sidecar_inflect_exact metas_by_name fns.sidecar fns.in_vmlinux within files in
    let (kept, ends, _, _) = inflect_exact (inflect_cut fns) (initial_insider fns) edges in
    (classify fns left kept, rw (found, inter-eq-nil fns.sidecar (border fns) apart) (rw ends refl))

-- A sidecar function that is also an interface or callback function is refused, where every sidecar
-- function is in vmlinux and the metadata of its file were read.
pub func_class_arithmetics_refuses :
    (metas_by_name : Dict Text (List MetaEdge)) (edges : List Edge) (fns : Given) (s : Sym)
    → Within fns.sidecar fns.in_vmlinux
    → ((s : Sym)
        → member s fns.sidecar ≡ true
        → (found : List MetaEdge) × (lookup (boundary_file s) metas_by_name ≡ some found))
    → member s fns.sidecar ≡ true
    → member s (border fns) ≡ true
    → func_class_arithmetics metas_by_name edges fns ≡ err assertion
unfolding func_class_arithmetics
func_class_arithmetics_refuses metas_by_name edges fns s within files h k =
    let (left, found, _) =
      sidecar_inflect_exact metas_by_name fns.sidecar fns.in_vmlinux within files in
    elim (List-cases (inter fns.sidecar (border fns))) [
      | inl empty ↦ absurd (
          ground
            (arith, member-inter s fns.sidecar (border fns), member-nil s, ap (member s) empty))
      | inr (x, rest, e) ↦ rw (found, e) refl
    ]
