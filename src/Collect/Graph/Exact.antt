-- ===== src/Collect/Graph/Exact.antt =====
-- Which edges `collect_edge` records.
use plugsched.Common.{
  true, false, Option, none, some, List, [], ◌≡◌, refl, sym, ◌∙◌, ap, ◌≢◌, ◌↔◌, ◌⊎◌, inl, inr,
  Bool-cases, some-injective, Option-cases, subst,
}
use mathlib.Core.List.Memᴰ
use mathlib.Core.List.{Memᴰ}
use plugsched.Common.Text.{codes, text_eq, replace}
use plugsched.Common.Dict.{get_item}
use plugsched.Common.Errors.{ok, >>=-eq-ok, ok-injective}
use plugsched.Common.Gather.{gather_exact, mem-one}
use plugsched.Analyze.Meta.{RawEdge}
use plugsched.Collect.Gcc.{AttributeValue, Decl, Collection, Node}
use plugsched.Collect.Functions.{decl_in_section, decl_sig}
use plugsched.Collect.Graph.{
  each_call_stmt, first_value, alias_edge, call_edge, function_edges, node_edges, collect_edge,
}

-- an edge from a declaration to one that it calls
abbrev pub IsCall : Collection → Decl → Decl → RawEdge → Type 0
IsCall config caller callee edge =
    (decl_sig config caller ≡ ok edge.from) × (decl_sig config callee ≡ ok edge.to)

-- an edge from an alias to the function it names
abbrev pub IsAlias : Collection → Decl → RawEdge → Type 0
IsAlias config decl edge =
    (vals : List AttributeValue) × (val : AttributeValue) × (get_item (codes "alias")
        decl.attributes
      ≡ ok vals)
    × (first_value vals ≡ ok val)
    × (decl_sig config decl ≡ ok edge.from)
    × (edge.to ≡ (replace (codes "\"") [] val.str_no_uid, codes "?"))

-- the edges of a node
abbrev pub IsEdge : Collection → Node → RawEdge → Type 0
IsEdge config node edge =
    (decl_in_section node.decl (codes ".init.text") ≡ ok false)
    × (((node.decl.function ≡ none) × IsAlias config node.decl edge)
        ⊎ ((node.decl.function ≢ none)
            × ((callee : Decl) × Memᴰ (some callee) (each_call_stmt node)
                × IsCall config node.decl callee edge)))

edge-eq : (x y : RawEdge) → x.from ≡ y.from → x.to ≡ y.to → x ≡ y
edge-eq x y p q = λ i. record { from = p i; to = q i }

abbrev pub IsCallOf : Collection → Decl → Option Decl → RawEdge → Type 0
IsCallOf config decl fndecl edge =
    (callee : Decl) × (fndecl ≡ some callee) × IsCall config decl callee edge

ok_true-false : ok true ≢ ok false
ok_true-false h = absurd (cc)

call_edge_exact :
    (config : Collection) (decl : Decl) (fndecl : Option Decl) (edges : List RawEdge)
    → call_edge config decl fndecl ≡ ok edges
    → (edge : RawEdge) → Memᴰ edge edges ↔ IsCallOf config decl fndecl edge
unfolding call_edge
call_edge_exact config decl none edges e edge = (
  λ m. absurd (Memᴰ.not-nil (subst (λ out. Memᴰ edge out) (sym (ok-injective [] edges e)) m)),
  λ (callee, h, _). absurd (cc),
)
call_edge_exact config decl (some fndecl) edges e edge =
    let (from, f, e₁) = >>=-eq-ok (decl_sig config decl) _ e in
    let (to, t, e₂) = >>=-eq-ok (decl_sig config fndecl) _ e₁ in
    rw (← (ok-injective _ edges e₂)) (
      λ m. rw ((mem-one edge _).0 m) (fndecl, refl, (f, t)),
      λ (callee, h, (a, b)).
          let t' : decl_sig config fndecl ≡ ok edge.to = rw (some-injective h) b in
          (mem-one edge _).1 (
            edge-eq edge _ (ok-injective edge.from from (sym a ∙ f))
              (ok-injective edge.to to (sym t' ∙ t))),
    )

alias_edge_exact :
    (config : Collection) (decl : Decl) (edges : List RawEdge)
    → alias_edge config decl ≡ ok edges
    → (edge : RawEdge) → Memᴰ edge edges ↔ IsAlias config decl edge
unfolding alias_edge
alias_edge_exact config decl edges e edge =
    let (vals, v, e₁) = >>=-eq-ok (get_item (codes "alias") decl.attributes) _ e in
    let (val, w, e₂) = >>=-eq-ok (first_value vals) _ e₁ in
    let (from, f, e₃) = >>=-eq-ok (decl_sig config decl) _ e₂ in
    rw (← (ok-injective _ edges e₃)) (
      λ m. rw ((mem-one edge _).0 m) (vals, val, v, w, f, refl),
      λ (vals', val', v', w', a, b).
          let vals-eq : vals' ≡ vals = ok-injective vals' vals (sym v' ∙ v) in
          let val-eq : val' ≡ val = ok-injective val' val (sym w' ∙ ap first_value vals-eq ∙ w) in
          (mem-one edge _).1 (
            edge-eq edge _ (ok-injective edge.from from (sym a ∙ f))
              (b ∙ ap (λ val. (replace (codes "\"") [] val.str_no_uid, codes "?")) val-eq)),
    )

node_edges_exact :
    (config : Collection) (node : Node) (edges : List RawEdge)
    → node_edges config node ≡ ok edges
    → (edge : RawEdge) → Memᴰ edge edges ↔ IsEdge config node edge
unfolding node_edges
node_edges_exact config node edges e edge =
    let (init, i, e₁) = >>=-eq-ok (decl_in_section node.decl (codes ".init.text")) _ e in
    elim (Bool-cases init) [
      | inl inside ↦ rw (← (ok-injective [] edges (rw inside at e₁))) (
        λ m. absurd (Memᴰ.not-nil m),
        λ (j, _). absurd (ok_true-false (sym (rw inside at i) ∙ j)),
      )
      | inr outside ↦ elim (Option-cases node.decl.function) [
        | inl alias ↦
            let (fore, back) =
              alias_edge_exact config node.decl edges
                (subst (λ f. function_edges config node f ≡ ok edges) alias (rw outside at e₁))
                edge in
            (
              λ m. (rw outside at i, inl (alias, fore m)),
              λ (_, h). elim h [ inl (_, k) ↦ back k | inr (body, _) ↦ absurd (body alias) ],
            )
        | inr (body, found) ↦
            let (fore, back) =
              gather_exact (IsCallOf config node.decl) (call_edge config node.decl)
                (call_edge_exact config node.decl) (each_call_stmt node) edges
                (subst (λ f. function_edges config node f ≡ ok edges) found (rw outside at e₁))
                edge in
            (
              λ m.
                  let (fndecl, n, (callee, same, k)) = fore m in
                  (
                    rw outside at i,
                    inr (
                      λ none. absurd (cc),
                      (callee, subst (λ d. Memᴰ d (each_call_stmt node)) same n, k),
                    ),
                  ),
              λ (_, h). elim h [
                | inl (alias, _) ↦ absurd (cc)
                | inr (_, (callee, n, k)) ↦ back (some callee, n, (callee, refl, k))
              ],
            )
      ]
    ]

-- When `collect_edge` returns, an edge is recorded exactly when some node of the call graph that is
-- not in `.init.text` is an alias, and the edge leads from it to the name in its first alias
-- attribute, without quotes, in the file "?"; or the node has a body with a direct call, and the
-- edge leads from the signature of the node to the signature of the function that is called.
pub collect_edge_exact :
    (config : Collection) (nodes : List Node) (edges : List RawEdge)
    → collect_edge config nodes ≡ ok edges
    → (edge : RawEdge)
    → Memᴰ edge edges ↔ ((node : Node) × Memᴰ node nodes × IsEdge config node edge)
unfolding collect_edge
collect_edge_exact config nodes edges e edge =
    gather_exact (IsEdge config) (node_edges config) (node_edges_exact config) nodes edges e edge
