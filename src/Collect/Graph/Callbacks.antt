-- ===== src/Collect/Graph/Callbacks.antt =====
-- Which functions `collect_callback` records.
use plugsched.Common.{
  Bool, true, false, Option, none, some, List, [], ◌∷◌, ◌==◌, ◌≡◌, refl, sym, ◌∙◌, ap, subst, ◌≢◌,
  ◌↔◌, ◌⊎◌, inl, inr, ⊎_elim, Bool-cases, some-injective,
}
use mathlib.Core.List.Memᴰ
use mathlib.Core.List.{Memᴰ}
use plugsched.Common.Text.{codes, text_eq}
use plugsched.Common.Errors.{ok, >>=-eq-ok, ok-injective}
use plugsched.Common.Gather.{gather, gather_exact, mem-one}
use plugsched.Analyze.Meta.{Sym}
use plugsched.Collect.Gcc.{
  GccLocation, Decl, Collection, Op, function_decl, component_ref, other_op, Stmt, call, other_stmt,
  Node, Variable,
}
use plugsched.Collect.Functions.{decl_in_section, decl_sig}
use plugsched.Collect.Graph.{
  each_stmt, mark_callback, walk_operand, stmt_callbacks, name_or_empty, body_callbacks,
  value_callbacks, node_callbacks, var_callbacks, collect_callback,
}

-- an object that is the declaration of a function that is not in `.init.text`
abbrev pub IsMarked : Collection → Op → Sym → Type 0
IsMarked config op sig =
    (decl : Decl) × (op ≡ function_decl decl)
    × (decl_in_section decl (codes ".init.text") ≡ ok false)
    × (decl_sig config decl ≡ ok sig)

abbrev pub IsAmong : Collection → List Op → Sym → Type 0
IsAmong config ops sig = (op : Op) × Memᴰ op ops × IsMarked config op sig

-- the operands of a call but the callee, or the whole of another statement
abbrev pub handed : Stmt → List (Option (List Op))
handed (call [] fndecl ops) = []
handed (call (_ ∷ rhs) fndecl ops) = rhs
handed (other_stmt ops) = some ops ∷ []

abbrev pub IsOperand : Collection → Option (List Op) → Sym → Type 0
IsOperand config operand sig = (ops : List Op) × (operand ≡ some ops) × IsAmong config ops sig

abbrev pub IsHanded : Collection → Stmt → Sym → Type 0
IsHanded config stmt sig =
    (operand : Option (List Op)) × Memᴰ operand (handed stmt) × IsOperand config operand sig

-- a callback in the body of a function
abbrev pub InBody : Collection → Node → Sym → Type 0
InBody config node sig =
    (node.decl.function ≢ none)
    × ((stmt : Stmt) × Memᴰ stmt (each_stmt node) × IsHanded config stmt sig)

-- a callback in the initial value of a variable
abbrev pub IsInitial : Collection → Decl → Option (List Op) → Bool → Sym → Type 0
IsInitial config decl initial private sig =
    (private ≡ false)
    × (decl_in_section decl (codes ".discard.addressable") ≡ ok false)
    × IsOperand config initial sig

abbrev pub InValue : Collection → Variable → Sym → Type 0
InValue config var sig =
    IsInitial config var.decl var.initial (name_or_empty var.type_name == codes "sched_class") sig

nothing_in : {sigs : List Sym} {sig : Sym} → ok [] ≡ ok sigs → ¬ Memᴰ sig sigs
nothing_in {sigs} {sig} e m =
    Memᴰ.not-nil (subst (λ out. Memᴰ sig out) (sym (ok-injective [] sigs e)) m)

ok_true-false : ok true ≢ ok false
ok_true-false h = absurd (cc)

op-injective : {a b : Decl} → function_decl a ≡ function_decl b → a ≡ b
op-injective h = cc

mark_callback_exact :
    (config : Collection) (op : Op) (sigs : List Sym)
    → mark_callback config op ≡ ok sigs
    → (sig : Sym) → Memᴰ sig sigs ↔ IsMarked config op sig
unfolding mark_callback
mark_callback_exact config (component_ref r) sigs e sig =
    (λ m. absurd (nothing_in e m), λ (decl, h, _, _). absurd (cc))
mark_callback_exact config other_op sigs e sig =
    (λ m. absurd (nothing_in e m), λ (decl, h, _, _). absurd (cc))
mark_callback_exact config (function_decl op) sigs e sig =
    let (init, i, e₁) = >>=-eq-ok (decl_in_section op (codes ".init.text")) _ e in
    elim (Bool-cases init) [
      | inl inside ↦ (
        λ m. absurd (nothing_in (rw inside at e₁) m),
        λ (decl, h, o, _). absurd (
            ok_true-false (
              sym (rw inside at i)
              ∙ ap (λ d. decl_in_section d (codes ".init.text")) (op-injective h)
              ∙ o)),
      )
      | inr outside ↦
          let (found, f, e₂) = >>=-eq-ok (decl_sig config op) _ (rw outside at e₁) in
          rw (← (ok-injective _ sigs e₂)) (
            λ m. (op, refl, rw outside at i, rw ((mem-one sig found).0 m) f),
            λ (decl, h, _, s).
                (mem-one sig found).1 (
                  ok-injective sig found (sym s ∙ sym (ap (decl_sig config) (op-injective h)) ∙ f)),
          )
    ]

walk_operand_exact :
    (config : Collection) (operand : Option (List Op)) (sigs : List Sym)
    → walk_operand config operand ≡ ok sigs
    → (sig : Sym) → Memᴰ sig sigs ↔ IsOperand config operand sig
walk_operand_exact config none sigs e sig =
    (λ m. absurd (nothing_in e m), λ (ops, h, _). absurd (cc))
walk_operand_exact config (some ops) sigs e sig =
    let (fore, back) =
      gather_exact (IsMarked config) (mark_callback config) (mark_callback_exact config) ops sigs e
        sig in
    (
      λ m. (ops, refl, fore m),
      λ (ops', h, k). back (subst (λ ops. IsAmong config ops sig) (sym (some-injective h)) k),
    )

stmt_callbacks_exact :
    (config : Collection) (stmt : Stmt) (sigs : List Sym)
    → stmt_callbacks config stmt ≡ ok sigs
    → (sig : Sym) → Memᴰ sig sigs ↔ IsHanded config stmt sig
unfolding stmt_callbacks
stmt_callbacks_exact config (call [] fndecl ops) sigs e sig =
    (λ m. absurd (nothing_in e m), λ (operand, m, _). absurd (Memᴰ.not-nil m))
stmt_callbacks_exact config (call (_ ∷ rhs) fndecl ops) sigs e sig =
    gather_exact (IsOperand config) (walk_operand config) (walk_operand_exact config) rhs sigs e sig
stmt_callbacks_exact config (other_stmt ops) sigs e sig =
    let (fore, back) = walk_operand_exact config (some ops) sigs e sig in
    (
      λ m. (some ops, Memᴰ.head refl, fore m),
      λ (operand, m, k).
          back (subst (λ o. IsOperand config o sig) ((mem-one operand (some ops)).0 m) k),
    )

body_callbacks_exact :
    (config : Collection) (node : Node) (body : Option (GccLocation × GccLocation))
    (sigs : List Sym)
    → body_callbacks config node body ≡ ok sigs
    → (sig : Sym)
    → Memᴰ sig sigs
      ↔ (body ≢ none) × ((stmt : Stmt) × Memᴰ stmt (each_stmt node) × IsHanded config stmt sig)
body_callbacks_exact config node none sigs e sig =
    (λ m. absurd (nothing_in e m), λ (body, _). absurd (body refl))
body_callbacks_exact config node (some loc) sigs e sig =
    let (fore, back) =
      gather_exact (IsHanded config) (stmt_callbacks config) (stmt_callbacks_exact config)
        (each_stmt node) sigs e sig in
    (λ m. (λ h. absurd (cc), fore m), λ (_, k). back k)

value_callbacks_exact :
    (config : Collection) (decl : Decl) (initial : Option (List Op)) (private : Bool)
    (sigs : List Sym)
    → value_callbacks config decl initial private ≡ ok sigs
    → (sig : Sym) → Memᴰ sig sigs ↔ IsInitial config decl initial private sig
value_callbacks_exact config decl none private sigs e sig =
    (λ m. absurd (nothing_in e m), λ (_, _, (ops, h, _)). absurd (cc))
value_callbacks_exact config decl (some ops) true sigs e sig =
    (λ m. absurd (nothing_in e m), λ (h, _, _). absurd (cc))
value_callbacks_exact config decl (some ops) false sigs e sig =
    let (discarded, d, e₁) = >>=-eq-ok (decl_in_section decl (codes ".discard.addressable")) _ e in
    elim (Bool-cases discarded) [
      | inl gone ↦ (
        λ m. absurd (nothing_in (rw gone at e₁) m),
        λ (_, h, _). absurd (ok_true-false (sym (rw gone at d) ∙ h)),
      )
      | inr there ↦
          let (fore, back) = walk_operand_exact config (some ops) sigs (rw there at e₁) sig in
          (λ m. (refl, rw there at d, fore m), λ (_, _, k). back k)
    ]

-- When `collect_callback` returns, the signatures recorded are those of the function declarations
-- outside `.init.text` that are visited in an operand of a call that is not its callee, or in another
-- statement, of a function with a body; or in the initial value of a variable whose type is not
-- named "sched_class" and which is not in the section ".discard.addressable".
pub collect_callback_exact :
    (config : Collection) (nodes : List Node) (vars : List Variable) (sigs : List Sym)
    → collect_callback config nodes vars ≡ ok sigs
    → (sig : Sym)
    → Memᴰ sig sigs
      ↔ ((node : Node) × Memᴰ node nodes × InBody config node sig)
        ⊎ ((var : Variable) × Memᴰ var vars × InValue config var sig)
unfolding collect_callback node_callbacks var_callbacks
collect_callback_exact config nodes vars sigs e sig =
    let (in_bodies, b, e₁) = >>=-eq-ok (gather (node_callbacks config) nodes) _ e in
    let (in_values, v, e₂) = >>=-eq-ok (gather (var_callbacks config) vars) _ e₁ in
    let (fore, back) =
      gather_exact (InBody config) (node_callbacks config)
        (λ node. body_callbacks_exact config node node.decl.function) nodes in_bodies b sig in
    let (fore', back') =
      gather_exact (InValue config) (var_callbacks config)
        (λ var.
          value_callbacks_exact config var.decl var.initial
            (name_or_empty var.type_name == codes "sched_class"))
        vars in_values v sig in
    rw (← (ok-injective _ sigs e₂)) (
      λ m. elim (Memᴰ.append_cases in_bodies m) [ inl k ↦ inl (fore k) | inr k ↦ inr (fore' k) ],
      ⊎_elim (λ k. Memᴰ.append_left in_values (back k))
          (λ k. Memᴰ.append_right in_bodies (back' k)),
    )
