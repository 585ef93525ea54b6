-- ===== src/Vm/Verified.antt =====
-- bogvm/vm.py: what VERIFY answers in the states that a program can reach.
use bogbin.Common.{
  ℕ, false, Option, none, some, List, String, ◌≡◌, refl, sym, subst, ◌∙◌, arith, ◌⊎◌, inl, inr,
  Bool-cases, ltb, ltb→lt, ◌<◌, ok, ap,
}
use bogbin.Common.Dict
use bogbin.Common.Dict.{Dict}
use bogbin.Instruction.{Instruction, Opcode, op_names}
use bogbin.Vm.State.{
  VmState, Manifest, Claim, Status, verified, rejected, abstained, next, initial, member,
}
use bogbin.Vm.Outcomes.{Always, outcome_rules, Always-option}
use bogbin.Vm.Graph.{create_node, create_edge, create_claim, activate, add_edge}
use bogbin.Vm.Propagation.{propagate, decay}
use bogbin.Vm.Claims.{
  interfere, compute_tension, verify, verify_claim, accept, accept_by, reject, quarantine,
  accept_unverified, repair_rejected_claim,
}
use bogbin.Vm.Blocks.{
  declare_basis, load_coefficients, synthesize, verify_hash, accept_data, reject_data,
  store_residual, apply_residual,
}
use bogbin.Vm.{execute, step}
use bogbin.Vm.Reachable.{Reachable, Reachable-IsWired}
use bogbin.Vm.Support.Loop.{support_path_exists-Leads}
use bogbin.Vm.Chains.{
  Chain, Complete-edge, Current-edge, IsComplete, IsCurrent, Leads-Chain,
  support_path_exists_decides,
}

ruleset complete_rules = (outcome_rules, Complete-edge)

ruleset current_rules = (outcome_rules, Current-edge)

-- An instruction that does not create an edge under an id that the edge table holds already.
abbrev pub IsFresh : Instruction → VmState → Type 0
IsFresh i s = op_names i.opcode ≡ some Opcode.create_edge → Dict.get i.target s.edge_table ≡ none

-- A state that a program of the manifest can reach that gives no edge id to two edges.
pub data Orderly (sha256 : List ℕ → String) (manifest : Manifest) : VmState → Type 0 where
  start : (s : VmState) → s ≡ initial manifest → Orderly sha256 manifest s
  go :
      {s t : VmState} (pc : ℕ) (i : Instruction)
      → Orderly sha256 manifest s
      → IsFresh i s
      → step sha256 pc i s ≡ next t
      → Orderly sha256 manifest t

module _ (sha256 : List ℕ → String) (pc : ℕ) (i : Instruction) (s : VmState) where
  module _ (c : IsComplete s) where
    accept_by-IsComplete : (o : Option Status) (id : ℕ) → Always IsComplete (accept_by o pc id s)
    unfolding accept_by repair_rejected_claim accept_unverified
    accept_by-IsComplete none id = search complete_rules
    accept_by-IsComplete (some verified) id = search complete_rules
    accept_by-IsComplete (some rejected) id = search complete_rules
    accept_by-IsComplete (some abstained) id = search complete_rules

    execute-IsComplete : (op : Opcode) → Always IsComplete (execute sha256 op pc i s)
    unfolding execute accept create_node create_edge add_edge create_claim activate propagate decay
        interfere compute_tension verify reject quarantine declare_basis load_coefficients
        synthesize verify_hash accept_data reject_data store_residual apply_residual
    execute-IsComplete Opcode.noop = c
    execute-IsComplete Opcode.accept = accept_by-IsComplete _ i.target
    execute-IsComplete Opcode.create_edge = search complete_rules depth 9
    execute-IsComplete _ = search complete_rules depth 9

    step-IsComplete : Always IsComplete (step sha256 pc i s)
    unfolding step
    step-IsComplete = search (outcome_rules, execute-IsComplete)

  module _ (c : IsCurrent s) where
    accept_by-IsCurrent : (o : Option Status) (id : ℕ) → Always IsCurrent (accept_by o pc id s)
    unfolding accept_by repair_rejected_claim accept_unverified
    accept_by-IsCurrent none id = search current_rules
    accept_by-IsCurrent (some verified) id = search current_rules
    accept_by-IsCurrent (some rejected) id = search current_rules
    accept_by-IsCurrent (some abstained) id = search current_rules

    execute-IsCurrent :
        (op : Opcode)
        → (op ≡ Opcode.create_edge → Dict.get i.target s.edge_table ≡ none)
        → Always IsCurrent (execute sha256 op pc i s)
    unfolding execute accept create_node create_edge add_edge create_claim activate propagate decay
        interfere compute_tension verify reject quarantine declare_basis load_coefficients
        synthesize verify_hash accept_data reject_data store_residual apply_residual
    execute-IsCurrent Opcode.noop h = c
    execute-IsCurrent Opcode.accept h = accept_by-IsCurrent _ i.target
    execute-IsCurrent Opcode.create_edge h = let fresh = h refl in search current_rules depth 9
    execute-IsCurrent _ h = search current_rules depth 9

    step-IsCurrent : IsFresh i s → Always IsCurrent (step sha256 pc i s)
    unfolding step
    step-IsCurrent fresh =
        Always-option IsCurrent (op_names i.opcode) _ _ (λ e. c)
          (λ op e. execute-IsCurrent op (λ p. fresh (e ∙ ap some p)))

initial-IsComplete : (manifest : Manifest) → IsComplete (initial manifest)
unfolding Dict.get
initial-IsComplete manifest = record { all_listed = λ e edge h. absurd (ground arith) }

initial-IsCurrent : (manifest : Manifest) → IsCurrent (initial manifest)
unfolding member Dict.get
initial-IsCurrent manifest = record { listed_leaves = λ v e h. cc }

module _ (sha256 : List ℕ → String) (manifest : Manifest) where
  pub Reachable-IsComplete : {s : VmState} → Reachable sha256 manifest s → IsComplete s
  Reachable-IsComplete (Reachable.start s e) =
      subst IsComplete (sym e) (initial-IsComplete manifest)
  Reachable-IsComplete (Reachable.go {s = s} pc i r e) =
      subst (Always IsComplete) e (step-IsComplete sha256 pc i s (Reachable-IsComplete r))

  pub Orderly-IsCurrent : {s : VmState} → Orderly sha256 manifest s → IsCurrent s
  Orderly-IsCurrent (Orderly.start s e) = subst IsCurrent (sym e) (initial-IsCurrent manifest)
  Orderly-IsCurrent (Orderly.go {s = s} pc i r fresh e) =
      subst (Always IsCurrent) e (step-IsCurrent sha256 pc i s (Orderly-IsCurrent r) fresh)

  Orderly-Reachable : {s : VmState} → Orderly sha256 manifest s → Reachable sha256 manifest s
  Orderly-Reachable (Orderly.start s e) = Reachable.start s e
  Orderly-Reachable (Orderly.go pc i r fresh e) = Reachable.go pc i (Orderly-Reachable r) e

-- The conflict pressure that VERIFY reads.
abbrev pub conflict_pressure_of : VmState → ℕ → ℕ
conflict_pressure_of s id = elim (Dict.get id s.pressure_current) [
  | none ↦ 0
  | some p ↦ p.conflict_pressure
]

-- In every state that a program can reach without giving one edge id to two edges,
-- `_verify_claim` answers `rejected` for a claim exactly if its recorded conflict pressure is above
-- 0; otherwise `verified` exactly if a chain of support edges of the edge table leads from its
-- source to its target; and `abstained` in the other cases.
pub verify_claim_answers :
    (sha256 : List ℕ → String) (manifest : Manifest) (s : VmState) (id : ℕ) (c : Claim)
    → Orderly sha256 manifest s
    → Dict.get id s.claim_table ≡ some c
    → ((verify_claim s id ≡ ok rejected) × (0 < conflict_pressure_of s id))
      ⊎ ((verify_claim s id ≡ ok verified)
          × (conflict_pressure_of s id ≡ 0)
          × Chain s c.source c.target)
      ⊎ ((verify_claim s id ≡ ok abstained)
          × (conflict_pressure_of s id ≡ 0)
          × ¬ Chain s c.source c.target)
unfolding verify_claim
verify_claim_answers sha256 manifest s id c r g =
    elim (Bool-cases (ltb 0 (conflict_pressure_of s id))) [
      | inl pressed ↦ inl (rw (verify_claim, g, pressed), ltb→lt _ _ pressed)
      | inr free ↦
          elim (support_path_exists_decides s c.source c.target
            (Reachable-IsComplete sha256 manifest (Orderly-Reachable sha256 manifest r))
            (Orderly-IsCurrent sha256 manifest r)) [
              | inl (e, path) ↦ inr (inl (rw (verify_claim, g, free, e), ground arith, path))
              | inr (e, none_there) ↦
                  inr (inr (rw (verify_claim, g, free, e), ground arith, none_there))
            ]
    ]

-- In every state that a program can reach, also one that has given an edge id to two edges, a claim
-- without conflict pressure is verified if a chain of support edges of the edge table leads from its
-- source to its target.
pub verify_claim-Chain :
    (sha256 : List ℕ → String) (manifest : Manifest) (s : VmState) (id : ℕ) (c : Claim)
    → Reachable sha256 manifest s
    → Dict.get id s.claim_table ≡ some c
    → conflict_pressure_of s id ≡ 0
    → Chain s c.source c.target
    → verify_claim s id ≡ ok verified
unfolding verify_claim
verify_claim-Chain sha256 manifest s id c r g free chain =
    elim (support_path_exists-Leads s c.source c.target
      (Reachable-IsWired sha256 manifest r).out_known) [
        | inl (e, path) ↦
            let low : ltb 0 (conflict_pressure_of s id) ≡ false = rw free refl in
            rw (verify_claim, g, low, e)
        | inr (e, nowhere) ↦
            absurd (nowhere (Leads-Chain s (Reachable-IsComplete sha256 manifest r) chain))
      ]
