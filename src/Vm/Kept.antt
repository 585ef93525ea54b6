-- ===== src/Vm/Kept.antt =====
-- bogvm/vm.py: what every step keeps, a run keeps. No instruction writes the manifest.
use bogbin.Common.{ℕ, ◌+◌, Bool, if◌then◌else◌, true, false, List, [], ◌∷◌, String, ◌≡◌}
use bogbin.Instruction.{Instruction, Opcode}
use bogbin.Vm.State.{
  VmState, Manifest, Status, verified, rejected, abstained, Outcome, next, halted, raised, Event,
  log,
}
use bogbin.Common.{Option, none, some}
use bogbin.Vm.Outcomes.{Always, outcome_rules}
use bogbin.Vm.Graph.{create_node, create_edge, create_claim, activate, add_edge}
use bogbin.Vm.Propagation.{propagate, decay}
use bogbin.Vm.Claims.{
  interfere, compute_tension, verify, accept, accept_by, reject, quarantine, accept_unverified,
  repair_rejected_claim,
}
use bogbin.Vm.Blocks.{
  declare_basis, load_coefficients, synthesize, verify_hash, accept_data, reject_data,
  store_residual, apply_residual,
}
use bogbin.Vm.{execute, step, finish, run_from}

module _ (sha256 : List ℕ → String) (P : VmState → Type 0)
    (by_step : (pc : ℕ) (i : Instruction) (s : VmState) → P s → Always P (step sha256 pc i s))
    (by_receipt : (pc : ℕ) (s : VmState) → P s → P (log pc Event.auto_receipt s)) where
  either : (b : Bool) (s t : VmState) → P s → P t → P (if b then s else t)
  either true s t h k = h
  either false s t h k = k

  finish-kept : (pc : ℕ) (s : VmState) → P s → P (finish sha256 pc s)
  unfolding finish
  finish-kept pc s h =
      either s.receipt_emitted s (log pc Event.auto_receipt s) h (by_receipt pc s h)

  pub run_from-kept :
      (is : List Instruction) (pc : ℕ) (s : VmState) → P s → Always P (run_from sha256 pc is s)
  unfolding run_from
  run_from-kept [] pc s h = h
  run_from-kept (i ∷ is) pc s h =
      onwards (step sha256 pc i s) (by_step pc i s h) (run_from-kept is (pc + 1))
    where
      onwards :
          (o : Outcome)
          → Always P o
          → ((t : VmState) → P t → Always P (run_from sha256 (pc + 1) is t))
          → Always P (elim o [
            | next t ↦ run_from sha256 (pc + 1) is t
            | halted t ↦ halted (finish sha256 pc t)
            | raised fault t ↦ raised fault t
          ])
      onwards (next t) p rest = rest t p
      onwards (halted t) p rest = finish-kept pc t p
      onwards (raised fault t) p rest = p

module _ (m : Manifest) where
  -- The state has the manifest `m`.
  abbrev pub HasManifest : VmState → Type 0
  HasManifest s = s.manifest ≡ m

  module _ (sha256 : List ℕ → String) (pc : ℕ) (i : Instruction) (s : VmState)
      (h : HasManifest s) where
    accept_by-HasManifest : (o : Option Status) (id : ℕ) → Always HasManifest (accept_by o pc id s)
    unfolding accept_by repair_rejected_claim accept_unverified
    accept_by-HasManifest none id = search (outcome_rules, h)
    accept_by-HasManifest (some verified) id = search (outcome_rules, h)
    accept_by-HasManifest (some rejected) id = search (outcome_rules, h)
    accept_by-HasManifest (some abstained) id = search (outcome_rules, h)

    execute-HasManifest : (op : Opcode) → Always HasManifest (execute sha256 op pc i s)
    unfolding execute accept create_node create_edge add_edge create_claim activate propagate decay
        interfere compute_tension verify reject quarantine declare_basis load_coefficients
        synthesize verify_hash accept_data reject_data store_residual apply_residual
    execute-HasManifest Opcode.noop = h
    execute-HasManifest Opcode.accept = accept_by-HasManifest _ i.target
    execute-HasManifest _ = search (outcome_rules, h) depth 9

  pub step-HasManifest :
      (sha256 : List ℕ → String) (pc : ℕ) (i : Instruction) (s : VmState)
      → HasManifest s
      → Always HasManifest (step sha256 pc i s)
  unfolding step
  step-HasManifest sha256 pc i s h = search (outcome_rules, execute-HasManifest)
