-- ===== src/Vm.antt =====
-- bogvm/vm.py: BOGVM. One instruction is a step on the state, and a program is run from its first
-- instruction to HALT. There are no jumps, so the run is a recursion on the instructions.
pub mod State
pub mod Graph
pub mod Propagation
pub mod Claims
pub mod Blocks
pub mod Members
pub mod Outcomes
pub mod Kept
pub mod Audit
pub mod Support
pub mod Reachable
pub mod Chains
pub mod Verified
mod Programs
mod Runs
use bogbin.Common.{
  ℕ, ◌+◌, Bool, true, false, not, Option, none, some, List, [], ◌∷◌, String, if◌then◌else◌,
  option_case, Result, ok, err, ◌>>=◌,
}
use bogbin.Common.Int.{negsuc}
use bogbin.Common.Dict
use bogbin.Common.Dict.{Dict}
use bogbin.Instruction.{Instruction, Opcode, op_names}
use bogbin.Vm.State.{
  Manifest, Claim, VmState, initial, Outcome, next, halted, raised, Fault, vm_error, key_error,
  VmError, log, Event,
}
use bogbin.Vm.Graph.{create_node, create_edge, create_claim, activate}
use bogbin.Vm.Propagation.{propagate, decay}
use bogbin.Vm.Claims.{interfere, compute_tension, verify, accept, reject, quarantine}
use bogbin.Vm.Blocks.{
  declare_basis, load_coefficients, synthesize, verify_hash, accept_data, reject_data,
  store_residual, apply_residual,
}
use mathlib.Core.List.{◌++◌}

module _ (sha256 : List ℕ → String) where
  -- The body of the loop, for the operation that the opcode names.
  unfoldable pub execute : Opcode → ℕ → Instruction → VmState → Outcome
  execute Opcode.noop pc i s = next (log pc Event.noop s)
  execute Opcode.halt pc i s = halted (log pc Event.halt s)
  execute Opcode.create_node pc i s = create_node pc i s
  execute Opcode.create_edge pc i s = create_edge pc i s
  execute Opcode.create_claim pc i s = create_claim pc i s
  execute Opcode.activate pc i s = activate pc i s
  execute Opcode.propagate pc i s = propagate pc i s
  execute Opcode.decay pc i s = decay pc i s
  execute Opcode.interfere pc i s = interfere pc i s
  execute Opcode.compute_tension pc i s = compute_tension pc i s
  execute Opcode.verify pc i s = verify pc i s
  execute Opcode.accept pc i s = accept pc i s
  execute Opcode.reject pc i s = reject pc i s
  execute Opcode.quarantine pc i s = quarantine pc i s
  execute Opcode.declare_basis pc i s = declare_basis pc i s
  execute Opcode.load_coefficients pc i s = load_coefficients pc i s
  execute Opcode.synthesize pc i s = synthesize pc i s
  execute Opcode.verify_hash pc i s = verify_hash sha256 pc i s
  execute Opcode.accept_data pc i s = accept_data pc i s
  execute Opcode.reject_data pc i s = reject_data pc i s
  execute Opcode.store_residual pc i s = store_residual pc i s
  execute Opcode.apply_residual pc i s = apply_residual pc i s
  execute Opcode.log_receipt pc i s = next (log pc Event.log_receipt s)
  execute Opcode.emit_receipt pc i s =
      next (log pc Event.emit_receipt (record s { receipt_emitted = true }))

  -- One round of the loop.
  unfoldable pub step : ℕ → Instruction → VmState → Outcome
  step pc i s =
      option_case (op_names i.opcode) (raised (vm_error (VmError.unknown_opcode pc i.opcode)) s)
        (λ op. execute op pc i s)

  -- What stands behind the loop, after HALT at `pc`.
  unfoldable pub finish : ℕ → VmState → VmState
  finish pc s = if s.receipt_emitted then s else log pc Event.auto_receipt s

  -- `run`, up to its receipt. `halted` is a run that is completed, and `next` is never the result.
  unfoldable pub run_from : ℕ → List Instruction → VmState → Outcome
  run_from pc [] s = raised (vm_error VmError.no_halt) s
  run_from pc (i ∷ is) s = elim (step pc i s) [
    | next s' ↦ run_from (pc + 1) is s'
    | halted s' ↦ halted (finish pc s')
    | raised fault s' ↦ raised fault s'
  ]

  unfoldable pub run : Manifest → List Instruction → Outcome
  run manifest instructions = run_from 0 instructions (initial manifest)
