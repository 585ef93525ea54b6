-- ===== src/Vm/Audit/Steps.antt =====
-- bogvm/vm.py: the instructions, against the account that the ledger gives.
use bogbin.Common.{
  ℕ, true, Option, none, some, List, String, ◌≡◌, refl, arith, ok, err, Option-cases, inl, inr,
}
use bogbin.Common.Dict
use bogbin.Common.Dict.{Dict}
use bogbin.Instruction.{Instruction, Opcode}
use bogbin.Vm.State.{
  VmState, Status, verified, rejected, abstained, DataBlock, Claim, initial, member, key_error,
  Manifest,
}
use bogbin.Vm.Kept.{HasManifest, step-HasManifest, run_from-kept}
use bogbin.Common.{subst}
use bogbin.Vm.Outcomes.{
  Always-both, Always, Always-option, Always-result, Always-map, outcome_rules,
}
use bogbin.Vm.Audit.{
  IsAudited, Audit-log, Audit-claim, Audit-verify, Audit-verify_hash, Audit-accept, Audit-block,
  Audit-accept_data, IsClaimVerified, IsHashVerified,
}
use bogbin.Vm.Graph.{create_node, create_edge, create_claim, activate, add_edge}
use bogbin.Vm.Propagation.{propagate, decay}
use bogbin.Vm.Claims.{
  interfere, compute_tension, verify, verify_claim, accept, accept_by, reject, quarantine,
  accept_unverified, repair_rejected_claim,
}
use bogbin.Vm.Blocks.{
  declare_basis, load_coefficients, synthesize, verify_hash, accept_data, reject_data,
  store_residual, apply_residual, is_verified,
}
use bogbin.Vm.{execute, step, run}

ruleset audit_rules = (outcome_rules, Audit-log)

verified_of : (o : Option Status) → is_verified o ≡ true → o ≡ some verified
verified_of none h = cc
verified_of (some verified) h = refl
verified_of (some rejected) h = cc
verified_of (some abstained) h = cc

-- VERIFY answers only for a claim that exists.
verify_claim_finds :
    (s : VmState) (id : ℕ) (status : Status)
    → verify_claim s id ≡ ok status
    → (c : Claim) × (Dict.get id s.claim_table ≡ some c)
unfolding verify_claim
verify_claim_finds s id status e = elim (Option-cases (Dict.get id s.claim_table)) [
  | inl n ↦ absurd (absent n)
  | inr found ↦ found
]
  where
    absent : Dict.get id s.claim_table ≡ none → ⊥
    absent n = let q : err (key_error id) ≡ ok status = rw (n, verify_claim) at e in cc

module _ (sha256 : List ℕ → String) (pc : ℕ) (i : Instruction) (s : VmState)
    (a : IsAudited sha256 s) where
  create_node-IsAudited : Always (IsAudited sha256) (create_node pc i s)
  unfolding create_node
  create_node-IsAudited = search audit_rules

  create_edge-IsAudited : Always (IsAudited sha256) (create_edge pc i s)
  unfolding create_edge add_edge
  create_edge-IsAudited = search audit_rules depth 9

  create_claim-IsAudited : Always (IsAudited sha256) (create_claim pc i s)
  unfolding create_claim
  create_claim-IsAudited = search (audit_rules, Audit-claim) depth 9

  activate-IsAudited : Always (IsAudited sha256) (activate pc i s)
  unfolding activate
  activate-IsAudited = search audit_rules

  propagate-IsAudited : Always (IsAudited sha256) (propagate pc i s)
  unfolding propagate
  propagate-IsAudited = search audit_rules depth 9

  decay-IsAudited : Always (IsAudited sha256) (decay pc i s)
  unfolding decay
  decay-IsAudited = search audit_rules

  interfere-IsAudited : Always (IsAudited sha256) (interfere pc i s)
  unfolding interfere
  interfere-IsAudited = search audit_rules depth 9

  compute_tension-IsAudited : Always (IsAudited sha256) (compute_tension pc i s)
  unfolding compute_tension
  compute_tension-IsAudited = search audit_rules

  verify-IsAudited : Always (IsAudited sha256) (verify pc i s)
  unfolding verify
  verify-IsAudited =
      Always-result (IsAudited sha256) (verify_claim s i.target) _ _ (λ fault e. a)
        λ status e.
          let (c, found) = verify_claim_finds s i.target status e in
          rw found (Audit-verify sha256 a i.target c _ status found)

  accept_unverified-IsAudited : (id : ℕ) → Always (IsAudited sha256) (accept_unverified id s)
  unfolding accept_unverified
  accept_unverified-IsAudited id = search audit_rules

  accept_by-IsAudited :
      (o : Option Status) (id : ℕ)
      → Dict.get id s.verifier_results ≡ o
      → Always (IsAudited sha256) (accept_by o pc id s)
  unfolding accept_by repair_rejected_claim
  accept_by-IsAudited none id e = accept_unverified-IsAudited id
  accept_by-IsAudited (some verified) id e = search (audit_rules, Audit-accept)
  accept_by-IsAudited (some rejected) id e = search audit_rules
  accept_by-IsAudited (some abstained) id e = accept_unverified-IsAudited id

  accept-IsAudited : Always (IsAudited sha256) (accept pc i s)
  unfolding accept
  accept-IsAudited = accept_by-IsAudited (Dict.get i.target s.verifier_results) i.target refl

  reject-IsAudited : Always (IsAudited sha256) (reject pc i s)
  unfolding reject
  reject-IsAudited = search audit_rules

  quarantine-IsAudited : Always (IsAudited sha256) (quarantine pc i s)
  unfolding quarantine
  quarantine-IsAudited = search audit_rules

  declare_basis-IsAudited : Always (IsAudited sha256) (declare_basis pc i s)
  unfolding declare_basis
  declare_basis-IsAudited = search audit_rules depth 9

  load_coefficients-IsAudited : Always (IsAudited sha256) (load_coefficients pc i s)
  unfolding load_coefficients
  load_coefficients-IsAudited = search (audit_rules, Audit-block) depth 9

  synthesize-IsAudited : Always (IsAudited sha256) (synthesize pc i s)
  unfolding synthesize
  synthesize-IsAudited = search (audit_rules, Audit-block, a.blocks_named) depth 9

  verify_hash-IsAudited : Always (IsAudited sha256) (verify_hash sha256 pc i s)
  unfolding verify_hash
  verify_hash-IsAudited =
      Always-option (IsAudited sha256) (Dict.get i.target s.data_blocks) _ _ (λ n. a)
        λ b found.
          Always-option (IsAudited sha256) (Dict.get i.source s.manifest.constants) _ _ (λ n. a)
            λ h e. Audit-verify_hash sha256 a i.target b _ i.source h _ found e refl

  accept_data-IsAudited : Always (IsAudited sha256) (accept_data pc i s)
  unfolding accept_data
  accept_data-IsAudited = search (audit_rules, Audit-accept_data, verified_of) depth 9

  reject_data-IsAudited : Always (IsAudited sha256) (reject_data pc i s)
  unfolding reject_data
  reject_data-IsAudited = search audit_rules depth 9

  store_residual-IsAudited : Always (IsAudited sha256) (store_residual pc i s)
  unfolding store_residual
  store_residual-IsAudited = search (audit_rules, Audit-block, a.blocks_named) depth 9

  apply_residual-IsAudited : Always (IsAudited sha256) (apply_residual pc i s)
  unfolding apply_residual
  apply_residual-IsAudited = search (audit_rules, Audit-block, a.blocks_named) depth 9

module _ (sha256 : List ℕ → String) where
  execute-IsAudited :
      (op : Opcode) (pc : ℕ) (i : Instruction) (s : VmState)
      → IsAudited sha256 s
      → Always (IsAudited sha256) (execute sha256 op pc i s)
  unfolding execute
  execute-IsAudited Opcode.noop pc i s a = Audit-log sha256 a _
  execute-IsAudited Opcode.halt pc i s a = Audit-log sha256 a _
  execute-IsAudited Opcode.create_node pc i s a = create_node-IsAudited sha256 pc i s a
  execute-IsAudited Opcode.create_edge pc i s a = create_edge-IsAudited sha256 pc i s a
  execute-IsAudited Opcode.create_claim pc i s a = create_claim-IsAudited sha256 pc i s a
  execute-IsAudited Opcode.activate pc i s a = activate-IsAudited sha256 pc i s a
  execute-IsAudited Opcode.propagate pc i s a = propagate-IsAudited sha256 pc i s a
  execute-IsAudited Opcode.decay pc i s a = decay-IsAudited sha256 pc i s a
  execute-IsAudited Opcode.interfere pc i s a = interfere-IsAudited sha256 pc i s a
  execute-IsAudited Opcode.compute_tension pc i s a = compute_tension-IsAudited sha256 pc i s a
  execute-IsAudited Opcode.verify pc i s a = verify-IsAudited sha256 pc i s a
  execute-IsAudited Opcode.accept pc i s a = accept-IsAudited sha256 pc i s a
  execute-IsAudited Opcode.reject pc i s a = reject-IsAudited sha256 pc i s a
  execute-IsAudited Opcode.quarantine pc i s a = quarantine-IsAudited sha256 pc i s a
  execute-IsAudited Opcode.log_receipt pc i s a = Audit-log sha256 a _
  execute-IsAudited Opcode.emit_receipt pc i s a = Audit-log sha256 a _
  execute-IsAudited Opcode.declare_basis pc i s a = declare_basis-IsAudited sha256 pc i s a
  execute-IsAudited Opcode.load_coefficients pc i s a = load_coefficients-IsAudited sha256 pc i s a
  execute-IsAudited Opcode.synthesize pc i s a = synthesize-IsAudited sha256 pc i s a
  execute-IsAudited Opcode.verify_hash pc i s a = verify_hash-IsAudited sha256 pc i s a
  execute-IsAudited Opcode.accept_data pc i s a = accept_data-IsAudited sha256 pc i s a
  execute-IsAudited Opcode.reject_data pc i s a = reject_data-IsAudited sha256 pc i s a
  execute-IsAudited Opcode.store_residual pc i s a = store_residual-IsAudited sha256 pc i s a
  execute-IsAudited Opcode.apply_residual pc i s a = apply_residual-IsAudited sha256 pc i s a

  step-IsAudited :
      (pc : ℕ) (i : Instruction) (s : VmState)
      → IsAudited sha256 s
      → Always (IsAudited sha256) (step sha256 pc i s)
  unfolding step
  step-IsAudited pc i s a = search (outcome_rules, execute-IsAudited)

  initial-IsAudited : (manifest : Manifest) → IsAudited sha256 (initial manifest)
  unfolding member
  initial-IsAudited manifest = record {
    claims_named = λ id c e. absurd (ground (arith, Dict.get-empty {V = Claim} id));
    results_logged = λ id e. absurd (ground (arith, Dict.get-empty {V = Status} id));
    accepted_logged = λ id e. cc;
    blocks_named = λ id b e. absurd (ground (arith, Dict.get-empty {V = DataBlock} id));
    hashes_logged = λ id e. absurd (ground (arith, Dict.get-empty {V = Status} id));
    accepted_data_logged = λ id e. cc;
  }

  -- A step keeps the account, and the manifest.
  abbrev IsAccounted : Manifest → VmState → Type 0
  IsAccounted manifest s = IsAudited sha256 s × HasManifest manifest s

  run-IsAccounted :
      (manifest : Manifest) (is : List Instruction)
      → Always (IsAccounted manifest) (run sha256 manifest is)
  unfolding run
  run-IsAccounted manifest is =
      run_from-kept sha256 (IsAccounted manifest)
        (λ pc i s h.
          Always-both (IsAudited sha256) (HasManifest manifest) (step sha256 pc i s)
            (step-IsAudited pc i s h.0) (step-HasManifest manifest sha256 pc i s h.1))
        (λ pc s h. (Audit-log sha256 h.0 _, h.1)) is 0 (initial manifest)
        (initial-IsAudited manifest, refl)

  -- Whatever the program and the manifest, and however the run ends, each accepted claim is a claim
  -- of this manifest for which the ledger holds a VERIFY that answered verified, and each accepted
  -- data block is a block of it for which the ledger holds a VERIFY_HASH of bytes with the hash of
  -- one of its constants.
  pub run-IsAudited :
      (manifest : Manifest) (is : List Instruction)
      → Always
          (λ s.
            ((id : ℕ)
              → member id s.accepted_claims ≡ true
              → IsClaimVerified manifest s.receipt_ledger id)
            × ((id : ℕ)
                → member id s.accepted_data_blocks ≡ true
                → IsHashVerified sha256 manifest s.receipt_ledger id))
          (run sha256 manifest is)
  run-IsAudited manifest is =
      Always-map (IsAccounted manifest) _ (run sha256 manifest is)
        (λ s a. (
          λ id h. subst (λ m. IsClaimVerified m s.receipt_ledger id) a.1 (a.0.accepted_logged id h),
          λ id h.
              subst (λ m. IsHashVerified sha256 m s.receipt_ledger id) a.1
                (a.0.accepted_data_logged id h),
        ))
        (run-IsAccounted manifest is)
