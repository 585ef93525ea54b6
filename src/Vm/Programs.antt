-- ===== src/Vm/Programs.antt =====
-- BOGVM on whole programs.
use bogbin.Common.{ℕ, true, List, [], ◌∷◌, String, refl, ◌≡◌}
use bogbin.Common.Dict
use bogbin.Instruction.{Instruction, op_names, support, scale}
use bogbin.Vm.State.{Manifest, raised, VmState, Outcome, next, halted, member}
use bogbin.Vm.{run_from, finish, step, execute, run}
use bogbin.Vm.Graph.{create_node, create_edge, create_claim}
use bogbin.Vm.Claims.{verify, accept, accept_by, verify_claim, support_path_exists}
use bogbin.Common.{zero, suc, map}
use bogbin.Bases.{find_basis, synthesize_basis, generate, sample}
use bogbin.Vm.Blocks.{
  declare_basis, load_coefficients, synthesize, verify_hash, store_residual, apply_residual,
  accept_data,
}
use bogbin.Vm.State.{add_sorted}
use bogbin.Vm.Audit.{IsClaimVerified, IsHashVerified}
use bogbin.Vm.Audit.Steps.{run-IsAudited}
use bogbin.Vm.Outcomes.{Always}

abbrev pub no_hash : List ℕ → String
no_hash bytes = "none"

abbrev pub op : ℕ → ℕ → ℕ → ℕ → ℕ → Instruction
op opcode flags target source param = record {
  opcode = opcode;
  flags = flags;
  target = target;
  source = source;
  param = param;
}

-- A hash that tells the byte 0 from the others.
abbrev first_byte : List ℕ → String
first_byte [] = "none"
first_byte (zero ∷ bytes) = "zero"
first_byte (suc n ∷ bytes) = "other"

-- Two nodes, a claim and a data block.
abbrev full_manifest : Manifest
full_manifest = record {
  nodes = (1, "a") ∷ (2, "b") ∷ [];
  claims = (7, "a supports b") ∷ [];
  data_blocks = (5, "block") ∷ [];
  constants = (1, "zero_block") ∷ (2, "zero") ∷ [];
}

-- A support edge from 1 to 2 and a claim on it, VERIFY and ACCEPT; then a block of one byte, its
-- VERIFY_HASH and ACCEPT_DATA.
abbrev accepting : List Instruction
accepting =
    op 2 0 1 0 0
    ∷ op 2 0 2 0 0
    ∷ op 3 1 2 1 2
    ∷ op 4 0 7 1 2
    ∷ op 10 0 7 0 0
    ∷ op 11 0 7 0 0
    ∷ op 16 0 1 0 0
    ∷ op 17 0 5 0 1
    ∷ op 18 0 5 0 0
    ∷ op 19 0 5 2 0
    ∷ op 20 0 5 0 0
    ∷ op 1 0 0 0 0
    ∷ []

abbrev pub after : Outcome → VmState
after (next s) = s
after (halted s) = s
after (raised fault s) = s

accepting_accepts :
    (run first_byte full_manifest accepting
      ≡ halted (after (run first_byte full_manifest accepting)))
    × ((after (run first_byte full_manifest accepting)).accepted_claims ≡ 7 ∷ [])
    × ((after (run first_byte full_manifest accepting)).accepted_data_blocks ≡ 5 ∷ [])
unfolding run run_from finish step execute op_names Dict.get Dict.put create_node create_edge
    create_claim verify verify_claim support_path_exists accept accept_by declare_basis
    load_coefficients synthesize verify_hash accept_data find_basis synthesize_basis generate sample
    add_sorted
accepting_accepts = (refl, refl, refl)

run-IsAudited_example :
    Always
      (λ s.
        ((id : ℕ)
          → member id s.accepted_claims ≡ true
          → IsClaimVerified full_manifest s.receipt_ledger id)
        × ((id : ℕ)
            → member id s.accepted_data_blocks ≡ true
            → IsHashVerified first_byte full_manifest s.receipt_ledger id))
      (run first_byte full_manifest accepting)
run-IsAudited_example = run-IsAudited first_byte full_manifest accepting

abbrev four_nodes : Manifest
four_nodes = record {
  nodes = (1, "a") ∷ (2, "b") ∷ (3, "c") ∷ (4, "d") ∷ [];
  claims = (7, "a supports d") ∷ [];
  data_blocks = [];
  constants = [];
}

-- Edge 1 is created from 1 to 2, and then again from 3 to 4: the claim from 1 to 4 is verified and
-- accepted on the entry that the first one has left at node 1.
abbrev stale_edge : List Instruction
stale_edge =
    op 2 0 1 0 0
    ∷ op 2 0 2 0 0
    ∷ op 2 0 3 0 0
    ∷ op 2 0 4 0 0
    ∷ op 3 1 1 1 2
    ∷ op 3 1 1 3 4
    ∷ op 4 0 7 1 4
    ∷ op 10 0 7 0 0
    ∷ op 11 0 7 0 0
    ∷ op 1 0 0 0 0
    ∷ []

stale_accepted :
    ((after (run no_hash four_nodes stale_edge)).accepted_claims ≡ 7 ∷ [])
    × ((after (run no_hash four_nodes stale_edge)).edge_table
        ≡ (1, record { source = 3; target = 4; type = support; weight = scale }) ∷ [])
unfolding run run_from finish step execute op_names Dict.get Dict.put create_node create_edge
    create_claim verify verify_claim support_path_exists accept accept_by add_sorted
stale_accepted = (refl, refl)

abbrev one_block : Manifest
one_block = record {
  nodes = [];
  claims = [];
  data_blocks = (5, "block") ∷ [];
  constants = (1, "zero_block") ∷ (2, "zero") ∷ [];
}

-- A block of one byte is synthesized and its hash verified; then a residual is stored and applied,
-- and the block accepted without another VERIFY_HASH.
abbrev patched_after_verify : List Instruction
patched_after_verify =
    op 16 0 1 0 0
    ∷ op 17 0 5 0 1
    ∷ op 18 0 5 0 0
    ∷ op 19 0 5 2 0
    ∷ op 21 0 5 0 9
    ∷ op 22 0 5 0 0
    ∷ op 20 0 5 0 0
    ∷ op 1 0 0 0 0
    ∷ []

accepted_unhashed :
    ((after (run first_byte one_block patched_after_verify)).accepted_data_blocks ≡ 5 ∷ [])
    × (map
          (λ entry. entry.1.bytes)
          (after (run first_byte one_block patched_after_verify)).data_blocks
        ≡ (9 ∷ []) ∷ [])
unfolding run run_from finish step execute op_names Dict.get Dict.put declare_basis
    load_coefficients synthesize verify_hash store_residual apply_residual accept_data find_basis
    synthesize_basis generate sample add_sorted
accepted_unhashed = (refl, refl)
