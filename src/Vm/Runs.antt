-- ===== src/Vm/Runs.antt =====
-- BOGVM on examples, one instruction at a time.
use bogbin.Common.{◌<◌, [], ◌∷◌, some, ok, refl, ◌≡◌, ◌⊎◌}
use bogbin.Common.Dict
use bogbin.Instruction.{op_names, support, scale}
use bogbin.Vm.State.{Manifest, VmState, Claim, verified, rejected, abstained, next, initial}
use bogbin.Vm.{step, execute}
use bogbin.Vm.Graph.{create_node, create_edge, create_claim}
use bogbin.Vm.Claims.{verify_claim, found, not_found, support_path_exists}
use bogbin.Vm.Chains.{Chain, IsEdge, IsComplete, IsCurrent, support_path_exists_decides}
use bogbin.Vm.Verified.{
  Orderly, IsFresh, Reachable-IsComplete, Orderly-IsCurrent, conflict_pressure_of,
  verify_claim_answers, verify_claim-Chain,
}
use bogbin.Vm.Reachable.{Reachable, start, go, IsWired, Reachable-IsWired}
use bogbin.Vm.Programs.{no_hash, op, after}

abbrev two_nodes : Manifest
two_nodes = record {
  nodes = (1, "a") ∷ (2, "b") ∷ [];
  claims = (7, "a supports b") ∷ [];
  data_blocks = [];
  constants = [];
}

-- The states before VERIFY.
abbrev at_start : VmState
at_start = initial two_nodes

abbrev first_node : VmState
first_node = after (step no_hash 0 (op 2 0 1 0 0) at_start)

abbrev second_node : VmState
second_node = after (step no_hash 1 (op 2 0 2 0 0) first_node)

abbrev with_edge : VmState
with_edge = after (step no_hash 2 (op 3 1 2 1 2) second_node)

abbrev with_claim : VmState
with_claim = after (step no_hash 3 (op 4 0 7 1 2) with_edge)

step_first : step no_hash 0 (op 2 0 1 0 0) at_start ≡ next first_node
unfolding step execute create_node op_names Dict.get Dict.put
step_first = refl

step_second : step no_hash 1 (op 2 0 2 0 0) first_node ≡ next second_node
unfolding step execute create_node op_names Dict.get Dict.put
step_second = refl

step_edge : step no_hash 2 (op 3 1 2 1 2) second_node ≡ next with_edge
unfolding step execute create_node create_edge op_names Dict.get Dict.put
step_edge = refl

step_claim : step no_hash 3 (op 4 0 7 1 2) with_edge ≡ next with_claim
unfolding step execute create_node create_edge create_claim op_names Dict.get Dict.put
step_claim = refl

with_claim-Reachable : Reachable no_hash two_nodes with_claim
with_claim-Reachable =
    go 3 (op 4 0 7 1 2)
      (go 2 (op 3 1 2 1 2)
        (go 1 (op 2 0 2 0 0) (go 0 (op 2 0 1 0 0) (start at_start refl) step_first) step_second)
        step_edge)
      step_claim

abbrev the_claim : Claim
the_claim = record { name = "a supports b"; source = 1; target = 2 }

the_claim_known : Dict.get 7 with_claim.claim_table ≡ some the_claim
unfolding step execute create_node create_edge create_claim op_names Dict.get Dict.put
the_claim_known = refl

claim_verified : verify_claim with_claim 7 ≡ ok verified
unfolding step execute create_node create_edge create_claim op_names Dict.get Dict.put verify_claim
    support_path_exists
claim_verified = refl

Reachable-IsWired_example : IsWired with_claim
Reachable-IsWired_example = Reachable-IsWired no_hash two_nodes with_claim-Reachable

-- The program gives no edge id to two edges.
no_edge_yet : IsFresh (op 3 1 2 1 2) second_node
unfolding step execute create_node op_names Dict.get Dict.put
no_edge_yet = λ h. refl

with_claim-Orderly : Orderly no_hash two_nodes with_claim
unfolding op_names Dict.get step execute create_node
with_claim-Orderly =
    Orderly.go 3 (op 4 0 7 1 2)
      (Orderly.go 2 (op 3 1 2 1 2)
        (Orderly.go 1 (op 2 0 2 0 0)
          (Orderly.go 0 (op 2 0 1 0 0) (Orderly.start at_start refl) (λ h. refl) step_first)
          (λ h. refl) step_second)
        no_edge_yet step_edge)
      (λ h. absurd cc) step_claim

with_claim-IsComplete : IsComplete with_claim
with_claim-IsComplete = Reachable-IsComplete no_hash two_nodes with_claim-Reachable

with_claim-IsCurrent : IsCurrent with_claim
with_claim-IsCurrent = Orderly-IsCurrent no_hash two_nodes with_claim-Orderly

support_path_exists_decides_example :
    ((support_path_exists with_claim 1 2 ≡ found) × Chain with_claim 1 2)
    ⊎ ((support_path_exists with_claim 1 2 ≡ not_found) × ¬ Chain with_claim 1 2)
support_path_exists_decides_example =
    support_path_exists_decides with_claim 1 2 with_claim-IsComplete with_claim-IsCurrent

verify_claim_answers_example :
    ((verify_claim with_claim 7 ≡ ok rejected) × (0 < conflict_pressure_of with_claim 7))
    ⊎ ((verify_claim with_claim 7 ≡ ok verified)
        × (conflict_pressure_of with_claim 7 ≡ 0)
        × Chain with_claim 1 2)
    ⊎ ((verify_claim with_claim 7 ≡ ok abstained)
        × (conflict_pressure_of with_claim 7 ≡ 0)
        × ¬ Chain with_claim 1 2)
verify_claim_answers_example =
    verify_claim_answers no_hash two_nodes with_claim 7 the_claim with_claim-Orderly the_claim_known

-- The edge from 1 to 2.
one-IsEdge : IsEdge with_claim 1 2
unfolding step execute create_node create_edge create_claim op_names Dict.get Dict.put
one-IsEdge =
    (2, record { source = 1; target = 2; type = support; weight = scale }, refl, refl, refl, refl)

no_pressure : conflict_pressure_of with_claim 7 ≡ 0
unfolding step execute create_node create_edge create_claim op_names Dict.get Dict.put
no_pressure = refl

verify_claim-Chain_example : verify_claim with_claim 7 ≡ ok verified
verify_claim-Chain_example =
    verify_claim-Chain no_hash two_nodes with_claim 7 the_claim with_claim-Reachable the_claim_known
      no_pressure (Chain.next Chain.here one-IsEdge)
