-- ===== src/Vm/Claims.antt =====
-- bogvm/vm.py: the instructions on claims, and the search for a support path.
use bogbin.Common.{
  ℕ, zero, suc, ◌+◌, ◌*◌, ◌/◌, min, Bool, ◌&&◌, not, Option, none, some, List, [], ◌∷◌, ◌++◌,
  String, leb, ltb, ◌==◌, if◌then◌else◌, option_case, result_case, length, Result, ok, err, ◌>>=◌,
}
use bogbin.Common.Int.{sub_ℕ}
use bogbin.Common.Dict
use bogbin.Common.Dict.{Dict}
use bogbin.Common.Sorting.{sort}
use bogbin.Instruction.{Instruction, support, conflict, scale}
use bogbin.Vm.Propagation.{same_type}
use bogbin.Vm.State.{
  VmState, Edge, Pressure, Status, verified, rejected, abstained, Outcome, next, raised, Fault,
  vm_error, key_error, accept_without_verify, log, Event, member, add_sorted,
}

-- `self.state.claim_name(id)` in the arguments of `log`: a KeyError leaves what was written.
abbrev pub log_claim : ℕ → ℕ → (String → Event) → VmState → Outcome
log_claim pc id event s =
    option_case (Dict.get id s.claim_table) (raised (key_error id) s)
      (λ claim. next (log pc (event claim.name) s))

-- The loop of INTERFERE over the incoming edges.
unfoldable pub conflict_on : Dict Edge → Dict ℕ → List ℕ → ℕ → Result Fault ℕ
conflict_on edges activation [] pressure = ok pressure
conflict_on edges activation (e ∷ es) pressure = elim (Dict.get e edges) [
  | none ↦ err (key_error e)
  | some edge ↦ conflict_on edges activation es (elim edge.type [
    | support ↦ pressure
    | conflict ↦ pressure + Dict.get_or edge.source 0 activation * edge.weight / scale
  ])
]

-- INTERFERE
unfoldable pub interfere : ℕ → Instruction → VmState → Outcome
unfolding conflict_on sort
interfere pc i s =
    option_case (Dict.get i.target s.claim_table) (raised (key_error i.target) s) (λ claim.
      let support_pressure = Dict.get_or claim.target 0 s.activation_current in
      result_case
        (conflict_on s.edge_table s.activation_current
          (sort leb (Dict.get_or claim.target [] s.adjacency_in)) 0)
        (λ fault. raised fault s)
        (λ conflict_pressure.
          let net_pressure = sub_ℕ support_pressure conflict_pressure in
          let tension = min support_pressure conflict_pressure in
          let pressure : Pressure = record {
            support_pressure = support_pressure;
            conflict_pressure = conflict_pressure;
            net_pressure = net_pressure;
          } in
          next (
            log pc
              (Event.interfere claim.name support_pressure conflict_pressure net_pressure tension)
              (record s {
                pressure_current = Dict.put i.target pressure s.pressure_current;
                tension_current = Dict.put i.target tension s.tension_current;
              }))))

-- COMPUTE_TENSION. The tension is stored also for a claim that does not exist.
unfoldable pub compute_tension : ℕ → Instruction → VmState → Outcome
compute_tension pc i s =
    let tension : ℕ = elim (Dict.get i.target s.pressure_current) [
      | none ↦ 0
      | some pressure ↦ min pressure.support_pressure pressure.conflict_pressure
    ] in
    log_claim pc i.target (λ name. Event.compute_tension name tension)
      (record s { tension_current = Dict.put i.target tension s.tension_current })

-- What the search for a path answers. `out_of_fuel` is no answer of the source.
pub data Search : Type 0 where
  found not_found out_of_fuel : Search
  missing_edge : ℕ → Search

-- `edge["type"] == "support" and edge["target"] not in visited`
unfoldable pub is_new_target : List ℕ → Edge → Bool
unfolding member
is_new_target visited edge = same_type edge.type support && not (member edge.target visited)

-- The loop over the edges of one node: the targets that are appended to the queue.
unfoldable pub support_targets : Dict Edge → List ℕ → List ℕ → Result ℕ (List ℕ)
unfolding is_new_target
support_targets edges visited [] = ok []
support_targets edges visited (e ∷ es) = option_case (Dict.get e edges) (err e) (λ edge. do
  rest ← support_targets edges visited es
  ok (if is_new_target visited edge then edge.target ∷ rest else rest))

-- `while queue`, with fuel
unfoldable pub search_path : ℕ → VmState → ℕ → List ℕ → List ℕ → Search
unfolding support_targets member sort
search_path fuel s target [] visited = not_found
search_path zero s target (node ∷ queue) visited = out_of_fuel
search_path (suc fuel) s target (node ∷ queue) visited =
    let skip = search_path fuel s target queue visited in
    let go : Search =
      elim (support_targets s.edge_table (node ∷ visited)
        (sort leb (Dict.get_or node [] s.adjacency_out))) [
          | err e ↦ missing_edge e
          | ok targets ↦ search_path fuel s target (queue ++ targets) (node ∷ visited)
        ] in
    if node == target then found else if member node visited then skip else go

-- How many edges the adjacency lists hold.
unfoldable pub out_degrees : Dict (List ℕ) → ℕ
out_degrees [] = 0
out_degrees ((k, es) ∷ d) = length es + out_degrees d

-- `_support_path_exists`. Each round takes an entry off the queue, and at most one entry for each
-- adjacent edge is ever put there.
unfoldable pub support_path_exists : VmState → ℕ → ℕ → Search
unfolding search_path out_degrees
support_path_exists s source target =
    search_path (suc (out_degrees s.adjacency_out)) s target (source ∷ []) []

-- `_verify_claim`
unfoldable pub verify_claim : VmState → ℕ → Result Fault Status
verify_claim s id = elim (Dict.get id s.claim_table) [
  | none ↦ err (key_error id)
  | some claim ↦
      let conflict_pressure : ℕ = elim (Dict.get id s.pressure_current) [
        | none ↦ 0
        | some pressure ↦ pressure.conflict_pressure
      ] in
      if ltb 0 conflict_pressure
      then ok rejected
      else elim (support_path_exists s claim.source claim.target) [
        | found ↦ ok verified
        | not_found ↦ ok abstained
        | out_of_fuel ↦ ok abstained
        | missing_edge e ↦ err (key_error e)
      ]
]

-- VERIFY
unfoldable pub verify : ℕ → Instruction → VmState → Outcome
unfolding verify_claim support_path_exists
verify pc i s =
    result_case (verify_claim s i.target) (λ fault. raised fault s)
      (λ status.
        log_claim pc i.target (λ name. Event.verify name status)
          (record s { verifier_results = Dict.put i.target status s.verifier_results }))

-- `_repair_rejected_claim`
unfoldable pub repair_rejected_claim : ℕ → ℕ → VmState → Outcome
unfolding add_sorted
repair_rejected_claim pc id s =
    let support_pressure : ℕ = elim (Dict.get id s.pressure_current) [
      | none ↦ 0
      | some pressure ↦ pressure.support_pressure
    ] in
    let conflict_pressure : ℕ = elim (Dict.get id s.pressure_current) [
      | none ↦ 0
      | some pressure ↦ pressure.conflict_pressure
    ] in
    log_claim pc id (λ name. Event.repair_contradiction name support_pressure conflict_pressure)
      (record s {
        rejected_claims = add_sorted id s.rejected_claims;
        quarantined_claims = add_sorted id s.quarantined_claims;
      })

-- The last two branches of ACCEPT; the text of the VMError needs the claim's name.
unfoldable pub accept_unverified : ℕ → VmState → Outcome
accept_unverified id s =
    option_case (Dict.get id s.claim_table) (raised (key_error id) s)
      (λ claim. raised (vm_error (accept_without_verify claim.name)) s)

-- The branches of ACCEPT, by `verifier_results.get(id)`.
unfoldable pub accept_by : Option Status → ℕ → ℕ → VmState → Outcome
unfolding repair_rejected_claim accept_unverified add_sorted
accept_by (some rejected) pc id s = repair_rejected_claim pc id s
accept_by (some verified) pc id s =
    log_claim pc id (λ name. Event.accept name)
      (record s { accepted_claims = add_sorted id s.accepted_claims })
accept_by _ pc id s = accept_unverified id s

-- ACCEPT
unfoldable pub accept : ℕ → Instruction → VmState → Outcome
unfolding accept_by
accept pc i s = accept_by (Dict.get i.target s.verifier_results) pc i.target s

-- REJECT
unfoldable pub reject : ℕ → Instruction → VmState → Outcome
unfolding add_sorted
reject pc i s =
    log_claim pc i.target (λ name. Event.reject name)
      (record s { rejected_claims = add_sorted i.target s.rejected_claims })

-- QUARANTINE
unfoldable pub quarantine : ℕ → Instruction → VmState → Outcome
unfolding add_sorted
quarantine pc i s =
    log_claim pc i.target (λ name. Event.quarantine name)
      (record s { quarantined_claims = add_sorted i.target s.quarantined_claims })
