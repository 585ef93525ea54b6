-- ===== src/Vm/Graph.antt =====
-- bogvm/vm.py: the instructions that build the graph and set activations.
use bogbin.Common.{ℕ, List, [], ◌∷◌, ◌++◌, leb, if◌then◌else◌, option_case}
use bogbin.Common.Dict
use bogbin.Common.Dict.{Dict}
use bogbin.Common.Sorting.{sort}
use bogbin.Instruction.{Instruction, edge_type_names, scale}
use bogbin.Vm.State.{
  VmState, Edge, Claim, Outcome, next, raised, vm_error, key_error, log, Event, missing_node_symbol,
  create_edge_unknown_node, unknown_edge_type, missing_claim_symbol, activate_unknown_node,
  activation_range,
}

-- CREATE_NODE
unfoldable pub create_node : ℕ → Instruction → VmState → Outcome
create_node pc i s =
    option_case (Dict.get i.target s.manifest.nodes)
      (raised (vm_error (missing_node_symbol i.target)) s)
      (λ name. next (
        log pc (Event.create_node i.target name)
          (record s { node_table = Dict.put i.target name s.node_table })))

-- `adjacency[node].append(edge_id); adjacency[node].sort()` on a defaultdict
unfoldable pub add_adjacent : ℕ → ℕ → Dict (List ℕ) → Dict (List ℕ)
unfolding sort
add_adjacent node edge_id adjacency =
    Dict.put node (sort leb (Dict.get_or node [] adjacency ++ (edge_id ∷ []))) adjacency

-- The tables after CREATE_EDGE.
unfoldable pub add_edge : ℕ → Edge → VmState → VmState
unfolding add_adjacent
add_edge edge_id edge s = record s {
  edge_table = Dict.put edge_id edge s.edge_table;
  adjacency_out = add_adjacent edge.source edge_id s.adjacency_out;
  adjacency_in = add_adjacent edge.target edge_id s.adjacency_in;
}

-- CREATE_EDGE
unfoldable pub create_edge : ℕ → Instruction → VmState → Outcome
unfolding add_edge edge_type_names
create_edge pc i s =
    option_case (Dict.get i.source s.node_table) (raised (vm_error create_edge_unknown_node) s)
      (λ source_name.
        option_case (Dict.get i.param s.node_table) (raised (vm_error create_edge_unknown_node) s)
          (λ target_name.
            option_case (edge_type_names i.flags) (raised (vm_error (unknown_edge_type i.flags)) s)
              (λ edge_type. next (
                log pc (Event.create_edge i.target source_name target_name edge_type) (
                  add_edge i.target
                    (record {
                      source = i.source;
                      target = i.param;
                      type = edge_type;
                      weight = scale;
                    })
                    s)))))

-- CREATE_CLAIM. The claim is stored before the names of its nodes are looked up for the log.
unfoldable pub create_claim : ℕ → Instruction → VmState → Outcome
create_claim pc i s =
    option_case (Dict.get i.target s.manifest.claims)
      (raised (vm_error (missing_claim_symbol i.target)) s)
      (λ name.
        let claim : Claim = record { name = name; source = i.source; target = i.param } in
        let s' : VmState = record s { claim_table = Dict.put i.target claim s.claim_table } in
        option_case (Dict.get i.source s.node_table) (raised (key_error i.source) s')
          (λ source_name.
            option_case (Dict.get i.param s.node_table) (raised (key_error i.param) s')
              (λ target_name.
                next (log pc (Event.create_claim i.target name source_name target_name) s'))))

-- ACTIVATE
unfoldable pub activate : ℕ → Instruction → VmState → Outcome
activate pc i s =
    option_case (Dict.get i.target s.node_table) (raised (vm_error activate_unknown_node) s)
      (λ name.
        if leb i.param scale
        then next (
            log pc (Event.activate name i.param)
              (record s { activation_current = Dict.put i.target i.param s.activation_current }))
        else raised (vm_error activation_range) s)
