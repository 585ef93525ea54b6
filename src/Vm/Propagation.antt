-- ===== src/Vm/Propagation.antt =====
-- bogvm/vm.py: PROPAGATE and DECAY, the instructions that spread and fade activations.
use bogbin.Common.{
  ℕ, zero, suc, ◌+◌, ◌*◌, ◌/◌, max, Bool, true, false, ◌&&◌, not, none, some, List, [], ◌∷◌, String,
  ◌⊎◌, inl, inr, leb, ltb, ◌==◌, if◌then◌else◌, option_case, result_case, Result, ok, err, ◌>>=◌,
}
use bogbin.Common.Dict
use bogbin.Common.Dict.{Dict}
use bogbin.Common.Sorting.{sort}
use bogbin.Instruction.{Instruction, EdgeType, support, conflict, edge_type_names, scale}
use bogbin.Vm.State.{
  VmState, Edge, Outcome, next, raised, Fault, vm_error, key_error, log, Event, add_sorted,
  unknown_propagation_type, energy_limit, decay_range,
}

abbrev pub max_energy : ℕ
max_energy = 1_000_000_000

-- `edge["type"] == edge_type`
abbrev pub same_type : EdgeType → EdgeType → Bool
same_type support support = true
same_type conflict conflict = true
same_type _ _ = false

-- The variables of one tick. `reached` is a set, kept sorted.
pub record Wave : Type 0 where
  pub total_energy : ℕ
  pub scratch : Dict ℕ
  pub reached : List ℕ

-- The loop body over the edges of one node.
unfoldable pub spread_edge : Dict Edge → EdgeType → ℕ → ℕ → Wave → Result Fault Wave
unfolding add_sorted
spread_edge edges edge_type activation edge_id w = elim (Dict.get edge_id edges) [
  | none ↦ err (key_error edge_id)
  | some edge ↦
      let next_value = activation * edge.weight / scale in
      let total = w.total_energy + next_value in
      if same_type edge.type edge_type && not (next_value == 0)
      then if ltb max_energy total
        then err (vm_error energy_limit)
        else ok (record {
          total_energy = total;
          scratch =
              Dict.put edge.target (Dict.get_or edge.target 0 w.scratch + next_value) w.scratch;
          reached = add_sorted edge.target w.reached;
        })
      else ok w
]

unfoldable pub spread_edges : Dict Edge → EdgeType → ℕ → List ℕ → Wave → Result Fault Wave
unfolding spread_edge
spread_edges edges edge_type activation [] w = ok w
spread_edges edges edge_type activation (e ∷ es) w = do
  w' ← spread_edge edges edge_type activation e w
  spread_edges edges edge_type activation es w'

-- `for node_id in sorted(frontier.keys())`, on the sorted keys
unfoldable pub spread_nodes : VmState → EdgeType → Dict ℕ → List ℕ → Wave → Result Fault Wave
unfolding spread_edges sort
spread_nodes s edge_type frontier [] w = ok w
spread_nodes s edge_type frontier (node ∷ nodes) w = do
  let activation = Dict.get_or node 0 frontier
  w' ←
      (if activation == 0
        then ok w
        else spread_edges s.edge_table edge_type activation
            (sort leb (Dict.get_or node [] s.adjacency_out)) w)
  spread_nodes s edge_type frontier nodes w'

-- `cumulative[node_id] = max(cumulative.get(node_id, 0), scratch[node_id])`
unfoldable pub raise_to : Dict ℕ → List ℕ → Dict ℕ → Dict ℕ
raise_to scratch [] cumulative = cumulative
raise_to scratch (node ∷ nodes) cumulative =
    raise_to scratch nodes
      (Dict.put node (max (Dict.get_or node 0 cumulative) (Dict.get_or node 0 scratch)) cumulative)

-- `for tick in range(n)`; the result has the cumulative activations, the energy and the set.
unfoldable pub ticks :
    ℕ → VmState → EdgeType → Dict ℕ → Dict ℕ → ℕ → List ℕ → Result Fault (Dict ℕ × ℕ × List ℕ)
unfolding spread_nodes raise_to
ticks zero s edge_type cumulative frontier energy reached = ok (cumulative, energy, reached)
ticks (suc n) s edge_type cumulative frontier energy reached = do
  w ←
      spread_nodes s edge_type frontier (sort leb (Dict.keys frontier))
        (record { total_energy = energy; scratch = []; reached = reached })
  ticks n s edge_type (raise_to w.scratch (sort leb (Dict.keys w.scratch)) cumulative) w.scratch
      w.total_energy w.reached

-- `[self.state.node_name(n) for n in nodes]`
unfoldable pub node_names : Dict String → List ℕ → Result Fault (List String)
node_names table [] = ok []
node_names table (n ∷ ns) = elim (Dict.get n table) [
  | none ↦ err (key_error n)
  | some name ↦ do names ← node_names table ns; ok (name ∷ names)
]

abbrev source_name : ℕ → Dict String → String ⊎ ℕ
source_name node table = elim (Dict.get node table) [ none ↦ inr node | some name ↦ inl name ]

-- PROPAGATE. The activations are stored before the names of the nodes are looked up for the log.
unfoldable pub propagate : ℕ → Instruction → VmState → Outcome
unfolding ticks node_names edge_type_names
propagate pc i s =
    option_case (edge_type_names i.flags) (raised (vm_error (unknown_propagation_type i.flags)) s)
      (λ edge_type.
        result_case
          (ticks i.param s edge_type s.activation_current
            ((i.source, Dict.get_or i.source 0 s.activation_current) ∷ []) 0 [])
          (λ fault. raised fault s)
          (λ (cumulative, energy, reached).
            let s' : VmState = record s { activation_current = cumulative } in
            result_case (node_names s.node_table reached) (λ fault. raised fault s')
              (λ names. next (
                log pc
                  (Event.propagate (source_name i.source s.node_table) edge_type i.param energy
                    names)
                  s'))))

-- The loop of DECAY, on the sorted keys.
unfoldable pub fade : ℕ → Dict ℕ → List ℕ → Dict ℕ → Dict ℕ
fade factor current [] decayed = decayed
fade factor current (node ∷ nodes) decayed =
    let value = Dict.get_or node 0 current * factor / scale in
    fade factor current nodes (if value == 0 then decayed else Dict.put node value decayed)

-- DECAY
unfoldable pub decay : ℕ → Instruction → VmState → Outcome
unfolding fade sort
decay pc i s =
    if leb i.param scale
    then next (
        log pc (Event.decay i.param) (record s {
          activation_current =
              fade i.param s.activation_current (sort leb (Dict.keys s.activation_current)) [];
        }))
    else raised (vm_error decay_range) s
