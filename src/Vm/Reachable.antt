-- ===== src/Vm/Reachable.antt =====
-- bogvm/vm.py: the states that a program can reach, and their tables.
use bogbin.Common.{
  ℕ, ◌==◌, ==_iff, true, false, Option, none, some, List, [], ◌∷◌, ◌++◌, String, ◌≡◌, sym, subst,
  ◌∙◌, arith, ◌⊎◌, inl, inr, if◌then◌else◌, Bool-cases, leb,
}
use bogbin.Common.Dict
use bogbin.Common.Dict.{Dict}
use bogbin.Common.Sorting.{sort}
use bogbin.Instruction.{Instruction, Opcode}
use bogbin.Vm.State.{
  VmState, Manifest, Edge, Status, verified, rejected, abstained, next, initial, member,
}
use bogbin.Vm.Members.{member-sorted}
use bogbin.Vm.Outcomes.{Always, outcome_rules}
use bogbin.Vm.Graph.{create_node, create_edge, create_claim, activate, add_edge, add_adjacent}
use bogbin.Vm.Propagation.{propagate, decay}
use bogbin.Vm.Claims.{
  interfere, compute_tension, verify, accept, accept_by, reject, quarantine, accept_unverified,
  repair_rejected_claim,
}
use bogbin.Vm.Blocks.{
  declare_basis, load_coefficients, synthesize, verify_hash, accept_data, reject_data,
  store_residual, apply_residual,
}
use bogbin.Vm.{execute, step}

-- The edge ids of the adjacency lists are in the edge table, and the ends of the edges in the node
-- table.
pub record Linked (nodes : Dict String) (edges : Dict Edge) (out : Dict (List ℕ))
    (into : Dict (List ℕ)) : Type 0 where
  pub out_known :
      (v e : ℕ)
      → member e (Dict.get_or v [] out) ≡ true
      → (edge : Edge) × (Dict.get e edges ≡ some edge)
  pub into_known :
      (v e : ℕ)
      → member e (Dict.get_or v [] into) ≡ true
      → (edge : Edge) × (Dict.get e edges ≡ some edge)
  pub ends_known :
      (e : ℕ) (edge : Edge)
      → Dict.get e edges ≡ some edge
      → (Dict.contains edge.source nodes ≡ true) × (Dict.contains edge.target nodes ≡ true)

abbrev pub IsWired : VmState → Type 0
IsWired s = Linked s.node_table s.edge_table s.adjacency_out s.adjacency_in

module _ {nodes : Dict String} {edges : Dict Edge} {out into : Dict (List ℕ)}
    (l : Linked nodes edges out into) where
  -- CREATE_NODE
  Linked-node : (id : ℕ) (name : String) → Linked (Dict.put id name nodes) edges out into
  Linked-node id name = record {
    out_known = l.out_known;
    into_known = l.into_known;
    ends_known = λ e edge h.
        let (a, b) = l.ends_known e edge h in
        (
          Dict.contains-put id edge.source name nodes a,
          Dict.contains-put id edge.target name nodes b,
        );
  }

  -- An edge that is known stays known when one is put beside it.
  still_known :
      (id e : ℕ) (edge : Edge)
      → (x : Edge) × (Dict.get e edges ≡ some x)
      → (x : Edge) × (Dict.get e (Dict.put id edge edges) ≡ some x)
  still_known id e edge (x, h) = elim (Bool-cases (id == e)) [
    | inl same ↦ (edge, ground (arith, Dict.get-put id e edge edges))
    | inr other ↦ (x, ground (arith, Dict.get-put id e edge edges))
  ]

pub member-snoc :
    (e id : ℕ) (l : List ℕ) → member e (l ++ (id ∷ [])) ≡ true → (id ≡ e) ⊎ (member e l ≡ true)
unfolding member
member-snoc e id [] h = ground arith
member-snoc e id (x ∷ l) h = ground (arith, member-snoc e id l)

pub get_or-add_adjacent :
    (node id v : ℕ) (adjacency : Dict (List ℕ))
    → Dict.get_or v [] (add_adjacent node id adjacency) ≡ (
        if node == v
        then sort leb (Dict.get_or node [] adjacency ++ (id ∷ []))
        else Dict.get_or v [] adjacency)
unfolding add_adjacent
get_or-add_adjacent node id v adjacency =
    ground
      (arith, Dict.get-put node v (sort leb (Dict.get_or node [] adjacency ++ (id ∷ []))) adjacency)

-- What an adjacency list holds after an edge is added.
add_adjacent-member :
    (node id v e : ℕ) (adjacency : Dict (List ℕ))
    → member e (Dict.get_or v [] (add_adjacent node id adjacency)) ≡ true
    → (id ≡ e) ⊎ (member e (Dict.get_or v [] adjacency) ≡ true)
add_adjacent-member node id v e adjacency h = elim (Bool-cases (node == v)) [
  | inl same ↦
      let p : node ≡ v = (==_iff node v).0 same in
      subst (λ n. (id ≡ e) ⊎ (member e (Dict.get_or n [] adjacency) ≡ true)) p
        (member-snoc e id (Dict.get_or node [] adjacency) (at_node same))
  | inr other ↦ inr (elsewhere other)
]
  where
    at_node : (node == v) ≡ true → member e (Dict.get_or node [] adjacency ++ (id ∷ [])) ≡ true
    at_node t =
        sym (member-sorted e (Dict.get_or node [] adjacency ++ (id ∷ [])))
        ∙ (rw (get_or-add_adjacent, t) at h)

    elsewhere : (node == v) ≡ false → member e (Dict.get_or v [] adjacency) ≡ true
    elsewhere t = rw (get_or-add_adjacent, t) at h

module _ {nodes : Dict String} {edges : Dict Edge} {out into : Dict (List ℕ)}
    (l : Linked nodes edges out into) where
  -- CREATE_EDGE
  Linked-edge :
      (id : ℕ) (edge : Edge) (source_name target_name : String)
      → Dict.get edge.source nodes ≡ some source_name
      → Dict.get edge.target nodes ≡ some target_name
      → Linked nodes
          (Dict.put id edge edges)
          (add_adjacent edge.source id out)
          (add_adjacent edge.target id into)
  Linked-edge id edge source_name target_name s t = record {
    out_known = λ v e h. elim (add_adjacent-member edge.source id v e out h) [
      | inl new ↦
          subst (λ j. (x : Edge) × (Dict.get j (Dict.put id edge edges) ≡ some x)) new
            (edge, Dict.get-put_self id edge edges)
      | inr old ↦ still_known l id e edge (l.out_known v e old)
    ];
    into_known = λ v e h. elim (add_adjacent-member edge.target id v e into h) [
      | inl new ↦
          subst (λ j. (x : Edge) × (Dict.get j (Dict.put id edge edges) ≡ some x)) new
            (edge, Dict.get-put_self id edge edges)
      | inr old ↦ still_known l id e edge (l.into_known v e old)
    ];
    ends_known = λ e x h. elim (Bool-cases (id == e)) [
      | inl same ↦
          let p : edge ≡ x = ground (arith, Dict.get-put id e edge edges) in
          subst
            (λ (y : Edge).
              (Dict.contains y.source nodes ≡ true) × (Dict.contains y.target nodes ≡ true))
            p (rw (s, Dict.contains), rw (t, Dict.contains))
      | inr other ↦ l.ends_known e x (ground (arith, Dict.get-put id e edge edges))
    ];
  }

ruleset wired_rules = (outcome_rules, Linked-node, Linked-edge)

module _ (sha256 : List ℕ → String) (pc : ℕ) (i : Instruction) (s : VmState) (l : IsWired s) where
  accept_by-IsWired : (o : Option Status) (id : ℕ) → Always IsWired (accept_by o pc id s)
  unfolding accept_by repair_rejected_claim accept_unverified
  accept_by-IsWired none id = search wired_rules
  accept_by-IsWired (some verified) id = search wired_rules
  accept_by-IsWired (some rejected) id = search wired_rules
  accept_by-IsWired (some abstained) id = search wired_rules

  execute-IsWired : (op : Opcode) → Always IsWired (execute sha256 op pc i s)
  unfolding execute accept create_node create_edge add_edge create_claim activate propagate decay
      interfere compute_tension verify reject quarantine declare_basis load_coefficients synthesize
      verify_hash accept_data reject_data store_residual apply_residual
  execute-IsWired Opcode.noop = l
  execute-IsWired Opcode.accept = accept_by-IsWired _ i.target
  execute-IsWired Opcode.create_edge = search wired_rules depth 9
  execute-IsWired _ = search wired_rules depth 9

-- A state that a program of the manifest can reach without halting or raising.
pub data Reachable (sha256 : List ℕ → String) (manifest : Manifest) : VmState → Type 0 where
  start : (s : VmState) → s ≡ initial manifest → Reachable sha256 manifest s
  go :
      {s t : VmState} (pc : ℕ) (i : Instruction)
      → Reachable sha256 manifest s
      → step sha256 pc i s ≡ next t
      → Reachable sha256 manifest t

step-IsWired :
    (sha256 : List ℕ → String) (pc : ℕ) (i : Instruction) (s : VmState)
    → IsWired s
    → Always IsWired (step sha256 pc i s)
unfolding step
step-IsWired sha256 pc i s l = search (outcome_rules, execute-IsWired)

initial-IsWired : (manifest : Manifest) → IsWired (initial manifest)
unfolding member Dict.get
initial-IsWired manifest = record {
  out_known = λ v e h. cc;
  into_known = λ v e h. cc;
  ends_known = λ e edge h. absurd (ground arith);
}

-- In every state that a program can reach, the edges of the adjacency lists are in the edge table,
-- and the ends of every edge in the node table.
pub Reachable-IsWired :
    (sha256 : List ℕ → String) (manifest : Manifest) {s : VmState}
    → Reachable sha256 manifest s
    → IsWired s
Reachable-IsWired sha256 manifest (start s e) = subst IsWired (sym e) (initial-IsWired manifest)
Reachable-IsWired sha256 manifest (go {s = s} pc i r e) =
    subst (Always IsWired) e (step-IsWired sha256 pc i s (Reachable-IsWired sha256 manifest r))
