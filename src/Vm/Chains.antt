-- ===== src/Vm/Chains.antt =====
-- bogvm/vm.py: the chains of support edges of the edge table, and `_support_path_exists` against them.
use bogbin.Common.{
  ℕ, ◌==◌, ==_iff, true, none, some, List, [], ◌∷◌, ◌++◌, ◌≡◌, refl, sym, subst, ◌∙◌, arith, ◌⊎◌,
  inl, inr, Bool-cases, ap,
}
use bogbin.Common.Dict
use bogbin.Common.Dict.{Dict}
use bogbin.Instruction.{support}
use bogbin.Vm.State.{VmState, Edge, member}
use bogbin.Vm.Members.{member-sorted, member_head, member-append_left, member-append_right}
use bogbin.Vm.Graph.{add_adjacent}
use bogbin.Vm.Claims.{support_path_exists, found, not_found}
use bogbin.Vm.Support.{outgoing, Leads}
use bogbin.Vm.Support.Loop.{support_path_exists-Leads}
use bogbin.Vm.Reachable.{member-snoc, get_or-add_adjacent}

-- The edge table holds a support edge from one node to another.
abbrev pub IsEdge : VmState → ℕ → ℕ → Type 0
IsEdge s v w =
    (e : ℕ) × (edge : Edge) × (Dict.get e s.edge_table ≡ some edge)
    × (edge.type ≡ support)
    × (edge.source ≡ v)
    × (edge.target ≡ w)

-- A chain of support edges of the edge table.
pub data Chain (s : VmState) (a : ℕ) : ℕ → Type 0 where
  here : Chain s a a
  next : {v w : ℕ} → Chain s a v → IsEdge s v w → Chain s a w

-- Every edge of the table is listed at its source.
pub record Complete (edges : Dict Edge) (out : Dict (List ℕ)) : Type 0 where
  pub all_listed :
      (e : ℕ) (edge : Edge)
      → Dict.get e edges ≡ some edge
      → member e (Dict.get_or edge.source [] out) ≡ true

-- Every edge that is listed at a node is in the table and leaves this node.
pub record Current (edges : Dict Edge) (out : Dict (List ℕ)) : Type 0 where
  pub listed_leaves :
      (v e : ℕ)
      → member e (Dict.get_or v [] out) ≡ true
      → (edge : Edge) × (Dict.get e edges ≡ some edge) × (edge.source ≡ v)

abbrev pub IsComplete : VmState → Type 0
IsComplete s = Complete s.edge_table s.adjacency_out

abbrev pub IsCurrent : VmState → Type 0
IsCurrent s = Current s.edge_table s.adjacency_out

add_adjacent-keeps :
    (node id v e : ℕ) (adjacency : Dict (List ℕ))
    → member e (Dict.get_or v [] adjacency) ≡ true
    → member e (Dict.get_or v [] (add_adjacent node id adjacency)) ≡ true
add_adjacent-keeps node id v e adjacency h = elim (Bool-cases (node == v)) [
  | inl same ↦
      let p : node ≡ v = (==_iff node v).0 same in
      rw (get_or-add_adjacent, same)
        (member-sorted e (Dict.get_or node [] adjacency ++ (id ∷ []))
          ∙ member-append_left e (Dict.get_or node [] adjacency) (id ∷ [])
              (subst (λ n. member e (Dict.get_or n [] adjacency) ≡ true) (sym p) h))
  | inr other ↦ rw (get_or-add_adjacent, other) h
]

add_adjacent-new :
    (node id : ℕ) (adjacency : Dict (List ℕ))
    → member id (Dict.get_or node [] (add_adjacent node id adjacency)) ≡ true
add_adjacent-new node id adjacency =
    let same : (node == node) ≡ true = (==_iff node node).1 refl in
    rw (get_or-add_adjacent, same)
      (member-sorted id (Dict.get_or node [] adjacency ++ (id ∷ []))
        ∙ member-append_right id (Dict.get_or node [] adjacency) (id ∷ []) (member_head id []))

-- An entry is new, and then it stands at the node of the edge, or it was there before.
add_adjacent-exact :
    (node id v e : ℕ) (adjacency : Dict (List ℕ))
    → member e (Dict.get_or v [] (add_adjacent node id adjacency)) ≡ true
    → ((id ≡ e) × (node ≡ v)) ⊎ (member e (Dict.get_or v [] adjacency) ≡ true)
add_adjacent-exact node id v e adjacency h = elim (Bool-cases (node == v)) [
  | inl same ↦
      let p : node ≡ v = (==_iff node v).0 same in
      let q : member e (Dict.get_or node [] adjacency ++ (id ∷ [])) ≡ true =
        sym (member-sorted e (Dict.get_or node [] adjacency ++ (id ∷ [])))
        ∙ (rw (get_or-add_adjacent, same) at h) in
      elim (member-snoc e id (Dict.get_or node [] adjacency) q) [
        | inl new ↦ inl (new, p)
        | inr old ↦ inr (subst (λ n. member e (Dict.get_or n [] adjacency) ≡ true) p old)
      ]
  | inr other ↦ inr (rw (get_or-add_adjacent, other) at h)
]

-- CREATE_EDGE
pub Complete-edge :
    (id : ℕ) (edge : Edge) (edges : Dict Edge) (out : Dict (List ℕ))
    → Complete edges out
    → Complete (Dict.put id edge edges) (add_adjacent edge.source id out)
Complete-edge id edge edges out c = record {
  all_listed = λ e x h. elim (Bool-cases (id == e)) [
    | inl same ↦
        let p : edge ≡ x = ground (arith, Dict.get-put id e edge edges) in
        let q : id ≡ e = (==_iff id e).0 same in
        subst
          (λ (y : Edge).
            member e (Dict.get_or y.source [] (add_adjacent edge.source id out)) ≡ true)
          p
          (subst
            (λ j. member j (Dict.get_or edge.source [] (add_adjacent edge.source id out)) ≡ true) q
            (add_adjacent-new edge.source id out))
    | inr other ↦
        add_adjacent-keeps edge.source id x.source e out
          (c.all_listed e x (ground (arith, Dict.get-put id e edge edges)))
  ];
}

-- CREATE_EDGE with an edge id that is not yet used.
pub Current-edge :
    (id : ℕ) (edge : Edge) (edges : Dict Edge) (out : Dict (List ℕ))
    → Dict.get id edges ≡ none
    → Current edges out
    → Current (Dict.put id edge edges) (add_adjacent edge.source id out)
Current-edge id edge edges out fresh c = record {
  listed_leaves = λ v e h. elim (add_adjacent-exact edge.source id v e out h) [
    | inl (new, at_source) ↦ (
      edge,
      subst (λ j. Dict.get j (Dict.put id edge edges) ≡ some edge) new
          (Dict.get-put_self id edge edges),
      at_source,
    )
    | inr old ↦ let (x, g, l) = c.listed_leaves v e old in (x, still_there e x g, l)
  ];
}
  where
    still_there :
        (e : ℕ) (x : Edge)
        → Dict.get e edges ≡ some x
        → Dict.get e (Dict.put id edge edges) ≡ some x
    still_there e x g = elim (Bool-cases (id == e)) [
      | inl same ↦
          let p : id ≡ e = (==_iff id e).0 same in
          let q : Dict.get e edges ≡ none = subst (λ j. Dict.get j edges ≡ none) p fresh in
          absurd (let r : none ≡ some x = sym q ∙ g in cc)
      | inr other ↦ ground (arith, Dict.get-put id e edge edges)
    ]

-- The adjacency lists lead along every chain.
pub Leads-Chain : (s : VmState) {a b : ℕ} → IsComplete s → Chain s a b → Leads s a b
Leads-Chain s c here = Leads.here
Leads-Chain s c (next {v = v} {w = w} p (e, edge, g, t, l, k)) =
    Leads.next (Leads-Chain s c p)
      (e, edge, subst (λ n. member e (outgoing s n) ≡ true) l (c.all_listed e edge g), g, t, k)

Chain-Leads : (s : VmState) {a b : ℕ} → IsCurrent s → Leads s a b → Chain s a b
Chain-Leads s c Leads.here = here
Chain-Leads s c (Leads.next {v = v} {w = w} p (e, edge, m, g, t, k)) =
    let (x, g', l) = c.listed_leaves v e m in
    let same : x ≡ edge = from_some (sym g' ∙ g) in
    next (Chain-Leads s c p) (e, edge, g, t, sym (ap (λ (y : Edge). y.source) same) ∙ l, k)
  where
    from_some : {x y : Edge} → some x ≡ some y → x ≡ y
    from_some h = cc

-- If every edge of the table is listed at its source, and every edge that is listed at a node is in
-- the table and leaves this node, the search answers `found` exactly if a chain of support edges of
-- the table leads from the source to the target, and `not_found` otherwise.
pub support_path_exists_decides :
    (s : VmState) (source target : ℕ)
    → IsComplete s
    → IsCurrent s
    → ((support_path_exists s source target ≡ found) × Chain s source target)
      ⊎ ((support_path_exists s source target ≡ not_found) × ¬ Chain s source target)
support_path_exists_decides s source target complete current =
    elim (support_path_exists-Leads s source target linked) [
      | inl (e, path) ↦ inl (e, Chain-Leads s current path)
      | inr (e, nowhere) ↦ inr (e, λ chain. nowhere (Leads-Chain s complete chain))
    ]
  where
    linked :
        (v e : ℕ)
        → member e (outgoing s v) ≡ true
        → (edge : Edge) × (Dict.get e s.edge_table ≡ some edge)
    linked v e h = let (x, g, l) = current.listed_leaves v e h in (x, g)
