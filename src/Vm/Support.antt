-- ===== src/Vm/Support.antt =====
-- bogvm/vm.py: what `_support_path_exists` follows, the support edges that the adjacency lists name,
-- and one round of it. An entry can be older than the edge that the table now holds under its id.
pub mod Loop
use bogbin.Common.{
  ℕ, zero, suc, ◌+◌, ◌≤◌, ◌<◌, ◌==◌, ==_iff, Bool, true, false, ◌||◌, Option, none, some, List, [],
  ◌∷◌, ◌++◌, ◌≡◌, ◌≢◌, refl, sym, ap, ◌∙◌, subst, arith, ◌⊎◌, inl, inr, if◌then◌else◌, Bool-cases,
  Option-cases, leb, length, length-append, Result, ok, err, ◌>>=◌, All, All-append, >>=-eq-ok,
}
use bogbin.Common.Dict
use bogbin.Common.Dict.{Dict}
use bogbin.Common.Sorting.{sort, insert}
use bogbin.Instruction.{EdgeType, support, conflict}
use bogbin.Vm.Propagation.{same_type}
use bogbin.Vm.State.{VmState, Edge, member}
use bogbin.Vm.Members.{
  member-sorted, member_head, member_tail, member-cons, member-append_left, member-append_right,
}
use bogbin.Vm.Claims.{
  Search, found, not_found, out_of_fuel, missing_edge, is_new_target, support_targets, search_path,
  out_degrees, support_path_exists,
}

-- An edge that a node's list of outgoing edges names, and that the edge table holds as support.
abbrev pub IsListed : VmState → List ℕ → ℕ → Type 0
IsListed s es w =
    (e : ℕ) × (edge : Edge) × (member e es ≡ true)
    × (Dict.get e s.edge_table ≡ some edge)
    × (edge.type ≡ support)
    × (edge.target ≡ w)

abbrev pub outgoing : VmState → ℕ → List ℕ
outgoing s v = Dict.get_or v [] s.adjacency_out

-- A chain of entries of the adjacency lists, each at the target of the one before.
pub data Leads (s : VmState) (a : ℕ) : ℕ → Type 0 where
  here : Leads s a a
  next : {v w : ℕ} → Leads s a v → IsListed s (outgoing s v) w → Leads s a w

-- Every edge that a list of outgoing edges names is in the edge table.
abbrev pub IsLinked : VmState → Type 0
IsLinked s =
    (v e : ℕ)
    → member e (outgoing s v) ≡ true
    → (edge : Edge) × (Dict.get e s.edge_table ≡ some edge)

IsListed-cons :
    (s : VmState) (e : ℕ) (es : List ℕ) (w : ℕ) → IsListed s es w → IsListed s (e ∷ es) w
IsListed-cons s e es w (f, edge, m, g, t, p) = (f, edge, member_tail f e es m, g, t, p)

All-weaken : (P Q : ℕ → Type 0) (l : List ℕ) → ((x : ℕ) → P x → Q x) → All P l → All Q l
All-weaken P Q [] f h = tt
All-weaken P Q (x ∷ l) f h = (f x h.0, All-weaken P Q l f h.1)

-- One edge of the loop, taken apart.
targets_step :
    (s : VmState) (visited es out : List ℕ) (f : ℕ)
    → support_targets s.edge_table visited (f ∷ es) ≡ ok out
    → (edge : Edge) × (rest : List ℕ) × (Dict.get f s.edge_table ≡ some edge)
      × (support_targets s.edge_table visited es ≡ ok rest)
      × (out ≡ (if is_new_target visited edge then edge.target ∷ rest else rest))
unfolding support_targets
targets_step s visited es out f e = elim (Option-cases (Dict.get f s.edge_table)) [
  | inl n ↦ absurd (fails n)
  | inr (edge, g) ↦
      let (rest, q, r) =
        >>=-eq-ok (support_targets s.edge_table visited es)
          (λ rest. ok (if is_new_target visited edge then edge.target ∷ rest else rest))
          (rw (g, support_targets) at e) in
      (edge, rest, g, q, cc)
]
  where
    fails : Dict.get f s.edge_table ≡ none → ⊥
    fails n = let q : err f ≡ ok out = rw (n, support_targets) at e in cc

support_of_new :
    (visited : List ℕ) (edge : Edge) → is_new_target visited edge ≡ true → edge.type ≡ support
unfolding is_new_target
support_of_new visited edge h = of_test edge.type (ground arith)
  where
    of_test : (t : EdgeType) → same_type t support ≡ true → t ≡ support
    of_test support e = refl
    of_test conflict e = cc

new_of_support :
    (visited : List ℕ) (edge : Edge) (w : ℕ)
    → edge.type ≡ support
    → edge.target ≡ w
    → member w visited ≡ false
    → is_new_target visited edge ≡ true
unfolding is_new_target
new_of_support visited edge w t p m = rw (t, p, m)

keep_rest :
    (visited : List ℕ) (edge : Edge) (rest : List ℕ) (w : ℕ)
    → member w rest ≡ true
    → member w (if is_new_target visited edge then edge.target ∷ rest else rest) ≡ true
keep_rest visited edge rest w m = elim (Bool-cases (is_new_target visited edge)) [
  | inl new ↦ rw new (member_tail w edge.target rest m)
  | inr old ↦ rw old m
]

-- What is put on the queue are targets of support edges, at most one for each edge.
targets_sound :
    (s : VmState) (visited es out : List ℕ)
    → support_targets s.edge_table visited es ≡ ok out
    → All (IsListed s es) out × (length out ≤ length es)
targets_sound s visited [] out e =
    let q : [] ≡ out = unfold support_targets in cc in rw (← q) (tt, omega arith)
targets_sound s visited (f ∷ es) out e =
    let (edge, rest, g, q, o) = targets_step s visited es out f e in
    let (a, n) = targets_sound s visited es rest q in
    rw o (elim (Bool-cases (is_new_target visited edge)) [
      | inl new ↦ rw new (
        (
          (f, edge, member_head f es, g, support_of_new visited edge new, refl),
          All-weaken _ _ rest (IsListed-cons s f es) a,
        ),
        omega arith,
      )
      | inr old ↦ rw old (All-weaken _ _ rest (IsListed-cons s f es) a, omega arith)
    ])

-- Every target of a support edge is visited or put on the queue.
targets_complete :
    (s : VmState) (visited es out : List ℕ) (w : ℕ)
    → support_targets s.edge_table visited es ≡ ok out
    → IsListed s es w
    → (member w visited ≡ true) ⊎ (member w out ≡ true)
targets_complete s visited [] out w e (f, edge, m, g, t, p) = absurd (unfold member in cc)
targets_complete s visited (f ∷ es) out w e (k, edge', m, g', t, p) =
    let (edge, rest, g, q, o) = targets_step s visited es out f e in
    elim (member-cons k f es m) [
      | inl same ↦
          let one : edge ≡ edge' = cc in
          elim (Bool-cases (member w visited)) [
            | inl seen ↦ inl seen
            | inr unseen ↦ inr (
                rw o (
                  rw
                    (new_of_support visited edge w (ap (λ (x : Edge). x.type) one ∙ t)
                      (ap (λ (x : Edge). x.target) one ∙ p) unseen)
                    (subst (λ j. member w (j ∷ rest) ≡ true)
                      (sym (ap (λ (x : Edge). x.target) one ∙ p)) (member_head w rest))))
          ]
      | inr later ↦ elim (targets_complete s visited es rest w q (k, edge', later, g', t, p)) [
        | inl seen ↦ inl seen
        | inr queued ↦ inr (rw o (keep_rest visited edge rest w queued))
      ]
    ]

-- Edges that the table holds do not fail.
targets_total :
    (s : VmState) (visited es : List ℕ)
    → ((e : ℕ) → member e es ≡ true → (edge : Edge) × (Dict.get e s.edge_table ≡ some edge))
    → (out : List ℕ) × (support_targets s.edge_table visited es ≡ ok out)
targets_total s visited [] h = ([], unfold support_targets in refl)
targets_total s visited (f ∷ es) h =
    let (edge, g) = h f (member_head f es) in
    let (rest, r) = targets_total s visited es (λ e m. h e (member_tail e f es m)) in
    ((if is_new_target visited edge then edge.target ∷ rest else rest), one_more edge rest g r)
  where
    one_more :
        (edge : Edge) (rest : List ℕ)
        → Dict.get f s.edge_table ≡ some edge
        → support_targets s.edge_table visited es ≡ ok rest
        → support_targets s.edge_table visited (f ∷ es)
          ≡ ok (if is_new_target visited edge then edge.target ∷ rest else rest)
    one_more edge rest g r = unfold support_targets in rw (g, r)

-- The lengths of the lists of outgoing edges of the nodes that are not visited.
pending : List ℕ → Dict (List ℕ) → ℕ
pending visited [] = 0
pending visited ((k, es) ∷ d) = (if member k visited then 0 else length es) + pending visited d

pending_le : (visited : List ℕ) (d : Dict (List ℕ)) → pending visited d ≤ out_degrees d
unfolding pending out_degrees
pending_le visited [] = omega arith
pending_le visited ((k, es) ∷ d) = ground (arith, pending_le visited d)

pending_mono :
    (v : ℕ) (visited : List ℕ) (d : Dict (List ℕ)) → pending (v ∷ visited) d ≤ pending visited d
unfolding pending member
pending_mono v visited [] = omega arith
pending_mono v visited ((k, es) ∷ d) = ground (arith, pending_mono v visited d)

-- Visiting a node takes its outgoing edges off the sum.
pending-visit :
    (v : ℕ) (visited : List ℕ) (d : Dict (List ℕ))
    → member v visited ≡ false
    → length (Dict.get_or v [] d) + pending (v ∷ visited) d ≤ pending visited d
unfolding pending member Dict.get
pending-visit v visited [] h = omega arith
pending-visit v visited ((k, es) ∷ d) h =
    ground (arith, pending-visit v visited d h, pending_mono v visited d)

length-insert : (x : ℕ) (l : List ℕ) → length (insert leb x l) ≡ suc (length l)
unfolding insert
length-insert x [] = refl
length-insert x (y ∷ l) = ground (arith, length-insert x l)

length-sort : (l : List ℕ) → length (sort leb l) ≡ length l
unfolding sort
length-sort [] = refl
length-sort (x ∷ l) = omega (arith, length-insert x (sort leb l), length-sort l)
