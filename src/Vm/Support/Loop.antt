-- ===== src/Vm/Support/Loop.antt =====
-- bogvm/vm.py: the loop of `_support_path_exists`.
use bogbin.Common.{
  ℕ, zero, suc, ◌+◌, ◌≤◌, ◌==◌, ==_iff, true, false, List, [], ◌∷◌, ◌++◌, ◌≡◌, ◌≢◌, refl, sym,
  subst, ◌∙◌, arith, ◌⊎◌, inl, inr, Bool-cases, leb, length, length-append, ok, All,
}
use bogbin.Common.Sorting.{sort}
use bogbin.Vm.State.{VmState, member}
use bogbin.Vm.Members.{
  member-sorted, member_head, member_tail, member-cons, member-append_left, member-append_right,
}
use bogbin.Vm.Claims.{
  Search, found, not_found, support_targets, search_path, out_degrees, support_path_exists,
}
use bogbin.Vm.Support.{
  IsListed, outgoing, Leads, here, next, IsLinked, targets_sound, targets_complete, targets_total,
  pending, pending_le, pending-visit, length-sort,
}

-- A node that a list holds.
abbrev Holds : List ℕ → ℕ → Type 0
Holds l v = member v l ≡ true

module _ (s : VmState) (target : ℕ) where
  -- No visited node is the target, and its support edges lead to nodes that are visited or queued.
  abbrev IsExplored : List ℕ → List ℕ → Type 0
  IsExplored visited queue =
      (v : ℕ)
      → Holds visited v
      → (v ≢ target) × ((w : ℕ) → IsListed s (outgoing s v) w → Holds visited w ⊎ Holds queue w)

  -- Nodes that support edges do not leave, the target not among them.
  abbrev IsClosed : List ℕ → Type 0
  IsClosed nodes =
      (v : ℕ)
      → Holds nodes v
      → (v ≢ target) × ((w : ℕ) → IsListed s (outgoing s v) w → Holds nodes w)

  data Answer (visited queue : List ℕ) (r : Search) : Type 0 where
    yes_from : (v : ℕ) → Holds queue v → Leads s v target → r ≡ found → Answer visited queue r
    no_within :
        (nodes : List ℕ)
        → IsClosed nodes
        → ((v : ℕ) → Holds visited v → Holds nodes v)
        → ((v : ℕ) → Holds queue v → Holds nodes v)
        → r ≡ not_found
        → Answer visited queue r

  Leads-trans : {a b c : ℕ} → Leads s a b → Leads s b c → Leads s a c
  Leads-trans p here = p
  Leads-trans p (next q e) = next (Leads-trans p q) e

  sorted-IsListed : (es : List ℕ) (w : ℕ) → IsListed s (sort leb es) w → IsListed s es w
  sorted-IsListed es w (e, edge, m, g, t, p) = (e, edge, sym (member-sorted e es) ∙ m, g, t, p)

  IsListed-sorted : (es : List ℕ) (w : ℕ) → IsListed s es w → IsListed s (sort leb es) w
  IsListed-sorted es w (e, edge, m, g, t, p) = (e, edge, member-sorted e es ∙ m, g, t, p)

  All-member : (P : ℕ → Type 0) (l : List ℕ) (v : ℕ) → All P l → Holds l v → P v
  All-member P [] v h m = absurd (unfold member in cc)
  All-member P (x ∷ l) v h m = elim (member-cons v x l m) [
    | inl e ↦ subst P e h.0
    | inr m' ↦ All-member P l v h.1 m'
  ]

  member-split : (v : ℕ) (l r : List ℕ) → Holds (l ++ r) v → Holds l v ⊎ Holds r v
  unfolding member
  member-split v [] r h = inr h
  member-split v (x ∷ l) r h = ground (arith, member-split v l r)

  -- The three ways that a round ends.
  round_found :
      (fuel node : ℕ) (queue visited : List ℕ)
      → (node == target) ≡ true
      → search_path (suc fuel) s target (node ∷ queue) visited ≡ found
  unfolding search_path
  round_found fuel node queue visited e = rw e

  round_skip :
      (fuel node : ℕ) (queue visited : List ℕ)
      → (node == target) ≡ false
      → Holds visited node
      → search_path (suc fuel) s target (node ∷ queue) visited
        ≡ search_path fuel s target queue visited
  unfolding search_path
  round_skip fuel node queue visited e m = rw (e, m)

  round_go :
      (fuel node : ℕ) (queue visited out : List ℕ)
      → (node == target) ≡ false
      → member node visited ≡ false
      → support_targets s.edge_table (node ∷ visited) (sort leb (outgoing s node)) ≡ ok out
      → search_path (suc fuel) s target (node ∷ queue) visited
        ≡ search_path fuel s target (queue ++ out) (node ∷ visited)
  unfolding search_path
  round_go fuel node queue visited out e m t = rw (search_path, e, m, t)

  IsExplored-skip :
      (node : ℕ) (queue visited : List ℕ)
      → Holds visited node
      → IsExplored visited (node ∷ queue)
      → IsExplored visited queue
  IsExplored-skip node queue visited m x v h = (
    (x v h).0,
    λ w e. elim ((x v h).1 w e) [
      | inl seen ↦ inl seen
      | inr queued ↦ elim (member-cons w node queue queued) [
        | inl same ↦ inl (subst (Holds visited) same m)
        | inr rest ↦ inr rest
      ]
    ],
  )

  IsExplored-go :
      (node : ℕ) (queue visited out : List ℕ)
      → node ≢ target
      → support_targets s.edge_table (node ∷ visited) (sort leb (outgoing s node)) ≡ ok out
      → IsExplored visited (node ∷ queue)
      → IsExplored (node ∷ visited) (queue ++ out)
  IsExplored-go node queue visited out d t x v h = elim (member-cons v node visited h) [
    | inl same ↦ (
      λ p. d (same ∙ p),
      λ w e.
          elim (targets_complete s (node ∷ visited) (sort leb (outgoing s node)) out w t (
            IsListed-sorted (outgoing s node) w
              (subst (λ n. IsListed s (outgoing s n) w) (sym same) e))) [
                | inl seen ↦ inl seen
                | inr put ↦ inr (member-append_right w queue out put)
              ],
    )
    | inr old ↦ (
      (x v old).0,
      λ w e. elim ((x v old).1 w e) [
        | inl seen ↦ inl (member_tail w node visited seen)
        | inr queued ↦ elim (member-cons w node queue queued) [
          | inl now ↦ inl (subst (Holds (node ∷ visited)) now (member_head node visited))
          | inr rest ↦ inr (member-append_left w queue out rest)
        ]
      ],
    )
  ]

  Answer-skip :
      (node : ℕ) (queue visited : List ℕ) (r r' : Search)
      → Holds visited node
      → r' ≡ r
      → Answer visited queue r
      → Answer visited (node ∷ queue) r'
  Answer-skip node queue visited r r' m p (yes_from v h c e) =
      yes_from v (member_tail v node queue h) c (p ∙ e)
  Answer-skip node queue visited r r' m p (no_within nodes c hv hq e) =
      no_within nodes c hv
        (λ v h. elim (member-cons v node queue h) [
          | inl same ↦ subst (Holds nodes) same (hv node m)
          | inr rest ↦ hq v rest
        ])
        (p ∙ e)

  Answer-go :
      (node : ℕ) (queue visited out : List ℕ) (r r' : Search)
      → All (IsListed s (sort leb (outgoing s node))) out
      → r' ≡ r
      → Answer (node ∷ visited) (queue ++ out) r
      → Answer visited (node ∷ queue) r'
  Answer-go node queue visited out r r' a p (yes_from v h c e) = elim (member-split v queue out h) [
    | inl old ↦ yes_from v (member_tail v node queue old) c (p ∙ e)
    | inr put ↦
        yes_from node (member_head node queue)
          (Leads-trans (next here (sorted-IsListed (outgoing s node) v (All-member _ out v a put)))
            c)
          (p ∙ e)
  ]
  Answer-go node queue visited out r r' a p (no_within nodes c hv hq e) =
      no_within nodes c (λ v h. hv v (member_tail v node visited h))
        (λ v h. elim (member-cons v node queue h) [
          | inl same ↦ subst (Holds nodes) same (hv node (member_head node visited))
          | inr rest ↦ hq v (member-append_left v queue out rest)
        ])
        (p ∙ e)

  done :
      (fuel : ℕ) (visited : List ℕ)
      → IsExplored visited []
      → Answer visited [] (search_path fuel s target [] visited)
  unfolding search_path member
  done fuel visited x =
      no_within visited
        (λ v h. (
          (x v h).0,
          λ w e. elim ((x v h).1 w e) [
            | inl seen ↦ seen
            | inr none_left ↦ absurd (no_member w none_left)
          ],
        ))
        (λ v h. h) (λ v h. absurd (no_member v h)) (empty_queue fuel)
    where
      no_member : (v : ℕ) → member v [] ≡ true → ⊥
      no_member v h = cc

      empty_queue : (fuel : ℕ) → search_path fuel s target [] visited ≡ not_found
      empty_queue zero = refl
      empty_queue (suc fuel) = refl

  module _ (linked : IsLinked s) where
    -- With as much fuel as entries can still come off the queue, the loop answers.
    search_answers :
        (fuel : ℕ) (queue visited : List ℕ)
        → length queue + pending visited s.adjacency_out ≤ fuel
        → IsExplored visited queue
        → Answer visited queue (search_path fuel s target queue visited)
    search_answers zero [] visited m x = done zero visited x
    search_answers (suc fuel) [] visited m x = done (suc fuel) visited x
    search_answers zero (node ∷ queue) visited m x = absurd (omega arith)
    search_answers (suc fuel) (node ∷ queue) visited m x = elim (Bool-cases (node == target)) [
      | inl e ↦
          yes_from node (member_head node queue)
            (subst (Leads s node) ((==_iff node target).0 e) here)
            (round_found fuel node queue visited e)
      | inr ne ↦ elim (Bool-cases (member node visited)) [
        | inl seen ↦
            Answer-skip node queue visited _ _ seen (round_skip fuel node queue visited ne seen) (
              search_answers fuel queue visited (omega arith)
                (IsExplored-skip node queue visited seen x))
        | inr new ↦
            let (out, t) =
              targets_total s (node ∷ visited) (sort leb (outgoing s node))
                (λ e h. linked node e (sym (member-sorted e (outgoing s node)) ∙ h)) in
            let (a, n) = targets_sound s (node ∷ visited) (sort leb (outgoing s node)) out t in
            Answer-go node queue visited out _ _ a (round_go fuel node queue visited out ne new t) (
              search_answers fuel (queue ++ out) (node ∷ visited)
                (omega (
                  arith,
                  n,
                  length-append queue out,
                  length-sort (outgoing s node),
                  pending-visit node visited s.adjacency_out new,
                ))
                (IsExplored-go node queue visited out (λ p. ground (arith, p)) t x))
      ]
    ]

  Leads-IsClosed :
      (nodes : List ℕ) {v w : ℕ} → IsClosed nodes → Leads s v w → Holds nodes v → Holds nodes w
  Leads-IsClosed nodes c here h = h
  Leads-IsClosed nodes c (next {v = u} {w = w} r e) h = (c u (Leads-IsClosed nodes c r h)).1 w e

-- On adjacency lists whose edges are all in the table the search answers `found` exactly if they lead
-- from the source to the target, and `not_found` otherwise; its fuel always suffices.
pub support_path_exists-Leads :
    (s : VmState) (source target : ℕ)
    → IsLinked s
    → (((support_path_exists s source target ≡ found) × Leads s source target)
        ⊎ ((support_path_exists s source target ≡ not_found) × ¬ Leads s source target))
support_path_exists-Leads s source target linked = conclude (unfold support_path_exists in start)
  where
    nothing_seen : IsExplored s target [] (source ∷ [])
    nothing_seen v h = absurd (unfold member in cc)

    start :
        Answer s target []
          (source ∷ [])
          (search_path (suc (out_degrees s.adjacency_out)) s target (source ∷ []) [])
    start =
        search_answers s target linked (suc (out_degrees s.adjacency_out)) (source ∷ []) []
          (omega (arith, pending_le [] s.adjacency_out)) nothing_seen

    nothing_queued : (v : ℕ) → member v [] ≡ true → ⊥
    nothing_queued v h = unfold member in cc

    conclude :
        Answer s target [] (source ∷ []) (support_path_exists s source target)
        → (((support_path_exists s source target ≡ found) × Leads s source target)
            ⊎ ((support_path_exists s source target ≡ not_found) × ¬ Leads s source target))
    conclude (yes_from v h c e) = elim (member-cons v source [] h) [
      | inl same ↦ inl (e, subst (λ u. Leads s u target) (sym same) c)
      | inr none_left ↦ absurd (nothing_queued v none_left)
    ]
    conclude (no_within nodes c hv hq e) = inr (
      e,
      λ r.
          (c target (Leads-IsClosed s target nodes c r (hq source (member_head source [])))).0 refl,
    )
