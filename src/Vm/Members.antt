-- ===== src/Vm/Members.antt =====
-- Membership in the sorted lists of ids.
use bogbin.Common.{
  ℕ, ◌==◌, true, ◌||◌, List, [], ◌∷◌, ◌++◌, ◌≡◌, refl, ◌∙◌, arith, leb, Bool-cases, inl, inr, ◌⊎◌,
}
use bogbin.Common.Sorting.{sort, insert}
use bogbin.Vm.State.{member, add_sorted}

member-insert : (x y : ℕ) (l : List ℕ) → member x (insert leb y l) ≡ ((y == x) || member x l)
unfolding member insert
member-insert x y [] = refl
member-insert x y (z ∷ l) = ground (arith, member-insert x y l)

member-sort : (x : ℕ) (l : List ℕ) → member x (sort leb l) ≡ member x l
unfolding member sort
member-sort x [] = refl
member-sort x (z ∷ l) = ground (arith, member-insert x z (sort leb l), member-sort x l)

member-append : (x y : ℕ) (l : List ℕ) → member x (l ++ (y ∷ [])) ≡ (member x l || (y == x))
unfolding member
member-append x y [] = ground arith
member-append x y (z ∷ l) = ground (arith, member-append x y l)

pub member-add_sorted :
    (x y : ℕ) (l : List ℕ) → member x (add_sorted y l) ≡ (member x l || (y == x))
unfolding add_sorted
member-add_sorted x y l = elim (Bool-cases (member y l)) [
  | inl e ↦ rw e (already x y l e)
  | inr e ↦ rw e (member-sort x (l ++ (y ∷ [])) ∙ member-append x y l)
]
  where
    already : (x y : ℕ) (l : List ℕ) → member y l ≡ true → member x l ≡ (member x l || (y == x))
    already x y l e = elim (Bool-cases (y == x)) [
      | inl same ↦ ground arith
      | inr other ↦ ground arith
    ]

pub mem-add_sorted :
    (x y : ℕ) (l : List ℕ) → member x (add_sorted y l) ≡ true → (y ≡ x) ⊎ (member x l ≡ true)
mem-add_sorted x y l e = ground (arith, member-add_sorted x y l)

pub member-sorted : (x : ℕ) (l : List ℕ) → member x (sort leb l) ≡ member x l
member-sorted = member-sort

pub member_head : (x : ℕ) (l : List ℕ) → member x (x ∷ l) ≡ true
unfolding member
member_head x l = ground arith

pub member_tail : (x y : ℕ) (l : List ℕ) → member x l ≡ true → member x (y ∷ l) ≡ true
unfolding member
member_tail x y l h = ground arith

pub member-cons : (x y : ℕ) (l : List ℕ) → member x (y ∷ l) ≡ true → (y ≡ x) ⊎ (member x l ≡ true)
unfolding member
member-cons x y l h = ground arith

pub member-append_left : (x : ℕ) (l r : List ℕ) → member x l ≡ true → member x (l ++ r) ≡ true
unfolding member
member-append_left x [] r h = cc
member-append_left x (y ∷ l) r h = ground (arith, member-append_left x l r)

pub member-append_right : (x : ℕ) (l r : List ℕ) → member x r ≡ true → member x (l ++ r) ≡ true
unfolding member
member-append_right x [] r h = h
member-append_right x (y ∷ l) r h = ground (arith, member-append_right x l r)
