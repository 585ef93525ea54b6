-- ===== src/Common/Sorting.antt =====
-- Python's `sorted` by a total order, as insertion sort: for a total order every sorting
-- algorithm has the same result, since equal keys are equal values.
use mathlib.Core.Path.{◌≡◌, refl, ap, ◌∙◌}
use mathlib.Core.Bool.{Bool, true, false}
use mathlib.Core.List.{List, [], ◌∷◌, Permᴰ}
use mathlib.Core.List.Permᴰ
use native.Mathlib.Omega.{arith}
use bogbin.Common.Tests.{if◌then◌else◌, Bool-cases}
use mathlib.Core.Logic.{inl, inr}

-- A total order with a Boolean test.
pub record IsTotalOrder {ℓ} {A : Type ℓ} (le : A → A → Bool) : Type ℓ where
  pub total : (a b : A) → le a b ≡ false → le b a ≡ true
  pub trans : (a b c : A) → le a b ≡ true → le b c ≡ true → le a c ≡ true
  pub antisym : (a b : A) → le a b ≡ true → le b a ≡ true → a ≡ b

module _ {ℓ} {A : Type ℓ} (le : A → A → Bool) where
  unfoldable pub insert : A → List A → List A
  insert a [] = a ∷ []
  insert a (b ∷ l) = if le a b then a ∷ b ∷ l else b ∷ insert a l

  unfoldable pub sort : List A → List A
  unfolding insert
  sort [] = []
  sort (a ∷ l) = insert a (sort l)

  -- `a` is at most each element of the list.
  abbrev pub Bounds : A → List A → Type 0
  Bounds a [] = Unit
  Bounds a (b ∷ l) = (le a b ≡ true) × Bounds a l

  abbrev pub IsSorted : List A → Type 0
  IsSorted [] = Unit
  IsSorted (a ∷ l) = Bounds a l × IsSorted l

  insert-perm : (a : A) (l : List A) → Permᴰ (insert a l) (a ∷ l)
  unfolding insert
  insert-perm a [] = Permᴰ.cons refl Permᴰ.nil
  insert-perm a (b ∷ l) = step (le a b) (insert-perm a l)
    where
      step :
          (t : Bool)
          → Permᴰ (insert a l) (a ∷ l)
          → Permᴰ (if t then a ∷ b ∷ l else b ∷ insert a l) (a ∷ b ∷ l)
      step true p = Permᴰ.refl _
      step false p = Permᴰ.trans (Permᴰ.cons refl p) (Permᴰ.swap refl refl)

  pub sort-perm : (l : List A) → Permᴰ (sort l) l
  unfolding sort
  sort-perm [] = Permᴰ.nil
  sort-perm (a ∷ l) = Permᴰ.trans (insert-perm a (sort l)) (Permᴰ.cons refl (sort-perm l))

module _ {ℓ} {A : Type ℓ} (le : A → A → Bool) (order : IsTotalOrder le) where
  Bounds-trans : (a b : A) (l : List A) → le a b ≡ true → Bounds le b l → Bounds le a l
  Bounds-trans a b [] p h = tt
  Bounds-trans a b (c ∷ l) p h = (order.trans a b c p h.0, Bounds-trans a b l p h.1)

  Bounds-insert :
      (a b : A) (l : List A) → le a b ≡ true → Bounds le a l → Bounds le a (insert le b l)
  unfolding insert
  Bounds-insert a b [] p h = (p, tt)
  Bounds-insert a b (c ∷ l) p h = elim (Bool-cases (le b c)) [
    | inl e ↦ rw e (p, (h.0, h.1))
    | inr e ↦ rw e (h.0, Bounds-insert a b l p h.1)
  ]

  insert-IsSorted : (a : A) (l : List A) → IsSorted le l → IsSorted le (insert le a l)
  unfolding insert
  insert-IsSorted a [] h = (tt, tt)
  insert-IsSorted a (b ∷ l) h = elim (Bool-cases (le a b)) [
    | inl e ↦ rw e ((e, Bounds-trans a b l e h.0), h)
    | inr e ↦ rw e (Bounds-insert b a l (order.total a b e) h.0, insert-IsSorted a l h.1)
  ]

  pub sort-IsSorted : (l : List A) → IsSorted le (sort le l)
  unfolding sort
  sort-IsSorted [] = tt
  sort-IsSorted (a ∷ l) = insert-IsSorted a (sort le l) (sort-IsSorted l)

  insert_front : (a : A) (l : List A) → Bounds le a l → insert le a l ≡ a ∷ l
  unfolding insert
  insert_front a [] h = refl
  insert_front a (b ∷ l) h = rw h.0

  -- A sorted list is left alone.
  pub sort_sorted : (l : List A) → IsSorted le l → sort le l ≡ l
  unfolding sort
  sort_sorted [] h = refl
  sort_sorted (a ∷ l) h = ap (insert le a) (sort_sorted l h.1) ∙ insert_front a l h.0

  insert_comm : (a b : A) (l : List A) → insert le a (insert le b l) ≡ insert le b (insert le a l)
  unfolding insert
  insert_comm a b [] = ground (arith, order.antisym a b, order.total a b)
  insert_comm a b (c ∷ l) = ground (
    arith,
    order.antisym a b,
    order.total a b,
    order.total b a,
    order.trans a b c,
    order.trans b a c,
    insert_comm a b l,
  )

  -- The result depends only on the elements and how often they occur.
  pub sort-eq_of_perm : {xs ys : List A} → Permᴰ xs ys → sort le xs ≡ sort le ys
  unfolding sort
  sort-eq_of_perm Permᴰ.nil = refl
  sort-eq_of_perm (Permᴰ.cons e p) = cc (e, sort-eq_of_perm p)
  sort-eq_of_perm (Permᴰ.swap {a = a} {b = b} {l = l} e f) = cc (e, f, insert_comm a b (sort le l))
  sort-eq_of_perm (Permᴰ.trans p q) = sort-eq_of_perm p ∙ sort-eq_of_perm q
