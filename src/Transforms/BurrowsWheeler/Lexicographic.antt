-- ===== src/Transforms/BurrowsWheeler/Lexicographic.antt =====
-- bogvm/transforms.py: the orders that `_bwt_encode` and `_bwt_decode` sort by.
use bogbin.Common.{ℕ, zero, suc, true, false, List, [], ◌∷◌, map, take, arith, ◌≡◌, refl, ap₂}
use bogbin.Common.Sorting.{IsTotalOrder, IsSorted, Bounds}
use bogbin.Transforms.BurrowsWheeler.{lex_le, pair_le}

lex_refl : (xs : List ℕ) → lex_le xs xs ≡ true
unfolding lex_le
lex_refl [] = refl
lex_refl (x ∷ xs) = ground (arith, lex_refl xs)

lex_total : (xs ys : List ℕ) → lex_le xs ys ≡ false → lex_le ys xs ≡ true
unfolding lex_le
lex_total [] ys h = cc
lex_total (x ∷ xs) [] h = refl
lex_total (x ∷ xs) (y ∷ ys) h = ground (arith, lex_total xs ys)

lex_trans : (xs ys zs : List ℕ) → lex_le xs ys ≡ true → lex_le ys zs ≡ true → lex_le xs zs ≡ true
unfolding lex_le
lex_trans [] ys zs h k = refl
lex_trans (x ∷ xs) [] zs h k = cc
lex_trans (x ∷ xs) (y ∷ ys) [] h k = cc
lex_trans (x ∷ xs) (y ∷ ys) (z ∷ zs) h k = ground (arith, lex_trans xs ys zs)

lex_antisym : (xs ys : List ℕ) → lex_le xs ys ≡ true → lex_le ys xs ≡ true → xs ≡ ys
unfolding lex_le
lex_antisym [] [] h k = refl
lex_antisym [] (y ∷ ys) h k = cc
lex_antisym (x ∷ xs) [] h k = cc
lex_antisym (x ∷ xs) (y ∷ ys) h k = ground (arith, lex_antisym xs ys)

pub lex_order : IsTotalOrder lex_le
lex_order = record { total = lex_total; trans = lex_trans; antisym = lex_antisym }

pair_total : (p q : List ℕ × ℕ) → pair_le p q ≡ false → pair_le q p ≡ true
unfolding pair_le
pair_total (r, i) (s, j) h = ground (arith, lex_total r s, lex_total s r)

pair_trans : (p q t : List ℕ × ℕ) → pair_le p q ≡ true → pair_le q t ≡ true → pair_le p t ≡ true
unfolding pair_le
pair_trans (r, i) (s, j) (t, k) h g =
    ground (arith, lex_trans r s t, lex_trans t r s, lex_trans s t r)

pair_antisym : (p q : List ℕ × ℕ) → pair_le p q ≡ true → pair_le q p ≡ true → p ≡ q
unfolding pair_le
pair_antisym (r, i) (s, j) h k =
    ap₂ (λ a b. (a, b)) (lex_antisym r s (ground arith) (ground arith)) (ground arith)

pub pair_order : IsTotalOrder pair_le
pair_order = record { total = pair_total; trans = pair_trans; antisym = pair_antisym }

-- A list sorted by rotation and index is sorted by rotation.
pub lex_of_pair : (p q : List ℕ × ℕ) → pair_le p q ≡ true → lex_le p.0 q.0 ≡ true
unfolding pair_le
lex_of_pair (r, i) (s, j) h = ground arith

Bounds-rows :
    (p : List ℕ × ℕ) (l : List (List ℕ × ℕ))
    → Bounds pair_le p l
    → Bounds lex_le p.0 (map (λ row. row.0) l)
Bounds-rows p [] h = tt
Bounds-rows p (q ∷ l) h = (lex_of_pair p q h.0, Bounds-rows p l h.1)

pub IsSorted-rows :
    (l : List (List ℕ × ℕ)) → IsSorted pair_le l → IsSorted lex_le (map (λ row. row.0) l)
IsSorted-rows [] h = tt
IsSorted-rows (p ∷ l) h = (Bounds-rows p l h.0, IsSorted-rows l h.1)

take_mono : (k : ℕ) (xs ys : List ℕ) → lex_le xs ys ≡ true → lex_le (take k xs) (take k ys) ≡ true
unfolding lex_le
take_mono zero xs ys h = refl
take_mono (suc k) [] ys h = refl
take_mono (suc k) (x ∷ xs) [] h = cc
take_mono (suc k) (x ∷ xs) (y ∷ ys) h = ground (arith, take_mono k xs ys)

Bounds-take :
    (k : ℕ) (r : List ℕ) (l : List (List ℕ))
    → Bounds lex_le r l
    → Bounds lex_le (take k r) (map (take k) l)
Bounds-take k r [] h = tt
Bounds-take k r (s ∷ l) h = (take_mono k r s h.0, Bounds-take k r l h.1)

-- The prefixes of sorted rows are sorted.
pub IsSorted-take :
    (k : ℕ) (l : List (List ℕ)) → IsSorted lex_le l → IsSorted lex_le (map (take k) l)
IsSorted-take k [] h = tt
IsSorted-take k (r ∷ l) h = (Bounds-take k r l h.0, IsSorted-take k l h.1)
