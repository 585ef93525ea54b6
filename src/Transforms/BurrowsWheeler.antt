-- ===== src/Transforms/BurrowsWheeler.antt =====
-- bogvm/transforms.py: `_bwt_encode` and `_bwt_decode`.
pub mod Lexicographic
pub mod Rotations
pub mod Table
use bogbin.Common.{
  ℕ, zero, suc, ◌+◌, ◌-◌, ◌*◌, ◌/◌, ◌%◌, bit_and, bit_or, bit_xor, Bool, true, false, ◌&&◌, ◌||◌,
  Option, none, some, List, [], ◌∷◌, ◌++◌, map, ltb, leb, ◌==◌, if◌then◌else◌, length, get_elem?,
  take, drop, replicate, Result, ok, err, ◌>>=◌, ◌>>◌, guard, ◌≡◌, refl, ap, sym, ap₂, ◌∙◌, ◌≢◌,
  inl, inr, arith, All, ◌<◌, ◌≤◌, length-append, length-map, Bool-cases,
}
use bogbin.Common.Sorting.{sort}
use bogbin.Transforms.Names.{
  TransformError, empty_index, primary_range, index_error, stop_iteration,
}

-- Python's `<=` on byte strings.
unfoldable pub lex_le : List ℕ → List ℕ → Bool
lex_le [] ys = true
lex_le (x ∷ xs) [] = false
lex_le (x ∷ xs) (y ∷ ys) =
    let rest = lex_le xs ys in if ltb x y then true else if x == y then rest else false

-- Python's `<=` on pairs of a byte string and an index.
unfoldable pub pair_le : List ℕ × ℕ → List ℕ × ℕ → Bool
pair_le (r, i) (s, j) = if lex_le r s then (if lex_le s r then leb i j else true) else false

-- `data[index:] + data[:index]`
abbrev pub rotation : List ℕ → ℕ → List ℕ
rotation bytes index = drop index bytes ++ take index bytes

-- `(rotation, index) for index in range(k, k + n)`
unfoldable pub rotations_from : List ℕ → ℕ → ℕ → List (List ℕ × ℕ)
rotations_from bytes k zero = []
rotations_from bytes k (suc n) = (rotation bytes k, k) ∷ rotations_from bytes (k + 1) n

-- `next(rank for rank, (_, index) in enumerate(rotations) if index == 0)`
unfoldable pub rank_of_zero : List (List ℕ × ℕ) → Option ℕ
rank_of_zero [] = none
rank_of_zero ((r, index) ∷ rows) =
    if index == 0 then some 0 else elim (rank_of_zero rows) [ none ↦ none | some i ↦ some (suc i) ]

-- `row[-1]` of a row that is not empty; no row is, where there is one at all.
unfoldable pub last_byte : List ℕ → ℕ
last_byte [] = 0
last_byte (x ∷ []) = x
last_byte (x ∷ y ∷ xs) = last_byte (y ∷ xs)

unfoldable pub sorted_rotations : List ℕ → List (List ℕ × ℕ)
unfolding sort pair_le lex_le rotations_from
sorted_rotations bytes = sort pair_le (rotations_from bytes 0 (length bytes))

unfoldable pub bwt_encode : List ℕ → Result TransformError (List ℕ × ℕ)
bwt_encode [] = ok ([], 0)
bwt_encode (x ∷ xs) =
    let rotations = sorted_rotations (x ∷ xs) in
    elim (rank_of_zero rotations) [
      | none ↦ err stop_iteration
      | some primary_index ↦ ok (map (λ row. last_byte row.0) rotations, primary_index)
    ]

-- `bytes([data[index]]) + table[index] for index in range(length)`
unfoldable pub prepend : List ℕ → List (List ℕ) → List (List ℕ)
prepend [] table = []
prepend (x ∷ xs) [] = []
prepend (x ∷ xs) (row ∷ table) = (x ∷ row) ∷ prepend xs table

-- The loop `for _ in range(n)` on the table.
unfoldable pub bwt_table : ℕ → List ℕ → List (List ℕ) → List (List ℕ)
unfolding sort lex_le prepend
bwt_table zero bytes table = table
bwt_table (suc n) bytes table = bwt_table n bytes (sort lex_le (prepend bytes table))

unfoldable pub bwt_decode : List ℕ → ℕ → Result TransformError (List ℕ)
bwt_decode [] primary_index = do guard (primary_index == 0) empty_index; ok []
bwt_decode (x ∷ xs) primary_index = do
  guard (ltb primary_index (length (x ∷ xs))) primary_range
  let n = length (x ∷ xs)
  elim (get_elem? (bwt_table n (x ∷ xs) (replicate n [])) primary_index) [
    | none ↦ err index_error
    | some row ↦ ok row
  ]
