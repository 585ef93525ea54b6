-- ===== src/Optimizer/Search.antt =====
-- bogvm/optimizer.py: the candidates of `optimize_residual_plan` and the choice among them.
use bogbin.Common.{
  ℕ, zero, suc, ◌+◌, ◌-◌, ◌*◌, ◌%◌, Bool, Option, none, some, List, [], ◌∷◌, ltb, ◌==◌,
  if◌then◌else◌, length, set, get_or, replicate, Result, ok, ◌>>=◌,
}
use bogbin.Bases.{Basis, BasisError, synthesize_basis, zero_block, delta_u8, dictionary_u8, rle_u8}
use bogbin.Optimizer.Patches.{mismatches}

-- `counts[value] += 1`
unfoldable pub count_up : ℕ → List ℕ → List ℕ
count_up value counts = set counts value (get_or counts value 0 + 1)

-- `min(range(256), key=lambda value: (-counts[value], value))`: the first value with the most. The
-- arguments are the best value, its count, the next value and the counts from that value on.
unfoldable pub first_most : ℕ → ℕ → ℕ → List ℕ → ℕ
first_most best most value [] = best
first_most best most value (c ∷ cs) =
    first_most (if ltb most c then value else best) (if ltb most c then c else most) (value + 1) cs

unfoldable pub best_of : List ℕ → ℕ
unfolding first_most
best_of [] = 0
best_of (c ∷ cs) = first_most 0 c 1 cs

-- `(value - (offset * delta)) % 256` of Python, where the difference may be below 0.
abbrev pub start_for : ℕ → ℕ → ℕ → ℕ
start_for value offset delta = (value + 256 * (offset * delta) - offset * delta) % 256

-- The loop `for offset, value in enumerate(data)` of `delta_u8`.
unfoldable pub delta_counts : ℕ → ℕ → List ℕ → List ℕ → List ℕ
unfolding count_up
delta_counts delta offset [] counts = counts
delta_counts delta offset (value ∷ values) counts =
    delta_counts delta (offset + 1) values (count_up (start_for value offset delta) counts)

unfoldable pub byte_counts : List ℕ → List ℕ → List ℕ
unfolding count_up
byte_counts [] counts = counts
byte_counts (value ∷ values) counts = byte_counts values (count_up value counts)

-- `_most_common_byte`
unfoldable pub most_common_byte : List ℕ → ℕ
unfolding byte_counts best_of
most_common_byte [] = 0
most_common_byte (value ∷ values) = best_of (byte_counts (value ∷ values) (replicate 256 0))

-- `[f(k), ..., f(k + n - 1)]`
unfoldable pub pairs_from : (ℕ → ℕ × ℕ) → ℕ → ℕ → List (ℕ × ℕ)
pairs_from f k zero = []
pairs_from f k (suc n) = f k ∷ pairs_from f (k + 1) n

-- `_coefficient_tuples_for_basis`
unfoldable pub coefficient_tuples : Basis → List ℕ → List (ℕ × ℕ)
unfolding pairs_from delta_counts best_of most_common_byte
coefficient_tuples zero_block bytes = (0, 0) ∷ []
coefficient_tuples delta_u8 bytes =
    pairs_from (λ delta. (best_of (delta_counts delta 0 bytes (replicate 256 0)), delta)) 0 256
coefficient_tuples dictionary_u8 bytes = (most_common_byte bytes, 0) ∷ []
coefficient_tuples rle_u8 bytes = (most_common_byte bytes, 0) ∷ []
coefficient_tuples _ bytes = pairs_from (λ start. (start, 0)) 0 256

-- The entries of the dict `candidate` that the choice reads.
pub record Candidate : Type 0 where
  pub basis : Basis
  pub basis_index : ℕ
  pub start_byte : ℕ
  pub delta : ℕ
  pub residual_count : ℕ

-- `candidate_key < best_key`, on (residual_count, basis_index, (start_byte, delta))
unfoldable pub is_better : Candidate → Candidate → Bool
is_better c b =
    if c.residual_count == b.residual_count
    then (if c.basis_index == b.basis_index
        then (if c.start_byte == b.start_byte
            then ltb c.delta b.delta
            else ltb c.start_byte b.start_byte)
        else ltb c.basis_index b.basis_index)
    else ltb c.residual_count b.residual_count

unfoldable pub candidate : List ℕ → Basis → ℕ → ℕ × ℕ → Result BasisError Candidate
candidate bytes basis basis_index (start_byte, delta) = do
  generated ← synthesize_basis (some basis) start_byte (length bytes) delta
  ok (record {
    basis = basis;
    basis_index = basis_index;
    start_byte = start_byte;
    delta = delta;
    residual_count = mismatches bytes generated;
  })

-- `best`, once a candidate has been compared with it.
unfoldable pub better : Option Candidate → Candidate → Candidate
unfolding is_better
better none c = c
better (some b) c = if is_better c b then c else b

-- The inner loop, over the coefficients of one basis.
unfoldable pub try_tuples :
    List ℕ → Basis → ℕ → List (ℕ × ℕ) → Option Candidate → Result BasisError (Option Candidate)
unfolding candidate better
try_tuples bytes basis basis_index [] best = ok best
try_tuples bytes basis basis_index (t ∷ ts) best = do
  c ← candidate bytes basis basis_index t
  try_tuples bytes basis basis_index ts (some (better best c))

-- The outer loop, over `enumerate(BASIS_ORDER)`.
unfoldable pub try_bases :
    List ℕ → ℕ → List Basis → Option Candidate → Result BasisError (Option Candidate)
unfolding try_tuples coefficient_tuples
try_bases bytes basis_index [] best = ok best
try_bases bytes basis_index (b ∷ bs) best = do
  best' ← try_tuples bytes b basis_index (coefficient_tuples b bytes) best
  try_bases bytes (basis_index + 1) bs best'
