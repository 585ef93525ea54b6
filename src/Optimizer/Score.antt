-- ===== src/Optimizer/Score.antt =====
-- bogvm/optimizer.py: `score_reconstruction_plan` and the sizes that it estimates.
use bogbin.Common.{
  ℕ, zero, suc, ◌+◌, ◌-◌, ◌*◌, ◌/◌, ◌≤◌, min, Option, none, some, List, [], ◌∷◌, ◌==◌, ltb,
  if◌then◌else◌, ◌≡◌, refl, ap, arith,
}
use bogbin.Bases.{
  Basis, zero_block, repeat_byte, delta_u8, dictionary_u8, rle_u8, ramp_u8, triangle_u8, sine8_u8,
  fourier8_u8,
}
use bogbin.Transforms.Names.{
  Transform, identity, xor_previous, delta_previous, nibble_split, mtf, bwt, bwt_mtf,
  is_bwt_transform,
}
use bogbin.Residual.{Residual}

-- TRANSFORM_COSTS
unfoldable pub transform_costs : Transform → ℕ
transform_costs identity = 0
transform_costs xor_previous = 1
transform_costs delta_previous = 1
transform_costs nibble_split = 1
transform_costs mtf = 8
transform_costs bwt = 16
transform_costs bwt_mtf = 24

-- BASIS_COSTS
unfoldable pub basis_costs : Basis → ℕ
basis_costs zero_block = 0
basis_costs repeat_byte = 1
basis_costs delta_u8 = 2
basis_costs dictionary_u8 = 3
basis_costs rle_u8 = 3
basis_costs ramp_u8 = 2
basis_costs triangle_u8 = 4
basis_costs sine8_u8 = 5
basis_costs fourier8_u8 = 6

-- `while value: size += 1; value >>= 7`, with fuel
varuint_loop : ℕ → ℕ → ℕ
varuint_loop fuel zero = 0
varuint_loop zero (suc value) = 0
varuint_loop (suc fuel) (suc value) = suc (varuint_loop fuel (suc value / 128))

-- `_varuint_size`. The value itself is enough fuel, since every round makes it smaller.
unfoldable pub varuint_size : ℕ → ℕ
unfolding varuint_loop
varuint_size value = suc (varuint_loop (value / 128) (value / 128))

varuint_loop-fuel :
    (value fuel more : ℕ)
    → value ≤ fuel
    → value ≤ more
    → varuint_loop fuel value ≡ varuint_loop more value
unfolding varuint_loop
varuint_loop-fuel zero fuel more h k = refl
varuint_loop-fuel (suc value) zero more h k = absurd (omega arith)
varuint_loop-fuel (suc value) (suc fuel) zero h k = absurd (omega arith)
varuint_loop-fuel (suc value) (suc fuel) (suc more) h k =
    ap suc (varuint_loop-fuel (suc value / 128) fuel more (omega arith) (omega arith))

varuint_loop-step :
    (value : ℕ)
    → varuint_loop value value
      ≡ (if value == 0 then 0 else suc (varuint_loop (value / 128) (value / 128)))
unfolding varuint_loop
varuint_loop-step zero = refl
varuint_loop-step (suc value) =
    ground (
      arith,
      varuint_loop-fuel (suc value / 128) value (suc value / 128) (omega arith) (omega arith),
    )

-- One more byte for each seven bits: below 128 the size is 1, and above it is one more than the size
-- of the value shifted by seven bits.
pub varuint_size-step :
    (value : ℕ)
    → varuint_size value ≡ (if ltb value 128 then 1 else suc (varuint_size (value / 128)))
unfolding varuint_size
varuint_size-step value = ground (arith, varuint_loop-step (value / 128))

-- The loop of `_estimate_delta_residual_size`, where `none` is -1.
delta_size_from : Option ℕ → List Residual → ℕ
unfolding varuint_size
delta_size_from previous [] = 0
delta_size_from previous (p ∷ ps) =
    let delta : ℕ = elim previous [ none ↦ p.offset | some q ↦ p.offset - q - 1 ] in
    varuint_size delta + 1 + delta_size_from (some p.offset) ps

-- `_estimate_delta_residual_size`. The offsets of a plan increase, so no difference is below 0.
unfoldable pub estimate_delta_residual_size : List Residual → ℕ
unfolding delta_size_from
estimate_delta_residual_size residuals = delta_size_from none residuals

pub record Score : Type 0 where
  pub residual_count : ℕ
  pub container_size : ℕ
  pub transform_cost : ℕ
  pub basis_cost : ℕ
  pub decode_cost : ℕ
  pub total_cost : ℕ

-- `score_reconstruction_plan`, on the entries of the plan that it reads
unfoldable pub score_reconstruction_plan : Transform → Basis → ℕ → ℕ → List Residual → Score
unfolding transform_costs basis_costs varuint_size estimate_delta_residual_size
score_reconstruction_plan transform basis residual_count length residuals =
    let transform_cost = transform_costs transform in
    let basis_cost = basis_costs basis in
    let descriptor_size : ℕ = 3 + (if is_bwt_transform transform then 1 else 0) in
    let residual_delta_size = estimate_delta_residual_size residuals in
    let residual_size : ℕ =
      if residual_count == 0
      then residual_delta_size
      else min residual_delta_size ((length + 7) / 8 + residual_count) in
    let container_size : ℕ = descriptor_size + varuint_size residual_count + residual_size in
    let decode_cost : ℕ = length + residual_count + transform_cost + basis_cost in
    record {
      residual_count = residual_count;
      container_size = container_size;
      transform_cost = transform_cost;
      basis_cost = basis_cost;
      decode_cost = decode_cost;
      total_cost = container_size * 16 + residual_count + transform_cost + decode_cost;
    }
