-- ===== src/Container/Descriptor.antt =====
-- bogvm/container.py: the descriptor byte of a chunk and its transform parameter.
use bogbin.Common.{
  ℕ, suc, ◌*◌, ◌/◌, ◌^◌, bit_and, bit_or, Bool, not, ◌&&◌, List, [], ◌∷◌, get_elem?, leb, ◌==◌,
  if◌then◌else◌, Result, ok, err, ◌>>◌, guard, option_case,
}
use bogbin.Bases.{
  Basis, basis_order, zero_block, repeat_byte, delta_u8, dictionary_u8, rle_u8, ramp_u8,
  triangle_u8, sine8_u8, fourier8_u8,
}
use bogbin.Transforms.Names.{Transform, transform_order, is_bwt_transform}
use bogbin.Optimizer.Chunks.{transform_id}
use bogbin.Container.Errors.{
  ContainerError, transform_range, basis_range, reserved_transform, reserved_basis, not_in_order,
}
use bogbin.Container.Records.{Chunk}
use bogbin.Container.Varuint.{encode_varuint, decode_varuint}

pub record Descriptor : Type 0 where
  pub transform : Transform
  pub basis : Basis
  pub start_byte : ℕ
  pub delta : ℕ
  pub transform_param : ℕ
  pub residual_count : ℕ
  pub is_bitmask : Bool

-- `BASIS_ORDER.index`
unfoldable pub basis_id : Basis → ℕ
basis_id zero_block = 0
basis_id repeat_byte = 1
basis_id delta_u8 = 2
basis_id dictionary_u8 = 3
basis_id rle_u8 = 4
basis_id ramp_u8 = 5
basis_id triangle_u8 = 6
basis_id sine8_u8 = 7
basis_id fourier8_u8 = 8

-- `_encode_descriptor`
unfoldable pub encode_descriptor : Chunk → Bool → Result ContainerError ℕ
unfolding transform_id basis_id
encode_descriptor c is_bitmask = option_case c.transform (err not_in_order) (λ transform.
    option_case c.basis (err not_in_order) (λ basis. do
      guard (leb (transform_id transform) 7) transform_range
      guard (leb (basis_id basis) 15) basis_range
      let flag : ℕ = if is_bitmask then 1 else 0
      ok (bit_or (bit_or (transform_id transform * 2 ^ 5) (basis_id basis * 2)) flag)))

-- `_decode_descriptor`
unfoldable pub decode_descriptor : ℕ → ℕ → ℕ → ℕ → ℕ → Result ContainerError Descriptor
decode_descriptor value start_byte delta transform_param residual_count =
    option_case (get_elem? transform_order (bit_and (value / 2 ^ 5) 7)) (err reserved_transform)
      (λ transform.
        option_case (get_elem? basis_order (bit_and (value / 2) 15)) (err reserved_basis) (λ basis.
          ok (record {
            transform = transform;
            basis = basis;
            start_byte = start_byte;
            delta = delta;
            transform_param = transform_param;
            residual_count = residual_count;
            is_bitmask = not (bit_and value 1 == 0);
          })))

-- `_append_transform_param`: the bytes that it appends.
unfoldable pub append_transform_param : Chunk → List ℕ
unfolding encode_varuint
append_transform_param c =
    option_case c.transform []
      (λ transform. if is_bwt_transform transform then encode_varuint c.transform_param else [])

-- `_read_transform_param`
unfoldable pub read_transform_param : List ℕ → ℕ → Result ContainerError (ℕ × List ℕ)
unfolding decode_varuint
read_transform_param bytes descriptor =
    option_case (get_elem? transform_order (bit_and (descriptor / 2 ^ 5) 7))
      (err reserved_transform)
      (λ transform. if is_bwt_transform transform then decode_varuint bytes else ok (0, bytes))

-- The test of the loop of `_zero_residual_run_length`.
unfoldable pub is_alike : Chunk → Chunk → Bool
unfolding transform_id basis_id
is_alike first candidate =
    candidate.residual_count == 0
    && (option_case candidate.transform 7 transform_id
        == option_case first.transform 7 transform_id)
    && (candidate.transform_param == first.transform_param)
    && (option_case candidate.basis 9 basis_id == option_case first.basis 9 basis_id)
    && (candidate.start_byte == first.start_byte)
    && (candidate.delta == first.delta)

unfoldable pub count_alike : Chunk → List Chunk → ℕ
unfolding is_alike
count_alike first [] = 0
count_alike first (candidate ∷ cs) =
    let rest = count_alike first cs in if is_alike first candidate then suc rest else 0

-- `_zero_residual_run_length` at a chunk and those behind it.
unfoldable pub zero_residual_run_length : Chunk → List Chunk → ℕ
unfolding count_alike
zero_residual_run_length first cs =
    if first.residual_count == 0 then suc (count_alike first cs) else 0
