-- ===== src/Instruction/Runs.antt =====
-- Instructions and their bytes on examples.
use bogbin.Common.{ℕ, List, [], ◌∷◌, All, arith, ok, some, length, refl, ◌≡◌, ◌↔◌}
use bogbin.Common.Bits.{IsByte}
use bogbin.Instruction.{Instruction, pack, unpack, IsEncodable, Opcode, ops, op_names}
use bogbin.Instruction.Codec.{unpack-pack, pack-unpack, op_names_iff}

-- CREATE_EDGE 258 <- 3, parameter 1
abbrev edge_instruction : Instruction
edge_instruction = record { opcode = 3; flags = 2; target = 258; source = 3; param = 1 }

abbrev edge_bytes : List ℕ
edge_bytes = 3 ∷ 2 ∷ 1 ∷ 2 ∷ 0 ∷ 3 ∷ 0 ∷ 1 ∷ []

edge_fits : IsEncodable edge_instruction
edge_fits = record {
  opcode_fits = omega arith;
  flags_fits = omega arith;
  target_fits = omega arith;
  source_fits = omega arith;
  param_fits = omega arith;
}

pack_edge : pack edge_instruction ≡ ok edge_bytes
unfolding pack
pack_edge = refl

unpack-pack_example :
    (bytes : List ℕ) × (pack edge_instruction ≡ ok bytes)
    × All IsByte bytes
    × (length bytes ≡ 8)
    × (unpack bytes ≡ ok edge_instruction)
unpack-pack_example = unpack-pack edge_instruction edge_fits

edge_are_bytes : All IsByte edge_bytes
edge_are_bytes = omega arith

pack-unpack_example :
    (i : Instruction) × (unpack edge_bytes ≡ ok i) × (pack i ≡ ok edge_bytes) × IsEncodable i
pack-unpack_example = pack-unpack edge_bytes edge_are_bytes refl

op_names_iff_example : (op_names 23 ≡ some Opcode.reject_data) ↔ (ops Opcode.reject_data ≡ 23)
op_names_iff_example = op_names_iff 23 Opcode.reject_data
