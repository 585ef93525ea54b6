-- ===== src/Instruction/Codec.antt =====
-- bogvm/opcodes.py and bogvm/instruction.py: the codes and their names, `pack` and `unpack`.
use bogbin.Common.{ℕ, ◌≡◌, ◌↔◌, refl, some, List, [], ◌∷◌, ◌++◌, All, arith, ok, length}
use bogbin.Common.Bits.{IsByte}
use bogbin.Instruction.{
  Opcode, ops, op_names, find_op, all_ops, EdgeType, edge_types, edge_type_names, Instruction, pack,
  unpack, IsEncodable, u16_bytes,
}

find_op_sound : (code : ℕ) (os : List Opcode) (o : Opcode) → find_op code os ≡ some o → ops o ≡ code
unfolding find_op
find_op_sound code [] o e = cc
find_op_sound code (x ∷ xs) o e = ground (arith, find_op_sound code xs o)

op_names-ops_at : (o : Opcode) → op_names (ops o) ≡ some o
unfolding op_names
op_names-ops_at Opcode.noop = refl
op_names-ops_at _ = refl

-- OP_NAMES inverts OPS: the code of every operation is found again as that operation, and a code
-- that is found is the code of what was found.
pub op_names_iff : (code : ℕ) (o : Opcode) → (op_names code ≡ some o) ↔ (ops o ≡ code)
op_names_iff code o =
    (λ e. unfold op_names in find_op_sound code all_ops o e, λ e. rw (← e) (op_names-ops_at o))

-- The codes 1 and 2 are the two edge types, and no other code is one.
pub edge_type_names_iff :
    (code : ℕ) (t : EdgeType) → (edge_type_names code ≡ some t) ↔ (edge_types t ≡ code)
unfolding edge_type_names edge_types
edge_type_names_iff code EdgeType.support = (λ e. ground arith, λ e. ground arith)
edge_type_names_iff code EdgeType.conflict = (λ e. ground arith, λ e. ground arith)

pub pack_lem :
    (i : Instruction)
    → IsEncodable i
    → pack i
      ≡ ok (i.opcode ∷ i.flags ∷ u16_bytes i.target ++ (u16_bytes i.source ++ u16_bytes i.param))
unfolding pack
pack_lem i h = ground arith

-- An instruction whose fields fit is packed into eight bytes, and these are unpacked to it.
pub unpack-pack :
    (i : Instruction)
    → IsEncodable i
    → (bytes : List ℕ) × (pack i ≡ ok bytes)
      × All IsByte bytes
      × (length bytes ≡ 8)
      × (unpack bytes ≡ ok i)
unfolding unpack
unpack-pack i h = (_, pack_lem i h, omega arith, refl, ground arith)

-- Eight bytes are unpacked, and the instruction is packed to the same bytes.
pub pack-unpack :
    (bytes : List ℕ)
    → All IsByte bytes
    → length bytes ≡ 8
    → (i : Instruction) × (unpack bytes ≡ ok i) × (pack i ≡ ok bytes) × IsEncodable i
unfolding unpack pack
pack-unpack (a ∷ b ∷ c ∷ d ∷ e ∷ f ∷ g ∷ h ∷ []) bs len = (_, refl, ground arith, omega arith)
pack-unpack _ bs len = absurd (omega arith)
