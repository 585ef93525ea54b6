-- ===== src/Instruction.antt =====
-- bogvm/opcodes.py and bogvm/instruction.py: the operation codes, and one instruction in the eight
-- bytes of `struct.Struct(">BBHHH")`. A byte string is a list of numbers below 256.
pub mod Codec
mod Runs
use bogbin.Common.{
  ℕ, ◌+◌, ◌*◌, ◌/◌, ◌%◌, ◌≤◌, ◌<◌, Bool, Option, none, some, List, [], ◌∷◌, ◌++◌, leb, ◌==◌,
  if◌then◌else◌, Result, ok, err, ◌>>=◌, ◌>>◌, guard, ◌&&◌,
}

-- The keys of OPS.
pub data Opcode : Type 0 where
  noop halt create_node create_edge create_claim activate propagate decay : Opcode
  interfere compute_tension verify accept reject quarantine log_receipt emit_receipt : Opcode
  declare_basis load_coefficients synthesize verify_hash accept_data : Opcode
  store_residual apply_residual reject_data : Opcode

abbrev pub scale : ℕ
scale = 1000

-- OPS
unfoldable pub ops : Opcode → ℕ
ops noop = 0x00
ops halt = 0x01
ops create_node = 0x02
ops create_edge = 0x03
ops create_claim = 0x04
ops activate = 0x05
ops propagate = 0x06
ops decay = 0x07
ops interfere = 0x08
ops compute_tension = 0x09
ops verify = 0x0a
ops accept = 0x0b
ops reject = 0x0c
ops quarantine = 0x0d
ops log_receipt = 0x0e
ops emit_receipt = 0x0f
ops declare_basis = 0x10
ops load_coefficients = 0x11
ops synthesize = 0x12
ops verify_hash = 0x13
ops accept_data = 0x14
ops store_residual = 0x15
ops apply_residual = 0x16
ops reject_data = 0x17

-- The items of OPS, in their order.
abbrev all_ops : List Opcode
all_ops =
    noop ∷ halt ∷ create_node ∷ create_edge ∷ create_claim ∷ activate ∷ propagate ∷ decay
    ∷ interfere ∷ compute_tension ∷ verify ∷ accept ∷ reject ∷ quarantine ∷ log_receipt
    ∷ emit_receipt ∷ declare_basis ∷ load_coefficients ∷ synthesize ∷ verify_hash ∷ accept_data
    ∷ store_residual ∷ apply_residual ∷ reject_data ∷ []

find_op : ℕ → List Opcode → Option Opcode
find_op code [] = none
find_op code (o ∷ os) = if ops o == code then some o else find_op code os

-- OP_NAMES.get(code)
unfoldable pub op_names : ℕ → Option Opcode
unfolding find_op ops
op_names code = find_op code all_ops

pub data EdgeType : Type 0 where
  support conflict : EdgeType

-- EDGE_TYPES
unfoldable pub edge_types : EdgeType → ℕ
edge_types support = 1
edge_types conflict = 2

-- EDGE_TYPE_NAMES.get(code)
unfoldable pub edge_type_names : ℕ → Option EdgeType
edge_type_names code = if code == 1 then some support else if code == 2 then some conflict else none

pub record Instruction : Type 0 where
  pub opcode : ℕ
  pub flags : ℕ
  pub target : ℕ
  pub source : ℕ
  pub param : ℕ

-- struct.error: a value does not fit its field, or the buffer has another length than 8.
pub data StructError : Type 0 where
  out_of_range wrong_length : StructError

-- `>H`, a big-endian uint16
abbrev pub u16_bytes : ℕ → List ℕ
u16_bytes n = n / 256 ∷ n % 256 ∷ []

unfoldable pub pack : Instruction → Result StructError (List ℕ)
pack i = do
  guard (leb i.opcode 255) out_of_range
  guard (leb i.flags 255) out_of_range
  guard (leb i.target 65535) out_of_range
  guard (leb i.source 65535) out_of_range
  guard (leb i.param 65535) out_of_range
  ok (i.opcode ∷ i.flags ∷ u16_bytes i.target ++ (u16_bytes i.source ++ u16_bytes i.param))

unfoldable pub unpack : List ℕ → Result StructError Instruction
unpack (a ∷ b ∷ c ∷ d ∷ e ∷ f ∷ g ∷ h ∷ []) = ok (record {
  opcode = a;
  flags = b;
  target = c * 256 + d;
  source = e * 256 + f;
  param = g * 256 + h;
})
unpack _ = err wrong_length

-- `b"".join(i.pack() for i in instructions)`
unfoldable pub pack_all : List Instruction → Result StructError (List ℕ)
pack_all [] = ok []
pack_all (i ∷ is) = do bytes ← pack i; rest ← pack_all is; ok (bytes ++ rest)

-- Each field fits its place in the eight bytes.
pub record IsEncodable (i : Instruction) : Type 0 where
  pub opcode_fits : i.opcode < 256
  pub flags_fits : i.flags < 256
  pub target_fits : i.target < 65536
  pub source_fits : i.source < 65536
  pub param_fits : i.param < 65536
