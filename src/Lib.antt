-- ===== src/Lib.antt =====
-- Verification of bogvm, the byte storage virtual machine of BOGBIN.
--
-- A BOGBIN program is a stream of eight-byte instructions that a small virtual machine runs on a
-- table of symbols. The machine keeps a graph of claims and generates blocks of bytes from a named
-- basis, coefficients and patches (residuals); the code means it to accept a claim only after a
-- verifier has looked at it, and a block only after its hash was compared. The optimizer looks for
-- the basis, coefficients and residuals of given bytes; reversible transforms prepare bytes for it.
--
-- Files and the code they model:
--   * Common: no code of the repository; lists over native numbers, results with an exception,
--     dicts, bits, signed integers and sorting.
--   * Instruction: bogvm/opcodes.py (OPS, OP_NAMES, EDGE_TYPES) and bogvm/instruction.py (pack,
--     unpack).
--   * Bases: bogvm/bases.py, `synthesize_basis` with the tables of offsets.
--     Bases/Shaped and Bases/Waves describe its bytes without these tables.
--   * Transforms: bogvm/transforms.py; `apply_transform_with_param` and `invert_transform` dispatch
--     to Transforms/Differences (xor_previous, delta_previous, nibble_split),
--     Transforms/MoveToFront and Transforms/BurrowsWheeler.
--   * Residual: the patch that the optimizer and the machine exchange.
--   * Optimizer: bogvm/optimizer.py. Optimizer/Search has the candidates and their order,
--     Optimizer/Patches `_apply_residuals`, Optimizer/Plan `optimize_residual_plan` and
--     `_assert_exact_reconstruction`, Optimizer/Score `score_reconstruction_plan`, and
--     Optimizer/Transformed `optimize_transformed_residual_plan`, and Optimizer/Chunks the two
--     chunked plans.
--   * Container: bogvm/container.py. Container/Records has the dicts of the JSON container as
--     records, Container/Build `build_bog_container_v1` with the tournament of chunk sizes,
--     Container/Validate `validate_bog_container`, and Container/Reconstruct
--     `reconstruct_bog_container_bytes`. Container/Encode and Container/Decode have
--     `encode_bogpk_container` and `decode_bogpk_container`, Container/Descriptor their descriptors,
--     Container/Bitmask the bitmask encoding of residuals and Container/Hex the digests;
--     Container/Assembly has `compile_bog_container_to_bogasm`.
--     Container/Varuint has `_encode_varuint` and `_decode_varuint`,
--     Container/Residuals `_append_residuals` and `_read_residuals`.
--   * Packer: bogvm/packer.py, the assembler text of plans.
--   * Vm: bogvm/vm.py. Vm/State has VMState, the events of the ledger and the exceptions. Vm/Graph,
--     Vm/Propagation, Vm/Claims and Vm/Blocks have one function for each branch of `BOGVM.run`, and
--     Vm has the loop. An instruction takes a state to an Outcome: it goes on, halts or raises, and
--     what was written before an exception stays written in the state of the outcome.
--     Vm/Support and Vm/Support/Loop follow the search for a support path along the entries of the
--     adjacency lists. Vm/Chains compares these with the edges of the edge table: an edge id that
--     CREATE_EDGE uses again leaves its old entry behind. Vm/Verified has the states in which no id
--     was used for two edges.
--
-- Conventions. Bytes are natural numbers; `IsByte` says that one is below 256. The fields of an
-- instruction are natural numbers, so the lower bounds that the code tests for cannot fail. The ids
-- of the manifest are JSON keys in decimal there and natural numbers here. A name that is not in
-- BASIS_ORDER or TRANSFORM_ORDER is `none`. `hashlib.sha256(data).hexdigest()` is a parameter,
-- any function from bytes to text; where a container is validated, one that gives 64 hex digits.
-- The schema checker of a packed container is a parameter that accepts at least what
-- schemas/bogpk-metadata.schema.json asks for. The rounded quotient of the residual density is a
-- parameter as well, and the floats that it gives are their bit patterns, which have the same
-- order. Python's `sorted` is insertion sort.
--
-- Recursion. The machine has no jumps, so a run is a recursion on its instructions. The search for
-- a support path takes as fuel one round for its source and one for each entry of the adjacency
-- lists: every round takes one node off the queue, and a visit puts at most the entries of its node
-- there, once. `_varuint_size` and `_encode_varuint` take the value as fuel, which every round
-- makes smaller; `_decode_varuint` takes a byte of the reader in each round. The loop over the
-- descriptors of a packed container has the chunk count as fuel: every round makes a descriptor.
-- The decoder of the Burrows-Wheeler transform does one round for each byte.
--
-- Not modelled: the JSON of receipts and its hashes, the reading and writing of files, the
-- assembler, archive, store and signing and the layers above them; the command line, the scripts
-- and the Rust kernel.
pub mod Common
pub mod Instruction
pub mod Bases
pub mod Transforms
pub mod Residual
pub mod Optimizer
pub mod Container
pub mod Packer
pub mod Vm
