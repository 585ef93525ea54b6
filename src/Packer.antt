-- ===== src/Packer.antt =====
-- bogvm/packer.py: the assembler text of a plan and of a chunked plan.
pub mod Compiled
pub mod Outcome
mod Runs
use Prim.Native.Char.{Char, code}
use Prim.Native.String.{◌++◌ as append}
use bogbin.Common.{
  ℕ, ◌+◌, Bool, true, false, not, ◌&&◌, ◌||◌, List, [], ◌∷◌, ◌++◌, map, length, leb, ◌==◌,
  if◌then◌else◌, Result, ok, err, ◌>>=◌, ◌>>◌, guard, String,
}
use bogbin.Common.Decimals.{decimal, four_digits, text_of}
use bogbin.Bases.{Basis, basis_name}
use bogbin.Residual.{Residual}
use bogbin.Optimizer.Plan.{OptimizerError, Plan, optimize_residual_plan}
use bogbin.Optimizer.Chunks.{PlannedChunk, ChunkedPlan, optimize_chunked_residual_plan}

pub data PackerError : Type 0 where
  too_long bad_data_name : PackerError
  from_optimizer : OptimizerError → PackerError

abbrev pub lift_optimizer {ℓ} : {A : Type ℓ} → Result OptimizerError A → Result PackerError A
lift_optimizer (ok a) = ok a
lift_optimizer (err e) = err (from_optimizer e)

-- `ch.isspace()`
unfoldable pub is_space : Char → Bool
is_space c =
    (leb 9 (code c) && leb (code c) 13)
    || ((leb 28 (code c) && leb (code c) 32)
        || ((leb 8192 (code c) && leb (code c) 8202)
            || ((code c == 133 || code c == 160)
                || ((code c == 5760 || code c == 8232)
                    || ((code c == 8233 || code c == 8239)
                        || (code c == 8287 || code c == 12288))))))

unfoldable pub any_space : String → Bool
unfolding is_space
any_space String.[] = false
any_space (String.◌∷◌ c text) = is_space c || any_space text

unfoldable pub is_empty : String → Bool
is_empty String.[] = true
is_empty (String.◌∷◌ c text) = false

-- `_validate_data_name`
unfoldable pub validate_data_name : String → Result PackerError (Unit {0})
unfolding is_empty any_space
validate_data_name data_name = guard (not (is_empty data_name || any_space data_name)) bad_data_name

-- The parts of a line, with a blank between two.
unfoldable pub words : String → List String → String
words word [] = word
words word (next ∷ rest) = append word (append " " (words next rest))

-- The lines of the residuals of a block.
unfoldable pub residual_lines : String → List Residual → List String
unfolding words decimal
residual_lines name [] = []
residual_lines name (p ∷ ps) =
    words "STORE_RESIDUAL" (name ∷ decimal p.offset ∷ decimal p.byte ∷ []) ∷ residual_lines name ps

-- The lines of the block of one plan.
unfoldable pub plan_lines : String → Plan → List String
unfolding words decimal residual_lines
plan_lines name plan =
    (words "DATA_BLOCK" (name ∷ [])
      ∷ words "DECLARE_BASIS" (basis_name plan.basis ∷ [])
      ∷ words "LOAD_COEFFICIENTS"
          (name ∷ decimal plan.start_byte ∷ decimal plan.length ∷ decimal plan.delta ∷ [])
      ∷ words "SYNTHESIZE" (name ∷ [])
      ∷ residual_lines name plan.residuals)
    ++ (words "APPLY_RESIDUAL" (name ∷ [])
        ∷ words "VERIFY_HASH" (name ∷ plan.sha256 ∷ [])
        ∷ words "ACCEPT_DATA" (name ∷ [])
        ∷ [])

abbrev pub last_lines : List String
last_lines = "EMIT_RECEIPT" ∷ "HALT" ∷ []

-- `f"{data_name}_chunk_{chunk['index']:04d}"`
unfoldable pub name_of_chunk : String → ℕ → String
unfolding four_digits
name_of_chunk data_name index = append data_name (append "_chunk_" (four_digits index))

-- The loop over the chunks.
unfoldable pub chunks_lines : String → List PlannedChunk → List String
unfolding plan_lines name_of_chunk
chunks_lines data_name [] = []
chunks_lines data_name (c ∷ cs) =
    plan_lines (name_of_chunk data_name c.index) c.plan ++ chunks_lines data_name cs

-- The comments in front of the chunks.
unfoldable pub plan_comments : ChunkedPlan → List String
unfolding decimal
plan_comments plan =
    append "# BOGBIN v1.2 chunked pack receipt whole_sha256 " plan.whole_sha256
    ∷ append "# chunk_size " (decimal plan.chunk_size)
    ∷ append "# chunk_count " (decimal plan.chunk_count)
    ∷ append "# total_residual_count " (decimal plan.total_residual_count)
    ∷ []

-- The entries of the metadata of a receipt.
pub record PackMetadata : Type 0 where
  pub pack_mode : String
  pub chunk_size : ℕ
  pub chunk_count : ℕ
  pub total_residual_count : ℕ
  pub whole_sha256 : String

module _ (sha256 : List ℕ → String) where
  -- `pack_bytes_to_bogasm`; MAX_U16 is 65535.
  unfoldable pub pack_bytes_to_bogasm : List ℕ → String → Result PackerError String
  unfolding validate_data_name plan_lines text_of
  pack_bytes_to_bogasm bytes data_name = do
    validate_data_name data_name
    guard (leb (length bytes) 65535) too_long
    plan ← lift_optimizer (optimize_residual_plan sha256 bytes)
    ok (text_of (plan_lines data_name plan ++ last_lines))

  -- `pack_chunked_bytes_to_bogasm`
  unfoldable pub pack_chunked_bytes_to_bogasm : List ℕ → String → ℕ → Result PackerError String
  unfolding validate_data_name plan_comments chunks_lines text_of
  pack_chunked_bytes_to_bogasm bytes data_name chunk_size = do
    validate_data_name data_name
    plan ← lift_optimizer (optimize_chunked_residual_plan sha256 bytes chunk_size)
    ok (text_of (plan_comments plan ++ (chunks_lines data_name plan.chunks ++ last_lines)))

  -- `build_pack_receipt_metadata`
  unfoldable pub build_pack_receipt_metadata : List ℕ → ℕ → Bool → Result PackerError PackMetadata
  build_pack_receipt_metadata bytes chunk_size true = do
    plan ← lift_optimizer (optimize_residual_plan sha256 bytes)
    ok (record {
      pack_mode = "single_block";
      chunk_size = length bytes;
      chunk_count = 1;
      total_residual_count = plan.residual_count;
      whole_sha256 = sha256 bytes;
    })
  build_pack_receipt_metadata bytes chunk_size false = do
    plan ← lift_optimizer (optimize_chunked_residual_plan sha256 bytes chunk_size)
    ok (record {
      pack_mode = "chunked";
      chunk_size = plan.chunk_size;
      chunk_count = plan.chunk_count;
      total_residual_count = plan.total_residual_count;
      whole_sha256 = plan.whole_sha256;
    })
