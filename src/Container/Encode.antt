-- ===== src/Container/Encode.antt =====
-- bogvm/container.py: `encode_bogpk_container`.
use bogbin.Common.{
  ℕ, zero, suc, ◌+◌, ◌-◌, bit_or, Bool, true, false, Option, none, some, List, [], ◌∷◌, ◌++◌, leb,
  ltb, ◌==◌, if◌then◌else◌, Result, ok, err, ◌>>=◌, ◌>>◌, guard, option_case,
}
use bogbin.Container.Errors.{ContainerError, size_not_candidate, schema_error, byte_value}
use bogbin.Container.Records.{Chunk, Container, sizes}
use bogbin.Container.Validate.{validate_bog_container}
use bogbin.Container.Varuint.{encode_varuint}
use bogbin.Container.Residuals.{append_residuals}
use bogbin.Container.Bitmask.{append_bitmask_residuals, best_is_bitmask}
use bogbin.Container.Descriptor.{
  encode_descriptor, append_transform_param, zero_residual_run_length,
}
use bogbin.Container.Hex.{from_hex}

-- BOGPK_MAGIC
abbrev pub bogpk_magic : List ℕ
bogpk_magic = 66 ∷ 79 ∷ 71 ∷ 80 ∷ 75 ∷ 49 ∷ []

abbrev pub bogpk_version : ℕ
bogpk_version = 1

-- BOGPK_FLAG_ZERO_RESIDUAL_RUNS
abbrev pub zero_residual_runs : ℕ
zero_residual_runs = 4

-- BOGPK_DESCRIPTOR_SENTINEL
abbrev pub descriptor_sentinel : ℕ
descriptor_sentinel = 255

-- What the loop has made: the flags and the two streams.
pub record Streams : Type 0 where
  pub flags : ℕ
  pub descriptor_bytes : List ℕ
  pub residual_bytes : List ℕ

-- The bytes that both kinds of entries have.
unfoldable pub entry_bytes : Chunk → Bool → Result ContainerError (List ℕ)
unfolding encode_descriptor append_transform_param
entry_bytes c is_bitmask = do
  descriptor ← encode_descriptor c is_bitmask
  guard (leb c.start_byte 255) byte_value
  guard (leb c.delta 255) byte_value
  ok (descriptor ∷ c.start_byte ∷ c.delta ∷ append_transform_param c)

-- The residuals of one chunk.
unfoldable pub residual_entry : Chunk → Bool → Result ContainerError (List ℕ)
unfolding append_bitmask_residuals append_residuals
residual_entry c true = append_bitmask_residuals c.length c.residuals
residual_entry c false = append_residuals c.residuals

-- The loop over the chunks. `index += run_length` passes over the other chunks of the run: `skip` is
-- how many of the next chunks are in the run. The streams are what is appended from here on.
unfoldable pub encode_chunks : ℕ → ℕ → List Chunk → Result ContainerError Streams
unfolding entry_bytes residual_entry zero_residual_run_length best_is_bitmask
encode_chunks skip flags [] =
    ok (record { flags = flags; descriptor_bytes = []; residual_bytes = [] })
encode_chunks (suc skip) flags (c ∷ cs) = encode_chunks skip flags cs
encode_chunks zero flags (c ∷ cs) =
    let run_length : ℕ = zero_residual_run_length c cs in
    elim (ltb 1 run_length) [
      | true ↦ entry_bytes c false >>= λ entry.
          encode_chunks (run_length - 1) (bit_or flags zero_residual_runs) cs >>= λ streams.
          ok (record {
            flags = streams.flags;
            descriptor_bytes =
                (descriptor_sentinel ∷ encode_varuint run_length)
                ++ entry
                ++ streams.descriptor_bytes;
            residual_bytes = streams.residual_bytes;
          })
      | false ↦ best_is_bitmask c.residual_count c.length c.residuals >>= λ is_bitmask.
          entry_bytes c is_bitmask >>= λ entry. residual_entry c is_bitmask >>= λ residuals.
          encode_chunks zero flags cs >>= λ streams. ok (record {
            flags = streams.flags;
            descriptor_bytes = entry ++ encode_varuint c.residual_count ++ streams.descriptor_bytes;
            residual_bytes = residuals ++ streams.residual_bytes;
          })
    ]

-- `sum(chunk["length"] for chunk in chunks)`
abbrev pub length_sum : List Chunk → ℕ
length_sum [] = 0
length_sum (c ∷ cs) = c.length + length_sum cs

-- `CANDIDATE_CHUNK_SIZES.index`
unfoldable pub size_code : ℕ → List ℕ → Option ℕ
size_code n [] = none
size_code n (m ∷ ms) =
    let later = size_code n ms in
    if m == n then some 0 else option_case later none (λ i. some (suc i))

-- Whether jsonschema finds no error for bogpk-metadata.schema.json is the parameter `fits_schema`.
module _ (fits_schema : Container → Bool) where
  -- `encode_bogpk_container`
  unfoldable pub encode_bogpk_container : Container → Result ContainerError (List ℕ)
  unfolding validate_bog_container encode_chunks size_code from_hex
  encode_bogpk_container c = do
    validate_bog_container c
    guard (fits_schema c) schema_error
    option_case (size_code c.chunk_size sizes) (err size_not_candidate) (λ code. do
      streams ← encode_chunks 0 0 c.chunks
      whole ← from_hex c.whole_sha256
      ok (
          bogpk_magic
          ++ (bogpk_version ∷ streams.flags ∷ code ∷ encode_varuint (length_sum c.chunks))
          ++ encode_varuint c.chunk_count
          ++ encode_varuint c.total_residual_count
          ++ whole
          ++ streams.descriptor_bytes
          ++ streams.residual_bytes))
