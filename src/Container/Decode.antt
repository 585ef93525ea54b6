-- ===== src/Container/Decode.antt =====
-- bogvm/container.py: `decode_bogpk_container`. The reader is the list of the bytes not yet read.
use bogbin.Common.{
  ℕ, zero, suc, ◌+◌, ◌-◌, ◌*◌, ◌/◌, bit_and, Bool, true, false, not, ◌&&◌, some, List, [], ◌∷◌,
  ◌++◌, length, map, replicate, get_elem?, leb, ltb, ◌==◌, if◌then◌else◌, set, Result, ok, err,
  ◌>>=◌, ◌>>◌, guard, option_case, String, str_eq,
}
use bogbin.Common.ByteStrings.{bytes_eq}
use bogbin.Bases.{Basis, synthesize_basis}
use bogbin.Transforms.{invert_transform}
use bogbin.Transforms.Names.{Transform, transform_order}
use bogbin.Residual.{Residual}
use bogbin.Optimizer.Chunks.{no_counts, count_transforms}
use bogbin.Container.Errors.{
  ContainerError, bad_magic, unexpected_end, bad_size_code, chunks_of_empty, decoded_count,
  decoded_hash, empty_container, final_length, from_basis, hash_streams, inversion_failed,
  no_chunks, decoded_length, patch_range, residual_excess, residual_total, schema_error,
  trailing_bytes, unsupported_flags, sentinel_without_flag, unsupported_version, short_run,
  long_run,
}
use bogbin.Container.Records.{Chunk, Container, sizes, chunk_name, bog_format, bogbin_format}
use bogbin.Container.Validate.{validate_bog_container}
use bogbin.Container.Build.{residual_density}
use bogbin.Container.Reconstruct.{lift_error}
use bogbin.Container.Varuint.{decode_varuint}
use bogbin.Container.Residuals.{read_byte, read_residuals}
use bogbin.Container.Bitmask.{read_bytes, read_bitmask_residuals}
use bogbin.Container.Descriptor.{Descriptor, decode_descriptor, read_transform_param}
use bogbin.Container.Hex.{to_hex}
use bogbin.Container.Encode.{bogpk_magic, bogpk_version, zero_residual_runs, descriptor_sentinel}

-- The end of both kinds of entries: the start byte, the delta and the transform parameter.
unfoldable pub read_entry : List ℕ → ℕ → Result ContainerError (ℕ × ℕ × ℕ × List ℕ)
unfolding read_byte read_transform_param
read_entry bytes descriptor = do
  (start_byte, at_delta) ← read_byte bytes
  (delta, at_param) ← read_byte at_delta
  (transform_param, at_end) ← read_transform_param at_param descriptor
  ok (start_byte, delta, transform_param, at_end)

-- `while len(descriptors) < chunk_count`, with the number of descriptors that are left, and fuel: every
-- round makes a descriptor.
unfoldable pub read_descriptors :
    ℕ → ℕ → ℕ → List ℕ → Result ContainerError (List Descriptor × List ℕ)
unfolding read_byte read_entry decode_varuint decode_descriptor
read_descriptors fuel flags zero bytes = ok ([], bytes)
read_descriptors zero flags (suc left) bytes = ok ([], bytes)
read_descriptors (suc fuel) flags (suc left) [] = err unexpected_end
read_descriptors (suc fuel) flags (suc left) (marker ∷ at_entry) =
    elim (marker == descriptor_sentinel) [
      | true ↦
          guard (not (bit_and flags zero_residual_runs == 0)) sentinel_without_flag
          >> (decode_varuint at_entry >>= λ (run_length, at_descriptor).
              guard (leb 2 run_length) short_run
              >> (read_byte at_descriptor >>= λ (descriptor, at_start).
                  read_entry at_start descriptor
                  >>= λ (start_byte, delta, transform_param, at_next).
                      guard (leb run_length (suc left)) long_run
                      >> (decode_descriptor descriptor start_byte delta transform_param 0 >>= λ one.
                          read_descriptors fuel flags (suc left - run_length) at_next
                          >>= λ (rest, at_end). ok (replicate run_length one ++ rest, at_end))))
      | false ↦ read_entry at_entry marker >>= λ (start_byte, delta, transform_param, at_count).
          decode_varuint at_count >>= λ (residual_count, at_next).
          decode_descriptor marker start_byte delta transform_param residual_count >>= λ one.
          read_descriptors fuel flags left at_next >>= λ (rest, at_end). ok (one ∷ rest, at_end)
    ]

-- `_decoded_chunk_length`
unfoldable pub decoded_chunk_length : ℕ → ℕ → ℕ → ℕ → Result ContainerError ℕ
decoded_chunk_length index chunk_count chunk_size original_length = do
  guard (ltb 0 chunk_count) empty_container
  let before : ℕ = (chunk_count - 1) * chunk_size
  if ltb index (chunk_count - 1)
      then ok chunk_size
      else (guard (ltb before original_length && leb (original_length - before) chunk_size)
            final_length
          >> ok (original_length - before))

-- `data[patch["offset"]] = patch["byte"]` for each patch
unfoldable pub patch_all : List Residual → List ℕ → Result ContainerError (List ℕ)
patch_all [] bytes = ok bytes
patch_all (p ∷ ps) bytes = do
  guard (ltb p.offset (length bytes)) patch_range
  patch_all ps (set bytes p.offset p.byte)

-- `_synthesize_residual_chunk`
unfoldable pub synthesize_residual_chunk :
    Basis → ℕ → ℕ → ℕ → List Residual → Result ContainerError (List ℕ)
unfolding patch_all
synthesize_residual_chunk basis start_byte delta size residuals = do
  bytes ← lift_error from_basis (synthesize_basis (some basis) start_byte size delta)
  patch_all residuals bytes

-- The residuals of a chunk, in the encoding of its descriptor.
unfoldable pub read_chunk_residuals :
    List ℕ → Descriptor → ℕ → Result ContainerError (List Residual × List ℕ)
unfolding read_bitmask_residuals read_residuals
read_chunk_residuals bytes d size =
    if d.is_bitmask
    then read_bitmask_residuals bytes d.residual_count size
    else read_residuals bytes d.residual_count size

module _ (sha256 : List ℕ → String) where
  -- The loop over the descriptors: the chunks, the original bytes, and the reader.
  unfoldable pub decode_chunks :
      ℕ
      → ℕ
      → ℕ
      → List Descriptor
      → ℕ
      → List ℕ
      → Result ContainerError (List Chunk × List ℕ × List ℕ)
  unfolding decoded_chunk_length read_chunk_residuals synthesize_residual_chunk
  decode_chunks chunk_count chunk_size original_length [] index bytes = ok ([], [], bytes)
  decode_chunks chunk_count chunk_size original_length (d ∷ ds) index bytes = do
    size ← decoded_chunk_length index chunk_count chunk_size original_length
    (residuals, at_next) ← read_chunk_residuals bytes d size
    transformed ← synthesize_residual_chunk d.basis d.start_byte d.delta size residuals
    original ←
        lift_error inversion_failed
          (invert_transform (some d.transform) transformed d.transform_param)
    (chunks, originals, at_end) ←
        decode_chunks chunk_count chunk_size original_length ds (index + 1) at_next
    ok (
      record {
        index = index;
        name = chunk_name index;
        offset = index * chunk_size;
        length = size;
        basis = some d.basis;
        start_byte = d.start_byte;
        delta = d.delta;
        transform = some d.transform;
        transform_param = d.transform_param;
        residual_count = length residuals;
        residuals = residuals;
        chunk_sha256 = sha256 transformed;
        transformed_sha256 = sha256 transformed;
        original_chunk_sha256 = sha256 original;
      }
          ∷ chunks,
      original ++ originals,
      at_end,
    )

-- `residual_total`
abbrev pub residuals_in : List Chunk → ℕ
residuals_in [] = 0
residuals_in (c ∷ cs) = length c.residuals + residuals_in cs

-- The transforms of the chunks, which the descriptors name.
abbrev pub transforms_in : List Chunk → List Transform
transforms_in [] = []
transforms_in (c ∷ cs) = option_case c.transform (transforms_in cs) (λ t. t ∷ transforms_in cs)

-- The header behind the magic bytes.
pub record Header : Type 0 where
  pub flags : ℕ
  pub chunk_size : ℕ
  pub original_length : ℕ
  pub chunk_count : ℕ
  pub total_residual_count : ℕ
  pub whole_sha256 : String

-- The reads of the header, with the tests among them. `flags & ~7` is zero below 8.
unfoldable pub read_header : List ℕ → Result ContainerError (Header × List ℕ)
unfolding read_bytes bytes_eq read_byte decode_varuint to_hex
read_header bytes = do
  (magic, at_version) ← read_bytes bytes (length bogpk_magic)
  guard (bytes_eq magic bogpk_magic) bad_magic
  (version, at_flags) ← read_byte at_version
  guard (version == bogpk_version) (unsupported_version version)
  (flags, at_code) ← read_byte at_flags
  guard (ltb flags 8) unsupported_flags
  guard (bit_and flags 3 == 0) hash_streams
  (chunk_size_code, at_length) ← read_byte at_code
  option_case (get_elem? sizes chunk_size_code) (err bad_size_code) (λ chunk_size. do
    (original_length, at_count) ← decode_varuint at_length
    (chunk_count, at_total) ← decode_varuint at_count
    (total_residual_count, at_hash) ← decode_varuint at_total
    (whole, at_end) ← read_bytes at_hash 32
    ok (
      record {
        flags = flags;
        chunk_size = chunk_size;
        original_length = original_length;
        chunk_count = chunk_count;
        total_residual_count = total_residual_count;
        whole_sha256 = to_hex whole;
      },
      at_end,
    ))

-- The tests on the numbers of the header.
unfoldable pub check_header : Header → Result ContainerError (Unit {0})
check_header h = do
  guard (not (h.original_length == 0 && not (h.chunk_count == 0))) chunks_of_empty
  guard (not (ltb 0 h.original_length && h.chunk_count == 0)) no_chunks
  let expected_chunk_count : ℕ =
      if h.original_length == 0 then 0 else (h.original_length + h.chunk_size - 1) / h.chunk_size
  guard (h.chunk_count == expected_chunk_count) decoded_count
  guard (leb h.total_residual_count h.original_length) residual_excess

module _ (round_quotient : ℕ → ℕ → ℕ) where
  -- The dict that the decoder makes.
  unfoldable pub decoded_container : Header → List Chunk → Container
  unfolding count_transforms residual_density
  decoded_container h chunks = record {
    format = bog_format;
    vm_format = bogbin_format;
    pack_mode = "chunked";
    chunk_size = h.chunk_size;
    chunk_count = h.chunk_count;
    whole_sha256 = h.whole_sha256;
    total_residual_count = h.total_residual_count;
    chunks = chunks;
    chunk_tournament_enabled = false;
    candidate_chunk_sizes = h.chunk_size ∷ [];
    selected_chunk_size = h.chunk_size;
    selected_total_residual_count = h.total_residual_count;
    selected_residual_density =
        residual_density round_quotient h.total_residual_count h.original_length;
    chunk_tournament_results = [];
    transform_tournament_enabled = true;
    candidate_transforms = map (λ t. some t) transform_order;
    selected_transform_counts = count_transforms (transforms_in chunks) no_counts;
  }

  module _ (sha256 : List ℕ → String) (fits_schema : Container → Bool) where
    -- `decode_bogpk_container`
    unfoldable pub decode_bogpk_container : List ℕ → Result ContainerError Container
    unfolding read_header check_header read_descriptors decode_chunks decoded_container
        validate_bog_container
    decode_bogpk_container bytes = do
      (h, at_descriptors) ← read_header bytes
      check_header h
      (descriptors, at_residuals) ←
          read_descriptors h.chunk_count h.flags h.chunk_count at_descriptors
      (chunks, reconstructed, at_end) ←
          decode_chunks sha256 h.chunk_count h.chunk_size h.original_length descriptors 0
            at_residuals
      guard (residuals_in chunks == h.total_residual_count) residual_total
      guard (length at_end == 0) trailing_bytes
      guard (length reconstructed == h.original_length) decoded_length
      guard (str_eq (sha256 reconstructed) h.whole_sha256) decoded_hash
      let container : Container = decoded_container h chunks
      validate_bog_container container
      guard (fits_schema container) schema_error
      ok container
