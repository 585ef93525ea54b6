-- ===== src/Container/Validate.antt =====
-- bogvm/container.py: `validate_bog_container` and what it calls. The tests of types and of missing
-- entries hold of every value of the records, and a number below 0 cannot occur.
use bogbin.Common.{
  ℕ, ◌+◌, Bool, true, false, not, ◌&&◌, ◌||◌, Option, none, some, List, [], ◌∷◌, map, length, leb,
  ltb, ◌==◌, Result, ok, ◌>>◌, guard, str_eq,
}
use bogbin.Common.ByteStrings.{bytes_eq}
use bogbin.Transforms.Names.{Transform, transform_order}
use bogbin.Residual.{Residual}
use bogbin.Optimizer.Chunks.{Counts, transform_id}
use bogbin.Container.Errors.{
  ContainerError, bad_basis, bad_candidate_sizes, bad_candidate_transforms, bad_chunk_hash,
  bad_chunk_size, bad_delta, bad_format, bad_length, bad_name, bad_original_hash, bad_pack_mode,
  bad_start, bad_transform, bad_transformed_hash, bad_vm_format, bad_whole_hash,
  chunk_count_mismatch, count_mismatch, empty_chunk, index_order, offset_order, patch_byte,
  patch_offset, patch_order, selected_size, selected_total, total_mismatch, tournament_sizes,
  tournament_transforms, transform_counts_sum,
}
use bogbin.Container.Records.{
  Chunk, Container, bog_format, bogbin_format, sizes, chunk_name, is_sha256,
}

-- `x in ORDER`
abbrev pub is_known {ℓ} : {A : Type ℓ} → Option A → Bool
is_known none = false
is_known (some a) = true

-- The smallest offset above the previous one, where `none` is -1.
abbrev above : Option ℕ → ℕ → Bool
above none offset = true
above (some previous) offset = ltb previous offset

-- The loop over the residuals.
unfoldable pub validate_patches : ℕ → Option ℕ → List Residual → Result ContainerError (Unit {0})
validate_patches n previous [] = ok tt
validate_patches n previous (p ∷ ps) = do
  guard (ltb p.offset n) patch_offset
  guard (above previous p.offset) patch_order
  guard (leb p.byte 255) patch_byte
  validate_patches n (some p.offset) ps

-- `_validate_chunk`
unfoldable pub validate_chunk : Chunk → ℕ → ℕ → ℕ → Result ContainerError (Unit {0})
unfolding validate_patches chunk_name is_sha256
validate_chunk c expected_index expected_offset chunk_size = do
  guard (c.index == expected_index) index_order
  guard (str_eq c.name (chunk_name expected_index)) bad_name
  guard (c.offset == expected_offset) offset_order
  guard (leb c.length chunk_size) bad_length
  guard (ltb 0 c.length) empty_chunk
  guard (is_known c.basis) bad_basis
  guard (is_known c.transform) bad_transform
  guard (leb c.start_byte 255) bad_start
  guard (leb c.delta 255) bad_delta
  guard (length c.residuals == c.residual_count) count_mismatch
  guard (is_sha256 c.chunk_sha256) bad_chunk_hash
  guard (is_sha256 c.transformed_sha256) bad_transformed_hash
  guard (is_sha256 c.original_chunk_sha256) bad_original_hash
  validate_patches c.length none c.residuals

-- The loop over `enumerate(container["chunks"])`.
unfoldable pub validate_chunks : List Chunk → ℕ → ℕ → ℕ → Result ContainerError (Unit {0})
unfolding validate_chunk
validate_chunks [] expected_index expected_offset chunk_size = ok tt
validate_chunks (c ∷ cs) expected_index expected_offset chunk_size = do
  validate_chunk c expected_index expected_offset chunk_size
  validate_chunks cs (expected_index + 1) (expected_offset + c.length) chunk_size

abbrev pub residual_sum : List Chunk → ℕ
residual_sum [] = 0
residual_sum (c ∷ cs) = c.residual_count + residual_sum cs

abbrev all_positive : List ℕ → Bool
all_positive [] = true
all_positive (n ∷ ns) = ltb 0 n && all_positive ns

-- `_validate_tournament_metadata`
unfoldable pub validate_tournament_metadata : Container → Result ContainerError (Unit {0})
unfolding bytes_eq
validate_tournament_metadata c = do
  guard (all_positive c.candidate_chunk_sizes) bad_candidate_sizes
  guard (c.selected_chunk_size == c.chunk_size) selected_size
  guard (c.selected_total_residual_count == c.total_residual_count) selected_total
  guard (not c.chunk_tournament_enabled || bytes_eq c.candidate_chunk_sizes sizes) tournament_sizes

-- The places of known names in TRANSFORM_ORDER; another name has the place behind the last.
abbrev ids : List (Option Transform) → List ℕ
ids [] = []
ids (none ∷ ts) = 7 ∷ ids ts
ids (some t ∷ ts) = transform_id t ∷ ids ts

abbrev all_known : List (Option Transform) → Bool
all_known [] = true
all_known (t ∷ ts) = is_known t && all_known ts

-- `sum(selected_counts.values())`
abbrev pub counts_sum : Counts → ℕ
counts_sum [] = 0
counts_sum ((t, n) ∷ counts) = n + counts_sum counts

-- `_validate_transform_metadata`
unfoldable pub validate_transform_metadata : Container → Result ContainerError (Unit {0})
unfolding bytes_eq transform_id
validate_transform_metadata c = do
  guard (all_known c.candidate_transforms) bad_candidate_transforms
  guard
      (not c.transform_tournament_enabled
        || bytes_eq (ids c.candidate_transforms) (map transform_id transform_order))
      tournament_transforms
  guard (counts_sum c.selected_transform_counts == c.chunk_count) transform_counts_sum

-- `validate_bog_container`
unfoldable pub validate_bog_container : Container → Result ContainerError (Unit {0})
unfolding validate_chunks validate_tournament_metadata validate_transform_metadata is_sha256
validate_bog_container c = do
  guard (str_eq c.format bog_format) bad_format
  guard (str_eq c.vm_format bogbin_format) bad_vm_format
  guard (str_eq c.pack_mode "chunked") bad_pack_mode
  guard (ltb 0 c.chunk_size) bad_chunk_size
  guard (is_sha256 c.whole_sha256) bad_whole_hash
  guard (length c.chunks == c.chunk_count) chunk_count_mismatch
  validate_chunks c.chunks 0 0 c.chunk_size
  guard (residual_sum c.chunks == c.total_residual_count) total_mismatch
  validate_tournament_metadata c
  validate_transform_metadata c
