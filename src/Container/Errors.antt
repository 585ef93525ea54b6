-- ===== src/Container/Errors.antt =====
-- bogvm/container.py: the exceptions. A ContainerError has one constructor for each text; the
-- exceptions of the functions that are called, and the ValueError of `bytearray.append` for what is
-- no byte, pass through.
use bogbin.Common.{ℕ}
use bogbin.Bases.{BasisError}
use bogbin.Transforms.Names.{TransformError}
use bogbin.Optimizer.Plan.{OptimizerError}

pub data ContainerError : Type 0 where
  unexpected_end non_minimal too_large negative byte_value : ContainerError
  residual_count residual_offset : ContainerError
  mask_outside mask_count mask_index not_in_order : ContainerError
  bad_format bad_vm_format bad_pack_mode bad_chunk_size bad_whole_hash : ContainerError
  chunk_count_mismatch total_mismatch : ContainerError
  index_order bad_name offset_order bad_length empty_chunk bad_basis bad_transform : ContainerError
  bad_start bad_delta count_mismatch bad_chunk_hash bad_transformed_hash : ContainerError
  bad_original_hash patch_offset patch_order patch_byte : ContainerError
  bad_candidate_sizes selected_size selected_total tournament_sizes : ContainerError
  bad_candidate_transforms tournament_transforms transform_counts_sum : ContainerError
  schema_error : ContainerError
  duplicate_index missing_index patch_range : ContainerError
  chunk_hash transformed_hash original_hash : ℕ → ContainerError
  whole_hash : ContainerError
  size_not_candidate bad_hex : ContainerError
  bad_magic unsupported_flags hash_streams bad_size_code : ContainerError
  unsupported_version : ℕ → ContainerError
  chunks_of_empty no_chunks decoded_count residual_excess : ContainerError
  sentinel_without_flag short_run long_run reserved_transform reserved_basis transform_range
        basis_range :
      ContainerError
  empty_container final_length residual_total trailing_bytes decoded_length : ContainerError
  decoded_hash : ContainerError
  inversion_failed : TransformError → ContainerError
  from_basis : BasisError → ContainerError
  from_transform : TransformError → ContainerError
  from_optimizer : OptimizerError → ContainerError
