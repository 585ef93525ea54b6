-- ===== src/Container/Reconstruct.antt =====
-- bogvm/container.py: `reconstruct_bog_container_bytes`.
use bogbin.Common.{
  ℕ, zero, suc, ◌+◌, Bool, true, not, ◌&&◌, List, [], ◌∷◌, ◌++◌, length, ltb, set, Result, ok, err,
  ◌>>=◌, ◌>>◌, guard, String, str_eq, option_case,
}
use bogbin.Common.Dict
use bogbin.Common.Dict.{Dict}
use bogbin.Bases.{synthesize_basis}
use bogbin.Transforms.{invert_transform}
use bogbin.Residual.{Residual}
use bogbin.Container.Errors.{
  ContainerError, duplicate_index, from_basis, from_transform, missing_index, patch_range,
  whole_hash, chunk_hash, transformed_hash, original_hash,
}
use bogbin.Container.Records.{Chunk, Container}
use bogbin.Container.Validate.{validate_bog_container}

-- The error of a callee, as it is or wrapped.
abbrev pub lift_error {ℓ} :
    {E A : Type ℓ} → (E → ContainerError) → Result E A → Result ContainerError A
lift_error f (ok a) = ok a
lift_error f (err e) = err (f e)

-- The loop that makes `chunks_by_index`.
unfoldable pub index_chunks : List Chunk → Dict Chunk → Result ContainerError (Dict Chunk)
index_chunks [] by_index = ok by_index
index_chunks (c ∷ cs) by_index = do
  guard (not (Dict.contains c.index by_index)) duplicate_index
  index_chunks cs (Dict.put c.index c by_index)

-- `set(keys) == set(range(n))`: the keys are below n, and the numbers below n are keys.
abbrev pub all_below : ℕ → List ℕ → Bool
all_below n [] = true
all_below n (k ∷ ks) = ltb k n && all_below n ks

abbrev pub all_keys {ℓ} : {V : Type ℓ} → ℕ → Dict V → Bool
all_keys zero d = true
all_keys (suc n) d = Dict.contains n d && all_keys n d

-- The loop over the residuals of a chunk.
unfoldable pub apply_patches : List Residual → List ℕ → Result ContainerError (List ℕ)
apply_patches [] bytes = ok bytes
apply_patches (p ∷ ps) bytes = do
  guard (ltb p.offset (length bytes)) patch_range
  apply_patches ps (set bytes p.offset p.byte)

module _ (sha256 : List ℕ → String) where
  -- The body of the loop over the indices.
  unfoldable pub restore_chunk : ℕ → Chunk → Result ContainerError (List ℕ)
  unfolding apply_patches
  restore_chunk index c = do
    generated ← lift_error from_basis (synthesize_basis c.basis c.start_byte c.length c.delta)
    chunk_bytes ← apply_patches c.residuals generated
    guard (str_eq (sha256 chunk_bytes) c.chunk_sha256) (chunk_hash index)
    guard (str_eq (sha256 chunk_bytes) c.transformed_sha256) (transformed_hash index)
    original_chunk ←
        lift_error from_transform (invert_transform c.transform chunk_bytes c.transform_param)
    guard (str_eq (sha256 original_chunk) c.original_chunk_sha256) (original_hash index)
    ok original_chunk

  -- The loop, with the rounds left; the chunks are joined.
  unfoldable pub restore_chunks : Dict Chunk → ℕ → ℕ → Result ContainerError (List ℕ)
  unfolding restore_chunk
  restore_chunks by_index zero index = ok []
  restore_chunks by_index (suc rounds) index =
      option_case (Dict.get index by_index) (err missing_index) (λ c. do
        original_chunk ← restore_chunk index c
        rest ← restore_chunks by_index rounds (index + 1)
        ok (original_chunk ++ rest))

  -- `reconstruct_bog_container_bytes`
  unfoldable pub reconstruct_bog_container_bytes : Container → Result ContainerError (List ℕ)
  unfolding validate_bog_container index_chunks restore_chunks
  reconstruct_bog_container_bytes c = do
    validate_bog_container c
    by_index ← index_chunks c.chunks []
    guard (all_below c.chunk_count (Dict.keys by_index) && all_keys c.chunk_count by_index)
        missing_index
    reconstructed ← restore_chunks by_index c.chunk_count 0
    guard (str_eq (sha256 reconstructed) c.whole_sha256) whole_hash
    ok reconstructed
