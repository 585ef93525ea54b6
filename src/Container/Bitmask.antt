-- ===== src/Container/Bitmask.antt =====
-- bogvm/container.py: the two encodings of the residuals of a chunk, and the bitmask one.
use bogbin.Common.{
  ℕ, zero, suc, ◌+◌, ◌*◌, ◌/◌, ◌%◌, ◌^◌, bit_and, bit_or, Bool, false, not, ◌&&◌, List, [], ◌∷◌,
  ◌++◌, length, take, drop, get_elem?, get_or, set, replicate, leb, ltb, ◌==◌, if◌then◌else◌,
  Result, ok, err, ◌>>=◌, ◌>>◌, guard, option_case,
}
use bogbin.Common.Dict
use bogbin.Common.Dict.{Dict}
use bogbin.Common.Sorting.{sort}
use bogbin.Residual.{Residual}
use bogbin.Container.Errors.{
  ContainerError, unexpected_end, byte_value, mask_index, residual_count, mask_outside, mask_count,
}
use bogbin.Container.Residuals.{append_residuals, read_byte}

-- `mask[offset // 8] |= 1 << (offset % 8)`
unfoldable pub mark : List ℕ → ℕ → Result ContainerError (List ℕ)
mark mask offset =
    option_case (get_elem? mask (offset / 8)) (err mask_index)
      (λ byte. ok (set mask (offset / 8) (bit_or byte (2 ^ (offset % 8)))))

unfoldable pub mark_all : List ℕ → List ℕ → Result ContainerError (List ℕ)
unfolding mark
mark_all [] mask = ok mask
mark_all (offset ∷ offsets) mask = do marked ← mark mask offset; mark_all offsets marked

-- The dict comprehension, on top of a dict.
unfoldable pub by_offset : List Residual → Dict ℕ → Dict ℕ
by_offset [] residuals_by_offset = residuals_by_offset
by_offset (p ∷ ps) residuals_by_offset = by_offset ps (Dict.put p.offset p.byte residuals_by_offset)

-- The appends of the last loop. The offsets are keys; `append` raises for what is no byte.
unfoldable pub bytes_at : Dict ℕ → List ℕ → Result ContainerError (List ℕ)
bytes_at residuals_by_offset [] = ok []
bytes_at residuals_by_offset (offset ∷ offsets) = do
  guard (leb (Dict.get_or offset 0 residuals_by_offset) 255) byte_value
  rest ← bytes_at residuals_by_offset offsets
  ok (Dict.get_or offset 0 residuals_by_offset ∷ rest)

-- `(length + 7) // 8`
abbrev pub mask_size : ℕ → ℕ
mask_size size = (size + 7) / 8

-- `_append_bitmask_residuals`: the bytes that it appends.
unfoldable pub append_bitmask_residuals : ℕ → List Residual → Result ContainerError (List ℕ)
unfolding mark_all by_offset bytes_at
append_bitmask_residuals size residuals = do
  let residuals_by_offset : Dict ℕ = by_offset residuals []
  mask ← mark_all (Dict.keys residuals_by_offset) (replicate (mask_size size) 0)
  bytes ← bytes_at residuals_by_offset (sort leb (Dict.keys residuals_by_offset))
  ok (mask ++ bytes)

-- `_ByteReader.read_bytes`
unfoldable pub read_bytes : List ℕ → ℕ → Result ContainerError (List ℕ × List ℕ)
read_bytes bytes size =
    if leb size (length bytes) then ok (take size bytes, drop size bytes) else err unexpected_end

-- `mask[offset // 8] & (1 << (offset % 8))`, for an offset inside the mask
abbrev pub is_marked : List ℕ → ℕ → Bool
is_marked mask offset = not (bit_and (get_or mask (offset / 8) 0) (2 ^ (offset % 8)) == 0)

-- The marked offsets among the next ones.
unfoldable pub marked_offsets : List ℕ → ℕ → ℕ → List ℕ
marked_offsets mask zero offset = []
marked_offsets mask (suc rounds) offset =
    let rest = marked_offsets mask rounds (offset + 1) in
    if is_marked mask offset then offset ∷ rest else rest

-- The test of the unused bits of the last byte; `mask[-1]` of a mask that is not empty.
unfoldable pub is_outside : List ℕ → ℕ → Bool
is_outside [] size = false
is_outside (byte ∷ mask) size =
    not (size % 8 == 0)
    && not
        (bit_and (get_or (byte ∷ mask) (length mask) 0) (bit_and (255 * 2 ^ (size % 8)) 255) == 0)

-- The patches at the offsets, with the bytes that are read for them.
unfoldable pub read_each : List ℕ → List ℕ → Result ContainerError (List Residual × List ℕ)
unfolding read_byte
read_each [] bytes = ok ([], bytes)
read_each (offset ∷ offsets) bytes = do
  (byte, at_next) ← read_byte bytes
  (rest, at_end) ← read_each offsets at_next
  ok (record { offset = offset; byte = byte } ∷ rest, at_end)

-- `_read_bitmask_residuals`
unfoldable pub read_bitmask_residuals :
    List ℕ → ℕ → ℕ → Result ContainerError (List Residual × List ℕ)
unfolding read_bytes is_outside marked_offsets read_each
read_bitmask_residuals bytes count size = do
  guard (leb count size) residual_count
  (mask, at_bytes) ← read_bytes bytes (mask_size size)
  guard (not (is_outside mask size)) mask_outside
  let offsets : List ℕ = marked_offsets mask size 0
  guard (length offsets == count) mask_count
  read_each offsets at_bytes

-- `_best_residual_encoding`: whether it is the bitmask.
unfoldable pub best_is_bitmask : ℕ → ℕ → List Residual → Result ContainerError Bool
unfolding append_residuals
best_is_bitmask count size residuals =
    if count == 0
    then ok false
    else (append_residuals residuals >>= λ encoded.
        ok (ltb (mask_size size + count) (length encoded)))
