-- ===== src/Container/Assembly.antt =====
-- bogvm/container.py: `compile_bog_container_to_bogasm`.
use Prim.Native.String.{◌++◌ as append}
use bogbin.Common.{List, [], ◌∷◌, ◌++◌, Result, ok, ◌>>◌, String, option_case}
use bogbin.Common.Decimals.{decimal, text_of}
use bogbin.Bases.{basis_name}
use bogbin.Residual.{Residual}
use bogbin.Container.Errors.{ContainerError}
use bogbin.Container.Records.{Chunk, Container}
use bogbin.Container.Validate.{validate_bog_container}

-- The parts of a line, with a blank between two.
unfoldable pub spaced : String → List String → String
spaced word [] = word
spaced word (next ∷ rest) = append word (append " " (spaced next rest))

-- The loop over the residuals of a chunk.
unfoldable pub patch_lines : String → List Residual → List String
unfolding spaced decimal
patch_lines name [] = []
patch_lines name (p ∷ ps) =
    spaced "STORE_RESIDUAL" (name ∷ decimal p.offset ∷ decimal p.byte ∷ []) ∷ patch_lines name ps

-- The lines of a chunk. Its basis is known, since the container is validated.
unfoldable pub chunk_lines : Chunk → List String
unfolding spaced decimal patch_lines
chunk_lines c =
    (spaced "DATA_BLOCK" (c.name ∷ [])
      ∷ spaced "DECLARE_BASIS" (option_case c.basis "" basis_name ∷ [])
      ∷ spaced "LOAD_COEFFICIENTS"
          (c.name ∷ decimal c.start_byte ∷ decimal c.length ∷ decimal c.delta ∷ [])
      ∷ spaced "SYNTHESIZE" (c.name ∷ [])
      ∷ patch_lines c.name c.residuals)
    ++ (spaced "APPLY_RESIDUAL" (c.name ∷ [])
        ∷ spaced "VERIFY_HASH" (c.name ∷ c.chunk_sha256 ∷ [])
        ∷ spaced "ACCEPT_DATA" (c.name ∷ [])
        ∷ [])

-- The loop over the chunks.
unfoldable pub all_chunk_lines : List Chunk → List String
unfolding chunk_lines
all_chunk_lines [] = []
all_chunk_lines (c ∷ cs) = chunk_lines c ++ all_chunk_lines cs

-- The comments in front of the chunks.
unfoldable pub container_comments : Container → List String
unfolding decimal
container_comments c =
    append "# BOG container " c.format
    ∷ append "# vm_format " c.vm_format
    ∷ append "# whole_sha256 " c.whole_sha256
    ∷ append "# chunk_size " (decimal c.chunk_size)
    ∷ append "# chunk_count " (decimal c.chunk_count)
    ∷ append "# total_residual_count " (decimal c.total_residual_count)
    ∷ []

-- `compile_bog_container_to_bogasm`
unfoldable pub compile_bog_container_to_bogasm : Container → Result ContainerError String
unfolding validate_bog_container container_comments all_chunk_lines text_of
compile_bog_container_to_bogasm c = do
  validate_bog_container c
  ok (
      text_of
        (container_comments c ++ (all_chunk_lines c.chunks ++ ("EMIT_RECEIPT" ∷ "HALT" ∷ []))))
