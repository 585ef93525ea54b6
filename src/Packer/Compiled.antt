-- ===== src/Packer/Compiled.antt =====
-- bogvm/packer.py and bogvm/container.py: the two ways to the assembler text of a chunked plan.
use Prim.Native.String.{◌++◌ as append}
use bogbin.Common.{
  ℕ, ◌≤◌, ◌<◌, true, false, List, [], ◌∷◌, ◌++◌, map, length, All, ok, String, ◌≡◌, refl, sym, ap,
  ap₂, ◌∙◌, arith,
}
use bogbin.Common.Bits.{IsByte}
use bogbin.Common.Decimals.{text_of, decimal, four_digits}
use text.Mathlib.TextLemmas.{append_assoc}
use bogbin.Residual.{Residual}
use bogbin.Optimizer.Chunks.{PlannedChunk, ChunkedPlan}
use bogbin.Optimizer.Coverage.{optimize_chunked-IsChunkedPlan}
use bogbin.Container.Records.{Container, is_sha256, chunk_name}
use bogbin.Container.Build.{
  chunk_of, counts_of, optimize_chunked_plan, build_bog_container_from_plan, build_bog_container_v1,
}
use bogbin.Container.Validate.{counts_sum}
use bogbin.Container.Valid.{build-IsValid}
use bogbin.Container.Assembly.{
  spaced, patch_lines, chunk_lines, all_chunk_lines, container_comments,
  compile_bog_container_to_bogasm,
}
use bogbin.Packer.{
  words, residual_lines, plan_lines, name_of_chunk, chunks_lines, plan_comments, last_lines,
  validate_data_name, pack_chunked_bytes_to_bogasm, is_empty, any_space, is_space,
}

words-spaced : (word : String) (rest : List String) → words word rest ≡ spaced word rest
unfolding words spaced
words-spaced word [] = refl
words-spaced word (next ∷ rest) = ap (λ t. append word (append " " t)) (words-spaced next rest)

residual_lines-patch_lines :
    (name : String) (ps : List Residual) → residual_lines name ps ≡ patch_lines name ps
unfolding residual_lines patch_lines
residual_lines-patch_lines name [] = refl
residual_lines-patch_lines name (p ∷ ps) =
    ap₂ (λ l ls. l ∷ ls)
      (words-spaced "STORE_RESIDUAL" (name ∷ decimal p.offset ∷ decimal p.byte ∷ []))
      (residual_lines-patch_lines name ps)

same_name : (index : ℕ) → name_of_chunk "payload" index ≡ chunk_name index
unfolding name_of_chunk chunk_name
same_name index = sym (append_assoc "payload" "_chunk_" (four_digits index))

same_lines :
    (c : PlannedChunk)
    → plan_lines (name_of_chunk "payload" c.index) c.plan ≡ chunk_lines (chunk_of c)
unfolding plan_lines chunk_lines chunk_of
same_lines c =
    ap (λ name. plan_lines name c.plan) (same_name c.index)
    ∙ rw (residual_lines-patch_lines (chunk_name c.index) c.plan.residuals) refl

all_same_lines :
    (cs : List PlannedChunk) → chunks_lines "payload" cs ≡ all_chunk_lines (map chunk_of cs)
unfolding chunks_lines all_chunk_lines
all_same_lines [] = refl
all_same_lines (c ∷ cs) = ap₂ (λ a b. a ++ b) (same_lines c) (all_same_lines cs)

module _ (sha256 : List ℕ → String) (is_digest : (xs : List ℕ) → is_sha256 (sha256 xs) ≡ true)
    (round_quotient : ℕ → ℕ → ℕ) where
  -- For bytes and a chunk size from 1 to 65535, the packer's program for the data name payload and
  -- the program that the container of the bytes, without tournaments, is compiled to are the same
  -- lines behind four and six lines of comments.
  pub pack-compile :
      (bytes : List ℕ) (chunk_size : ℕ)
      → All IsByte bytes
      → 0 < chunk_size
      → chunk_size ≤ 65535
      → (p : ChunkedPlan) × (c : Container) × (body : List String) × (pack_chunked_bytes_to_bogasm
            sha256 bytes "payload" chunk_size
          ≡ ok (text_of (plan_comments p ++ body)))
        × (build_bog_container_v1 round_quotient sha256 bytes chunk_size false false ≡ ok c)
        × (compile_bog_container_to_bogasm c ≡ ok (text_of (container_comments c ++ body)))
        × (length (plan_comments p) ≡ 4)
        × (length (container_comments c) ≡ 6)
  unfolding pack_chunked_bytes_to_bogasm build_bog_container_v1 optimize_chunked_plan
      compile_bog_container_to_bogasm validate_data_name is_empty any_space is_space plan_comments
      container_comments
  pack-compile bytes n b h k =
      let (p, e, v, t) = optimize_chunked-IsChunkedPlan sha256 bytes n b h k in
      let counted : counts_sum (counts_of p) ≡ p.chunk_count = rw t (omega arith) in
      let valid =
        build-IsValid sha256 is_digest n bytes round_quotient p false false [] h v counted in
      let c : Container = build_bog_container_from_plan round_quotient p false [] false in
      let body : List String = chunks_lines "payload" p.chunks ++ last_lines in
      let lines : all_chunk_lines c.chunks ≡ chunks_lines "payload" p.chunks =
        unfold build_bog_container_from_plan in sym (all_same_lines p.chunks) in
      (p, c, body, rw e refl, rw e refl, rw (valid, lines) refl, refl, refl)
