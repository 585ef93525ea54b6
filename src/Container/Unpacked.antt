-- ===== src/Container/Unpacked.antt =====
-- bogvm/container.py: the chunks of a chunked plan, packed and decoded.
use native.Mathlib.Nat.{add-mul}
use bogbin.Common.{
  ℕ, suc, ◌+◌, ◌-◌, ◌*◌, ◌≤◌, ◌<◌, true, false, some, List, [], ◌∷◌, ◌++◌, append_assoc, map,
  length, length-take, length-drop, drop, All, leb, ltb, lt→ltb, set, ok, String, ◌≡◌, refl, sym,
  ap, ap₂, ◌∙◌, subst, arith, none,
}
use bogbin.Bases.{synthesize_basis}
use bogbin.Bases.Shape.{synthesize_inverse}
use bogbin.Residual.{Residual, IsPatchList}
use bogbin.Optimizer.Chunks.{PlannedChunk, chunk_at}
use bogbin.Optimizer.Patches.{apply_residuals}
use bogbin.Optimizer.Coverage.{IsPlanFor, IsPlannedFrom, transform_of}
use bogbin.Transforms.{invert_transform}
use bogbin.Container.Records.{Chunk, chunk_name}
use bogbin.Container.Build.{chunk_of}
use bogbin.Container.Descriptor.{Descriptor}
use bogbin.Container.Decode.{
  decoded_chunk_length, patch_all, synthesize_residual_chunk, read_chunk_residuals, decode_chunks,
}
use bogbin.Container.Reconstruct.{apply_patches}
use bogbin.Container.Entries.{IsPackable, IsDescriptorOf}
use bogbin.Container.StreamsRead.{IsReadBack}
use bogbin.Container.Restored.{apply_patches-apply_from, take-drop, drop_all}

module _ (sha256 : List ℕ → String) (n : ℕ) (bytes : List ℕ) where
  -- The chunk of a plan can be packed.
  chunk_of-IsPackable :
      (c : PlannedChunk) (index : ℕ)
      → IsPlanFor sha256 (chunk_at n bytes (index * n)) c.plan c.transformed
      → n ≤ 65535
      → IsPackable (chunk_of c)
  unfolding chunk_of
  chunk_of-IsPackable c index v h =
      let s = v.sound in
      let size : length (chunk_at n bytes (index * n)) ≤ n =
        omega (arith, length-take n (drop (index * n) bytes)) in
      let long : c.plan.length ≡ length (chunk_at n bytes (index * n)) =
        s.length_right ∙ v.out_length in
      let (hs, hd, _, _) =
        synthesize_inverse c.plan.basis c.plan.start_byte (length v.out) c.plan.delta s.generated
          s.generates in
      record {
        transform = transform_of c.transformed;
        basis = c.plan.basis;
        transform_right = refl;
        basis_right = refl;
        start_small = omega arith;
        delta_small = omega arith;
        param_small = omega (arith, v.param_small);
        param_zero = v.param_zero;
        count_right = s.count_right;
        patches_fit =
            subst (λ k. IsPatchList k 0 c.plan.residuals) (sym s.length_right) s.patches_fit;
        length_small = omega arith;
      }

  pub chunks_of-IsPackable :
      (cs : List PlannedChunk) (index : ℕ)
      → IsPlannedFrom sha256 n bytes index cs
      → n ≤ 65535
      → All IsPackable (map chunk_of cs)
  chunks_of-IsPackable [] index p h = tt
  chunks_of-IsPackable (c ∷ cs) index (i, k, b, v, p) h =
      (chunk_of-IsPackable c index v h, chunks_of-IsPackable cs (index + 1) p h)

  -- The length of a chunk that is not the last one, and of the last one.
  decoded_full :
      (total index : ℕ)
      → index + 1 < total
      → (index + 1) * n < length bytes
      → decoded_chunk_length index total n (length bytes)
        ≡ ok (length (chunk_at n bytes (index * n)))
  unfolding decoded_chunk_length
  decoded_full total index h m =
      let some_chunk : ltb 0 total ≡ true = lt→ltb 0 total (omega arith) in
      let before : ltb index (total - 1) ≡ true = lt→ltb index (total - 1) (omega arith) in
      let size : n ≡ length (chunk_at n bytes (index * n)) = omega (
        arith,
        add-mul index 1 n,
        length-take n (drop (index * n) bytes),
        length-drop (index * n) bytes,
      ) in
      rw (some_chunk, before) (ap ok size)

  decoded_last :
      (total index : ℕ)
      → index + 1 ≡ total
      → index * n < length bytes
      → length bytes ≤ (index + 1) * n
      → decoded_chunk_length index total n (length bytes)
        ≡ ok (length (chunk_at n bytes (index * n)))
  unfolding decoded_chunk_length
  decoded_last total index e b m =
      let back : total - 1 ≡ index = omega arith in
      let some_chunk : ltb 0 total ≡ true = lt→ltb 0 total (omega arith) in
      let last : ltb index index ≡ false = ground arith in
      let inside : ltb (index * n) (length bytes) ≡ true = lt→ltb (index * n) (length bytes) b in
      let short : leb (length bytes - index * n) n ≡ true = ground (arith, add-mul index 1 n) in
      let size : length bytes - index * n ≡ length (chunk_at n bytes (index * n)) = omega (
        arith,
        add-mul index 1 n,
        length-take n (drop (index * n) bytes),
        length-drop (index * n) bytes,
      ) in
      rw (some_chunk, back, last, inside, short) (ap ok size)

  -- The dict that the decoder makes of a chunk.
  decoded_chunk :
      (c : PlannedChunk) (index : ℕ)
      → IsPlanFor sha256 (chunk_at n bytes (index * n)) c.plan c.transformed
      → Descriptor
      → Chunk
  decoded_chunk c index v d = record {
    index = index;
    name = chunk_name index;
    offset = index * n;
    length = length (chunk_at n bytes (index * n));
    basis = some d.basis;
    start_byte = d.start_byte;
    delta = d.delta;
    transform = some d.transform;
    transform_param = d.transform_param;
    residual_count = length c.plan.residuals;
    residuals = c.plan.residuals;
    chunk_sha256 = sha256 v.out;
    transformed_sha256 = sha256 v.out;
    original_chunk_sha256 = sha256 (chunk_at n bytes (index * n));
  }

  decoded_chunk-eq :
      (c : PlannedChunk) (index : ℕ)
      (v : IsPlanFor sha256 (chunk_at n bytes (index * n)) c.plan c.transformed) (d : Descriptor)
      → c.index ≡ index
      → c.offset ≡ index * n
      → IsDescriptorOf d (chunk_of c)
      → decoded_chunk c index v d ≡ chunk_of c
  unfolding decoded_chunk chunk_of
  decoded_chunk-eq c index v d i o (t, b, s, e, p) =
      let long : c.plan.length ≡ length (chunk_at n bytes (index * n)) =
        v.sound.length_right ∙ v.out_length in
      λ j. record {
        index = sym i j;
        name = chunk_name (sym i j);
        offset = sym o j;
        length = sym long j;
        basis = sym b j;
        start_byte = sym s j;
        delta = sym e j;
        transform = sym t j;
        transform_param = sym p j;
        residual_count = sym v.sound.count_right j;
        residuals = c.plan.residuals;
        chunk_sha256 = sym v.sound.hash_right j;
        transformed_sha256 = sym v.transformed_hash j;
        original_chunk_sha256 = sym v.original_hash j;
      }

  -- One chunk is decoded to its dict and its piece of the data.
  patch_all-apply_patches :
      (ps : List Residual) (xs out : List ℕ)
      → apply_patches ps xs ≡ ok out
      → patch_all ps xs ≡ ok out
  unfolding patch_all apply_patches
  patch_all-apply_patches [] xs out e = e
  patch_all-apply_patches (p ∷ ps) xs out e =
      ground (arith, patch_all-apply_patches ps (set xs p.offset p.byte) out)

  synthesize_lem :
      (c : PlannedChunk) (index : ℕ)
      (v : IsPlanFor sha256 (chunk_at n bytes (index * n)) c.plan c.transformed) (d : Descriptor)
      → IsDescriptorOf d (chunk_of c)
      → synthesize_residual_chunk d.basis d.start_byte d.delta
          (length (chunk_at n bytes (index * n)))
          c.plan.residuals
        ≡ ok v.out
  unfolding synthesize_residual_chunk chunk_of apply_residuals
  synthesize_lem c index v d (t, b, s, e, p) =
      let patched = patch_all-apply_patches c.plan.residuals v.sound.generated v.out (
        apply_patches-apply_from none c.plan.residuals v.sound.generated v.out
          v.sound.patches_exact) in
      let made : synthesize_basis (some d.basis) d.start_byte
            (length (chunk_at n bytes (index * n))) d.delta
          ≡ ok v.sound.generated =
        (λ j. synthesize_basis (sym b j) (sym s j) (sym v.out_length j) (sym e j))
        ∙ v.sound.generates in
      rw made patched

  size_lem :
      (cs : List PlannedChunk) (index total : ℕ)
      → index * n < length bytes
      → IsPlannedFrom sha256 n bytes (index + 1) cs
      → index + suc (length cs) ≡ total
      → decoded_chunk_length index total n (length bytes)
        ≡ ok (length (chunk_at n bytes (index * n)))
  size_lem [] index total b p e = decoded_last total index e b p
  size_lem (c ∷ cs) index total b (_, _, m, _, _) e = decoded_full total index (omega arith) m

  step_lem :
      (c : PlannedChunk) (index total : ℕ)
      (v : IsPlanFor sha256 (chunk_at n bytes (index * n)) c.plan c.transformed) (d : Descriptor)
      (ds : List Descriptor) (input next tail originals : List ℕ) (chunks : List Chunk)
      → IsDescriptorOf d (chunk_of c)
      → decoded_chunk_length index total n (length bytes)
        ≡ ok (length (chunk_at n bytes (index * n)))
      → read_chunk_residuals input d (length (chunk_at n bytes (index * n)))
        ≡ ok (c.plan.residuals, next)
      → decode_chunks sha256 total n (length bytes) ds (index + 1) next
        ≡ ok (chunks, originals, tail)
      → decode_chunks sha256 total n (length bytes) (d ∷ ds) index input
        ≡ ok (decoded_chunk c index v d ∷ chunks, chunk_at n bytes (index * n) ++ originals, tail)
  unfolding decode_chunks decoded_chunk chunk_of
  step_lem c index total v d ds input next tail originals chunks (t, b, s, e, p) size reads later =
      let restored : invert_transform (some d.transform) v.out d.transform_param
          ≡ ok (chunk_at n bytes (index * n)) =
        (λ j. invert_transform (sym t j) v.out (sym p j)) ∙ v.restores in
      let made = synthesize_lem c index v d (t, b, s, e, p) in
      rw (size, reads, made, restored, later) refl

  pub unpacked_lem :
      (cs : List PlannedChunk) (index total : ℕ) (ds : List Descriptor) (stream tail : List ℕ)
      → 0 < n
      → IsPlannedFrom sha256 n bytes index cs
      → index + length cs ≡ total
      → IsReadBack ds (map chunk_of cs) stream
      → decode_chunks sha256 total n (length bytes) ds index (stream ++ tail)
        ≡ ok (map chunk_of cs, drop (index * n) bytes, tail)
  unfolding decode_chunks
  unpacked_lem [] index total [] stream tail h p e r =
      rw r (ap (λ l. ok ([], l, tail)) (sym (drop_all (index * n) bytes p)))
  unpacked_lem [] index total (d ∷ ds) stream tail h p e r = absurd r
  unpacked_lem (c ∷ cs) index total [] stream tail h p e r = absurd r
  unpacked_lem (c ∷ cs) index total (d ∷ ds) stream tail h (i, k, b, v, p) e
        (front, back, joined, of, reads, r) =
      let long : (chunk_of c).length ≡ length (chunk_at n bytes (index * n)) =
        unfold chunk_of in v.sound.length_right ∙ v.out_length in
      let later = unpacked_lem cs (index + 1) total ds back tail h p (omega arith) r in
      let start : read_chunk_residuals (stream ++ tail) d (length (chunk_at n bytes (index * n)))
          ≡ ok (c.plan.residuals, back ++ tail) =
        ap₂ (λ l k. read_chunk_residuals l d k)
          (ap (λ l. l ++ tail) joined ∙ append_assoc front back tail) (sym long)
        ∙ (unfold chunk_of in reads (back ++ tail)) in
      let next : (index + 1) * n ≡ index * n + n = add-mul index 1 n ∙ omega arith in
      step_lem c index total v d ds (stream ++ tail) (back ++ tail) tail
        (drop ((index + 1) * n) bytes) (map chunk_of cs) of (size_lem cs index total b p e) start
        later
      ∙ ap₂ (λ x xs. ok (x ∷ map chunk_of cs, xs, tail)) (decoded_chunk-eq c index v d i k of)
          (ap (λ m. chunk_at n bytes (index * n) ++ drop m bytes) next
            ∙ take-drop (index * n) n bytes)
