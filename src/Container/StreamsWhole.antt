-- ===== src/Container/StreamsWhole.antt =====
-- bogvm/container.py: the two streams of a container as a whole.
use bogbin.Common.{
  ℕ, zero, suc, ◌+◌, ◌-◌, ◌≤◌, ◌<◌, ◌^◌, bit_or, true, false, List, [], ◌∷◌, ◌++◌, append_assoc,
  length, drop, replicate, All, ltb, ◌==◌, ==_iff, Bool-cases, inl, inr, ok, ◌≡◌, refl, sym, ap,
  ◌∙◌, subst, arith,
}
use bogbin.Container.Records.{Chunk}
use bogbin.Container.Varuint.{encode_varuint}
use bogbin.Container.Descriptor.{zero_residual_run_length, count_alike, decode_descriptor}
use bogbin.Container.Encode.{Streams, encode_chunks, descriptor_sentinel, zero_residual_runs}
use bogbin.Container.Decode.{read_descriptors}
use bogbin.Container.Entries.{
  IsPackable, descriptor_of, descriptor_of-IsDescriptorOf, entry_lem, nothing_lem,
}
use bogbin.Container.StreamsRead.{
  IsFlags, ReadsAs, set_flags, alike_lem, count_alike-length, length-drop_le, with_fuel, encode_run,
  read_run, single_lem,
}

-- A run of chunks without residuals, written as one entry.
run_lem :
    (c : Chunk) (v : IsPackable c) (cs : List Chunk) (flags : ℕ) (streams : Streams)
    → All IsPackable cs
    → length cs < 128 ^ 9
    → c.residual_count ≡ 0
    → zero_residual_run_length c cs ≡ suc (count_alike c cs)
    → 1 ≤ count_alike c cs
    → encode_chunks (count_alike c cs) (bit_or flags zero_residual_runs) cs ≡ ok streams
    → streams.flags ≡ zero_residual_runs
    → ReadsAs streams (drop (count_alike c cs) cs)
    → (out : Streams) × (encode_chunks 0 flags (c ∷ cs) ≡ ok out)
      × (out.flags ≡ streams.flags)
      × ReadsAs out (c ∷ cs)
run_lem c v cs flags streams a few z run_length many e f (ds, r, d) =
    let alike : ℕ = count_alike c cs in
    let (value, rest, g, plain, entry, decoded) = entry_lem c v false in
    let fits = count_alike-length c cs in
    let longer : ltb 1 (zero_residual_run_length c cs) ≡ true = ground (arith, run_length) in
    let before : zero_residual_run_length c cs - 1 ≡ alike = omega (arith, run_length) in
    let e' : encode_chunks (zero_residual_run_length c cs - 1) (bit_or flags zero_residual_runs) cs
        ≡ ok streams =
      ap (λ k. encode_chunks k (bit_or flags zero_residual_runs) cs) before ∙ e in
    let left : length (drop alike cs) + alike ≡ length cs = length-drop_le alike cs fits in
    let decoded' =
      ap (λ k. decode_descriptor value c.start_byte c.delta c.transform_param k) (sym z)
      ∙ decoded in
    let front : List ℕ =
      (descriptor_sentinel ∷ encode_varuint (zero_residual_run_length c cs))
      ++ (value ∷ rest)
      ++ streams.descriptor_bytes in
    let read : (fuel : ℕ) (tail : List ℕ)
        → suc (length cs) ≤ fuel
        → read_descriptors fuel streams.flags (suc (length cs)) (front ++ tail)
          ≡ ok (replicate (suc alike) (descriptor_of c v false) ++ ds, tail) =
      λ fuel tail h.
        with_fuel
          (λ fuel.
            read_descriptors fuel streams.flags (suc (length cs)) (front ++ tail)
            ≡ ok (replicate (suc alike) (descriptor_of c v false) ++ ds, tail))
          fuel (length cs) h
          (λ k m.
            let here : read_descriptors k streams.flags (suc (length cs) - suc alike)
                  (streams.descriptor_bytes ++ tail)
                ≡ ok (ds, tail) =
              ap (λ n. read_descriptors k streams.flags n (streams.descriptor_bytes ++ tail))
                (omega arith)
              ∙ d k tail (omega arith) in
            ap (λ l. read_descriptors (suc k) streams.flags (suc (length cs)) l)
              (append_assoc
                  ((descriptor_sentinel ∷ encode_varuint (zero_residual_run_length c cs))
                    ++ (value ∷ rest))
                  streams.descriptor_bytes tail
                ∙ append_assoc
                    (descriptor_sentinel ∷ encode_varuint (zero_residual_run_length c cs))
                    (value ∷ rest) (streams.descriptor_bytes ++ tail)
                ∙ ap
                    (λ n.
                      (descriptor_sentinel ∷ encode_varuint n)
                      ++ ((value ∷ rest) ++ (streams.descriptor_bytes ++ tail)))
                    run_length)
            ∙ read_run value c.start_byte c.delta c.transform_param (suc alike) rest
                (streams.descriptor_bytes ++ tail) tail (descriptor_of c v false) ds k streams.flags
                (length cs) entry (omega arith) (omega arith) (omega arith) f decoded' here) in
    (
      record {
        flags = streams.flags;
        descriptor_bytes = front;
        residual_bytes = streams.residual_bytes;
      },
      encode_run c cs flags (value ∷ rest) streams longer g e',
      refl,
      (
        replicate (suc alike) (descriptor_of c v false) ++ ds,
        (
          [],
          streams.residual_bytes,
          refl,
          descriptor_of-IsDescriptorOf c v false,
          nothing_lem c v (descriptor_of c v false) z z refl,
          alike_lem c v cs ds streams.residual_bytes z a r,
        ),
        read,
      ),
    )

long_run_lem :
    (c : Chunk) (cs : List Chunk)
    → ltb 1 (zero_residual_run_length c cs) ≡ true
    → (c.residual_count ≡ 0)
      × (zero_residual_run_length c cs ≡ suc (count_alike c cs))
      × (1 ≤ count_alike c cs)
unfolding zero_residual_run_length
long_run_lem c cs h = elim (Bool-cases (c.residual_count == 0)) [
  | inl clean ↦
      let long : ltb 1 (suc (count_alike c cs)) ≡ true = (sym (rw clean refl)) ∙ h in
      ((==_iff _ _).0 clean, rw clean refl, ground arith)
  | inr patched ↦ cc
]

-- The streams of the chunks behind the skipped ones are written, and read back.
pub streams_lem :
    (cs : List Chunk) (skip flags : ℕ)
    → All IsPackable cs
    → skip ≤ length cs
    → length cs < 128 ^ 9
    → IsFlags flags
    → (streams : Streams) × (encode_chunks skip flags cs ≡ ok streams)
      × IsFlags streams.flags
      × (flags ≡ zero_residual_runs → streams.flags ≡ zero_residual_runs)
      × ReadsAs streams (drop skip cs)
unfolding encode_chunks read_descriptors
streams_lem [] zero flags a s l f = (
  record { flags = flags; descriptor_bytes = []; residual_bytes = [] },
  refl,
  f,
  λ e. e,
  ([], refl, λ fuel tail h. refl),
)
streams_lem [] (suc skip) flags a s l f = absurd (omega arith)
streams_lem (c ∷ cs) (suc skip) flags (v, a) s l f =
    streams_lem cs skip flags a (omega arith) (omega arith) f
streams_lem (c ∷ cs) zero flags (v, a) s l f =
    elim (Bool-cases (ltb 1 (zero_residual_run_length c cs))) [
      | inl long ↦
          let (z, run, many) = long_run_lem c cs long in
          let (streams, e, _, kept, r) =
            streams_lem cs (count_alike c cs) (bit_or flags zero_residual_runs) a
              (count_alike-length c cs) (omega arith) (inr (set_flags flags f)) in
          let raised = kept (set_flags flags f) in
          let (out, e', same, r') =
            run_lem c v cs flags streams a (omega arith) z run many e raised r in
          (out, e', inr (same ∙ raised), λ _. same ∙ raised, r')
      | inr short ↦
          let (streams, e, g, kept, r) =
            streams_lem cs zero flags a (omega arith) (omega arith) f in
          let (out, e', same, r') = single_lem c v cs flags streams short e r in
          (out, e', subst IsFlags (sym same) g, λ k. same ∙ kept k, r')
    ]
