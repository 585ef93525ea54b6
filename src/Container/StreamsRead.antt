-- ===== src/Container/StreamsRead.antt =====
-- bogvm/container.py: the two streams of a container, written by `encode_bogpk_container` and read by
-- `decode_bogpk_container`.
use bogbin.Common.{
  ℕ, zero, suc, ◌+◌, ◌-◌, ◌≤◌, ◌<◌, ◌^◌, bit_and, bit_or, Bool, true, false, ◌⊎◌, List, [], ◌∷◌,
  ◌++◌, append_assoc, length, drop, replicate, All, leb, ltb, ◌==◌, Bool-cases, inl, inr, ok, ◌≡◌,
  refl, sym, ap, ◌∙◌, subst, arith, length-drop,
}
use bogbin.Container.Records.{Chunk}
use bogbin.Container.Varuint.{encode_varuint, decode-encode_varuint}
use bogbin.Container.Residuals.{read_byte, count_fits}
use bogbin.Container.Descriptor.{
  Descriptor, zero_residual_run_length, count_alike, is_alike, decode_descriptor,
}
use bogbin.Container.Encode.{
  Streams, encode_chunks, entry_bytes, residual_entry, descriptor_sentinel, zero_residual_runs,
}
use bogbin.Container.Decode.{read_descriptors, read_chunk_residuals, read_entry}
use bogbin.Container.Bitmask.{best_is_bitmask}
use bogbin.Container.Entries.{
  IsPackable, IsDescriptorOf, descriptor_of, descriptor_of-IsDescriptorOf, entry_lem,
  residual_entry_lem, nothing_lem, is_alike_lem,
}

-- The descriptors are those of the chunks, and the bytes hold the residuals of the chunks in the
-- encodings that the descriptors name.
abbrev pub IsReadBack : List Descriptor → List Chunk → List ℕ → Type 0
IsReadBack [] [] bytes = bytes ≡ []
IsReadBack [] (c ∷ cs) bytes = ⊥
IsReadBack (d ∷ ds) [] bytes = ⊥
IsReadBack (d ∷ ds) (c ∷ cs) bytes =
    (front : List ℕ) × (back : List ℕ) × (bytes ≡ front ++ back)
    × IsDescriptorOf d c
    × ((tail : List ℕ) → read_chunk_residuals (front ++ tail) d c.length ≡ ok (c.residuals, tail))
    × IsReadBack ds cs back

-- The flags that the loop can have.
abbrev pub IsFlags : ℕ → Type 0
IsFlags flags = (flags ≡ 0) ⊎ (flags ≡ zero_residual_runs)

pub set_flags : (flags : ℕ) → IsFlags flags → bit_or flags zero_residual_runs ≡ zero_residual_runs
set_flags flags (inl e) = rw e refl
set_flags flags (inr e) = rw e refl

-- A run that is alike reads back as copies of its descriptor.
pub alike_lem :
    (c : Chunk) (v : IsPackable c) (cs : List Chunk) (ds : List Descriptor) (bytes : List ℕ)
    → c.residual_count ≡ 0
    → All IsPackable cs
    → IsReadBack ds (drop (count_alike c cs) cs) bytes
    → IsReadBack (replicate (count_alike c cs) (descriptor_of c v false) ++ ds) cs bytes
unfolding count_alike
alike_lem c v [] ds bytes e a r = r
alike_lem c v (x ∷ cs) ds bytes e (w, a) r = elim (Bool-cases (is_alike c x)) [
  | inl alike ↦
      let (z, d) = is_alike_lem c x v w alike in
      let n : count_alike c (x ∷ cs) ≡ suc (count_alike c cs) = rw alike refl in
      let r' : IsReadBack ds (drop (count_alike c cs) cs) bytes =
        subst (λ k. IsReadBack ds (drop k (x ∷ cs)) bytes) n r in
      subst (λ k. IsReadBack (replicate k (descriptor_of c v false) ++ ds) (x ∷ cs) bytes) (sym n)
        (
          [],
          bytes,
          refl,
          d,
          nothing_lem x w (descriptor_of c v false) z e refl,
          alike_lem c v cs ds bytes e a r',
        )
  | inr other ↦
      let n : count_alike c (x ∷ cs) ≡ 0 = rw other refl in
      subst (λ k. IsReadBack (replicate k (descriptor_of c v false) ++ ds) (x ∷ cs) bytes) (sym n)
        (subst (λ k. IsReadBack ds (drop k (x ∷ cs)) bytes) n r)
]

pub count_alike-length : (c : Chunk) (cs : List Chunk) → count_alike c cs ≤ length cs
unfolding count_alike
count_alike-length c [] = omega arith
count_alike-length c (x ∷ cs) = ground (arith, count_alike-length c cs)

-- The bytes of the streams from some chunk on, as the reader takes them.
abbrev pub ReadsAs : Streams → List Chunk → Type 0
ReadsAs streams cs =
    (ds : List Descriptor) × IsReadBack ds cs streams.residual_bytes
    × ((fuel : ℕ) (tail : List ℕ)
        → length cs ≤ fuel
        → read_descriptors fuel streams.flags (length cs) (streams.descriptor_bytes ++ tail)
          ≡ ok (ds, tail))

pub length-drop_le :
    {A : Type 0} (k : ℕ) (xs : List A) → k ≤ length xs → length (drop k xs) + k ≡ length xs
length-drop_le k xs h = omega (arith, length-drop k xs)

-- Fuel that is enough for one round and more.
pub with_fuel :
    (P : ℕ → Type 0) (fuel least : ℕ)
    → suc least ≤ fuel
    → ((k : ℕ) → least ≤ k → P (suc k))
    → P fuel
with_fuel P zero least h f = absurd (omega arith)
with_fuel P (suc fuel) least h f = f fuel (omega arith)

encode_single :
    (c : Chunk) (cs : List Chunk) (flags : ℕ) (is_bitmask : Bool) (entry residuals : List ℕ)
    (streams : Streams)
    → ltb 1 (zero_residual_run_length c cs) ≡ false
    → best_is_bitmask c.residual_count c.length c.residuals ≡ ok is_bitmask
    → entry_bytes c is_bitmask ≡ ok entry
    → residual_entry c is_bitmask ≡ ok residuals
    → encode_chunks zero flags cs ≡ ok streams
    → encode_chunks zero flags (c ∷ cs)
      ≡ ok (record {
        flags = streams.flags;
        descriptor_bytes = entry ++ encode_varuint c.residual_count ++ streams.descriptor_bytes;
        residual_bytes = residuals ++ streams.residual_bytes;
      })
unfolding encode_chunks
encode_single c cs flags is_bitmask entry residuals streams alone b g f e =
    rw (alone, encode_chunks, b, g, f, e) refl

pub encode_run :
    (c : Chunk) (cs : List Chunk) (flags : ℕ) (entry : List ℕ) (streams : Streams)
    → ltb 1 (zero_residual_run_length c cs) ≡ true
    → entry_bytes c false ≡ ok entry
    → encode_chunks (zero_residual_run_length c cs - 1) (bit_or flags zero_residual_runs) cs
      ≡ ok streams
    → encode_chunks zero flags (c ∷ cs)
      ≡ ok (record {
        flags = streams.flags;
        descriptor_bytes =
            (descriptor_sentinel ∷ encode_varuint (zero_residual_run_length c cs))
            ++ entry
            ++ streams.descriptor_bytes;
        residual_bytes = streams.residual_bytes;
      })
unfolding encode_chunks
encode_run c cs flags entry streams many g e = rw (many, encode_chunks, g, e) refl

read_single :
    (value start_byte delta param count : ℕ) (rest more tail : List ℕ) (d : Descriptor)
    (ds : List Descriptor) (fuel flags left : ℕ)
    → (value == descriptor_sentinel) ≡ false
    → ((tail : List ℕ) → read_entry (rest ++ tail) value ≡ ok (start_byte, delta, param, tail))
    → count < 128 ^ 10
    → decode_descriptor value start_byte delta param count ≡ ok d
    → read_descriptors fuel flags left more ≡ ok (ds, tail)
    → read_descriptors
        (suc fuel)
        flags
        (suc left)
        (value ∷ (rest ++ (encode_varuint count ++ more)))
      ≡ ok (d ∷ ds, tail)
unfolding read_descriptors read_byte
read_single value start_byte delta param count rest more tail d ds fuel flags left plain entry h
      decoded later =
    rw
      (
        plain,
        read_descriptors,
        entry (encode_varuint count ++ more),
        decode-encode_varuint count more h,
        decoded,
        later,
      )
      refl

pub read_run :
    (value start_byte delta param run_length : ℕ) (rest more tail : List ℕ) (d : Descriptor)
    (ds : List Descriptor) (fuel flags left : ℕ)
    → ((tail : List ℕ) → read_entry (rest ++ tail) value ≡ ok (start_byte, delta, param, tail))
    → run_length < 128 ^ 10
    → 2 ≤ run_length
    → run_length ≤ suc left
    → flags ≡ zero_residual_runs
    → decode_descriptor value start_byte delta param 0 ≡ ok d
    → read_descriptors fuel flags (suc left - run_length) more ≡ ok (ds, tail)
    → read_descriptors
        (suc fuel)
        flags
        (suc left)
        (descriptor_sentinel ∷ (encode_varuint run_length ++ (value ∷ (rest ++ more))))
      ≡ ok (replicate run_length d ++ ds, tail)
unfolding read_descriptors read_byte
read_run value start_byte delta param run_length rest more tail d ds fuel flags left entry h low
      high f decoded later =
    let flagged : (bit_and flags zero_residual_runs == 0) ≡ false = rw f refl in
    let long : leb 2 run_length ≡ true = ground arith in
    let fits : leb run_length (suc left) ≡ true = ground arith in
    rw
      (
        flagged,
        read_descriptors,
        decode-encode_varuint run_length (value ∷ (rest ++ more)) h,
        long,
        entry more,
        fits,
        decoded,
        later,
      )
      refl

-- One chunk, written by itself.
pub single_lem :
    (c : Chunk) (v : IsPackable c) (cs : List Chunk) (flags : ℕ) (streams : Streams)
    → ltb 1 (zero_residual_run_length c cs) ≡ false
    → encode_chunks 0 flags cs ≡ ok streams
    → ReadsAs streams cs
    → (out : Streams) × (encode_chunks 0 flags (c ∷ cs) ≡ ok out)
      × (out.flags ≡ streams.flags)
      × ReadsAs out (c ∷ cs)
unfolding encode_chunks read_descriptors read_byte
single_lem c v cs flags streams alone e (ds, r, d) =
    let (is_bitmask, residuals, b, f, reads) = residual_entry_lem c v in
    let (value, rest, g, plain, entry, decoded) = entry_lem c v is_bitmask in
    let count : c.residual_count < 128 ^ 10 = omega (
      arith,
      v.count_right,
      v.length_small,
      count_fits c.length 0 c.residuals (omega arith) v.patches_fit,
    ) in
    let front : List ℕ =
      (value ∷ rest) ++ encode_varuint c.residual_count ++ streams.descriptor_bytes in
    let read : (fuel : ℕ) (tail : List ℕ)
        → suc (length cs) ≤ fuel
        → read_descriptors fuel streams.flags (suc (length cs)) (front ++ tail)
          ≡ ok (descriptor_of c v is_bitmask ∷ ds, tail) =
      λ fuel tail h.
        with_fuel
          (λ fuel.
            read_descriptors fuel streams.flags (suc (length cs)) (front ++ tail)
            ≡ ok (descriptor_of c v is_bitmask ∷ ds, tail))
          fuel (length cs) h
          (λ k m.
            ap (λ l. read_descriptors (suc k) streams.flags (suc (length cs)) l)
              (append_assoc ((value ∷ rest) ++ encode_varuint c.residual_count)
                  streams.descriptor_bytes tail
                ∙ append_assoc (value ∷ rest) (encode_varuint c.residual_count)
                    (streams.descriptor_bytes ++ tail))
            ∙ read_single value c.start_byte c.delta c.transform_param c.residual_count rest
                (streams.descriptor_bytes ++ tail) tail (descriptor_of c v is_bitmask) ds k
                streams.flags (length cs) plain entry count decoded (d k tail m)) in
    (
      record {
        flags = streams.flags;
        descriptor_bytes =
            (value ∷ rest) ++ encode_varuint c.residual_count ++ streams.descriptor_bytes;
        residual_bytes = residuals ++ streams.residual_bytes;
      },
      encode_single c cs flags is_bitmask (value ∷ rest) residuals streams alone b g f e,
      refl,
      (
        descriptor_of c v is_bitmask ∷ ds,
        (
          residuals,
          streams.residual_bytes,
          refl,
          descriptor_of-IsDescriptorOf c v is_bitmask,
          reads,
          r,
        ),
        read,
      ),
    )
