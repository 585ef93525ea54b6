-- ===== src/Container/Repacked.antt =====
-- Containers packed and unpacked on examples.
use bogbin.Common.{
  false, ℕ, ◌<◌, ◌^◌, bit_and, ◌/◌, Bool, true, ◌&&◌, some, List, [], ◌∷◌, ◌++◌, length, get_elem?,
  leb, ok, str_eq, eq_iff, inl, refl, ◌≡◌, arith,
}
use bogbin.Residual.{Residual, IsPatchList}
use bogbin.Bases.{ramp_u8}
use bogbin.Transforms.Names.{bwt, transform_order}
use bogbin.Container.Records.{Chunk, Container, is_sha256, bog_format, bogbin_format}
use bogbin.Container.Build.{build_bog_container_v1}
use bogbin.Container.Reconstruct.{reconstruct_bog_container_bytes}
use bogbin.Container.Rebuilt.{digest, is_digest, quotient, five, five_are_bytes}
use bogbin.Container.Bitmask.{append_bitmask_residuals, read_bitmask_residuals}
use bogbin.Container.Masked.{read-append_bitmask_residuals}
use bogbin.Container.Descriptor.{encode_descriptor, decode_descriptor}
use bogbin.Container.Descriptors.{decode-encode_descriptor}
use bogbin.Container.Encode.{encode_bogpk_container}
use bogbin.Container.Decode.{decode_bogpk_container}
use bogbin.Container.Header.{IsCandidate}
use bogbin.Container.Packed.{MatchesSchema}
use bogbin.Common.ByteStrings.{bytes_eq}
use bogbin.Bases.{zero_block}
use bogbin.Transforms.Names.{identity}
use bogbin.Container.Rounds.{length-read_descriptors}
use bogbin.Container.Varuint.{encode_varuint, decode_varuint, decode_loop}
use bogbin.Container.Residuals.{read_byte}
use bogbin.Container.Descriptor.{Descriptor, read_transform_param}
use bogbin.Container.Decode.{read_descriptors, read_entry}
use bogbin.Container.Accepted.{decode-reconstructs}
use bogbin.Container.Validate.{validate_bog_container}
use bogbin.Container.PackRoundTrip.{decode-encode-build}

-- A stand-in for the schema checker, which tests what the schema asks for.
abbrev schema_test : Container → Bool
schema_test c =
    (str_eq c.format bog_format && str_eq c.vm_format bogbin_format)
    && (leb 1 c.chunk_size && is_sha256 c.whole_sha256)

schema_accepts : (c : Container) → MatchesSchema c → schema_test c ≡ true
schema_accepts c (f, v, _, s, w) =
    let a : str_eq c.format bog_format ≡ true = (eq_iff _ _).1 f in
    let b : str_eq c.vm_format bogbin_format ≡ true = (eq_iff _ _).1 v in
    let d : leb 1 c.chunk_size ≡ true = ground arith in rw (a, b, d, w) refl

five_short : length five < 128 ^ 9
five_short = omega arith

sixteen : IsCandidate 16
sixteen = inl refl

decode-encode-build_example :
    (c : Container) × (packed : List ℕ) × (c' : Container) × (build_bog_container_v1 quotient digest
        five 16 true true
      ≡ ok c)
    × (encode_bogpk_container schema_test c ≡ ok packed)
    × (decode_bogpk_container quotient digest schema_test packed ≡ ok c')
    × (c'.chunks ≡ c.chunks)
    × (reconstruct_bog_container_bytes digest c' ≡ ok five)
decode-encode-build_example =
    decode-encode-build digest is_digest quotient schema_test schema_accepts five five_are_bytes
      five_short 16 true true sixteen

abbrev marked : List Residual
marked = record { offset = 1; byte = 7 } ∷ record { offset = 11; byte = 255 } ∷ []

marked-IsPatchList : IsPatchList 12 0 marked
marked-IsPatchList = omega arith

read-append_bitmask_residuals_example :
    (bytes : List ℕ) × (append_bitmask_residuals 12 marked ≡ ok bytes)
    × (read_bitmask_residuals (bytes ++ (9 ∷ [])) (length marked) 12 ≡ ok (marked, 9 ∷ []))
read-append_bitmask_residuals_example =
    read-append_bitmask_residuals 12 marked (9 ∷ []) marked-IsPatchList

abbrev ramp_chunk : Chunk
ramp_chunk = record {
  index = 0;
  name = "payload_chunk_0000";
  offset = 0;
  length = 4;
  basis = some ramp_u8;
  start_byte = 3;
  delta = 2;
  transform = some bwt;
  transform_param = 1;
  residual_count = 0;
  residuals = [];
  chunk_sha256 = digest five;
  transformed_sha256 = digest five;
  original_chunk_sha256 = digest five;
}

decode-encode_descriptor_example :
    (value : ℕ) × (encode_descriptor ramp_chunk true ≡ ok value)
    × (value < 255)
    × (get_elem? transform_order (bit_and (value / 2 ^ 5) 7) ≡ some bwt)
    × (decode_descriptor value 3 2 1 0
        ≡ ok (record {
          transform = bwt;
          basis = ramp_u8;
          start_byte = 3;
          delta = 2;
          transform_param = 1;
          residual_count = 0;
          is_bitmask = true;
        }))
decode-encode_descriptor_example =
    decode-encode_descriptor ramp_chunk bwt ramp_u8 true 3 2 1 0 refl refl

abbrev packed_five : List ℕ
packed_five =
    (decode-encode-build digest is_digest quotient schema_test schema_accepts five five_are_bytes
      five_short 16 true true sixteen).1

abbrev unpacked_five : Container
unpacked_five =
    (decode-encode-build digest is_digest quotient schema_test schema_accepts five five_are_bytes
      five_short 16 true true sixteen).2

accepted : decode_bogpk_container quotient digest schema_test packed_five ≡ ok unpacked_five
accepted =
    (decode-encode-build digest is_digest quotient schema_test schema_accepts five five_are_bytes
      five_short 16 true true sixteen).5

decode-reconstructs_example :
    (out : List ℕ) × (validate_bog_container unpacked_five ≡ ok tt)
    × (reconstruct_bog_container_bytes digest unpacked_five ≡ ok out)
    × (digest out ≡ unpacked_five.whole_sha256)
decode-reconstructs_example =
    decode-reconstructs digest quotient schema_test packed_five unpacked_five accepted

abbrev zero_descriptor : Descriptor
zero_descriptor = record {
  transform = identity;
  basis = zero_block;
  start_byte = 0;
  delta = 0;
  transform_param = 0;
  residual_count = 0;
  is_bitmask = false;
}

abbrev three_zeros : List Descriptor
three_zeros = zero_descriptor ∷ zero_descriptor ∷ zero_descriptor ∷ []

run_read : read_descriptors 3 4 3 (255 ∷ 3 ∷ 0 ∷ 0 ∷ 0 ∷ 9 ∷ []) ≡ ok (three_zeros, 9 ∷ [])
unfolding read_descriptors read_entry read_byte read_transform_param decode_descriptor
    decode_varuint decode_loop encode_varuint bytes_eq
run_read = refl

length-read_descriptors_example : length three_zeros ≡ 3
length-read_descriptors_example =
    length-read_descriptors 3 4 3 (255 ∷ 3 ∷ 0 ∷ 0 ∷ 0 ∷ 9 ∷ []) (9 ∷ []) three_zeros (omega arith)
      run_read
