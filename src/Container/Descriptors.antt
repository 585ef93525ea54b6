-- ===== src/Container/Descriptors.antt =====
-- bogvm/container.py: the entry of a chunk in the stream of descriptors, written and read.
use bogbin.Common.{
  ℕ, ◌+◌, ◌*◌, ◌/◌, ◌%◌, ◌^◌, ◌<◌, bit_and, bit_or, Bool, true, false, not, ◌&&◌, &&-true, some,
  get_elem?, leb, ltb, ◌==◌, ==_iff, if◌then◌else◌, Result, ok, ◌≡◌, refl, ap, ◌∙◌, arith, ltb→lt,
}
use bogbin.Common.Bits.{passes_below, passed}
use bogbin.Bases.{
  Basis, basis_order, zero_block, repeat_byte, delta_u8, dictionary_u8, rle_u8, ramp_u8,
  triangle_u8, sine8_u8, fourier8_u8,
}
use bogbin.Transforms.Names.{
  Transform, identity, xor_previous, delta_previous, nibble_split, mtf, bwt, bwt_mtf,
  transform_order,
}
use bogbin.Optimizer.Chunks.{transform_id}
use bogbin.Container.Errors.{ContainerError}
use bogbin.Container.Records.{Chunk}
use bogbin.Container.Descriptor.{Descriptor, basis_id, encode_descriptor, decode_descriptor}

abbrev flag_of : Bool → ℕ
flag_of is_bitmask = if is_bitmask then 1 else 0

-- The value of the descriptor byte.
abbrev pub descriptor_value : Transform → Basis → Bool → ℕ
descriptor_value t b is_bitmask =
    bit_or (bit_or (transform_id t * 2 ^ 5) (basis_id b * 2)) (flag_of is_bitmask)

abbrev value_of : ℕ → ℕ → ℕ → ℕ
value_of i j k = bit_or (bit_or (i * 2 ^ 5) (j * 2)) k

abbrev value_test : ℕ → ℕ → ℕ → Bool
value_test i j k =
    (bit_and (value_of i j k / 2 ^ 5) 7 == i)
    && ((bit_and (value_of i j k / 2) 15 == j)
        && ((bit_and (value_of i j k) 1 == k) && ltb (value_of i j k) 255))

value_table : passes_below (λ n. value_test (n / 18) (n / 2 % 9) (n % 2)) 126 ≡ true
unfolding passes_below
value_table = refl

value_parts :
    (i j k : ℕ)
    → i < 7
    → j < 9
    → k < 2
    → (bit_and (value_of i j k / 2 ^ 5) 7 ≡ i)
      × (bit_and (value_of i j k / 2) 15 ≡ j)
      × (bit_and (value_of i j k) 1 ≡ k)
      × (value_of i j k < 255)
value_parts i j k p q r =
    let n : ℕ = i * 18 + j * 2 + k in
    let a : n / 18 ≡ i = omega arith in
    let b : n / 2 % 9 ≡ j = omega arith in
    let c : n % 2 ≡ k = omega arith in
    let t : value_test (n / 18) (n / 2 % 9) (n % 2) ≡ true =
      passed (λ n. value_test (n / 18) (n / 2 % 9) (n % 2)) 126 n (omega arith) value_table in
    let u : value_test i j k ≡ true = cc in
    let (u1, v1) = &&-true (bit_and (value_of i j k / 2 ^ 5) 7 == i) _ u in
    let (u2, v2) = &&-true (bit_and (value_of i j k / 2) 15 == j) _ v1 in
    let (u3, u4) = &&-true (bit_and (value_of i j k) 1 == k) _ v2 in
    ((==_iff _ _).0 u1, (==_iff _ _).0 u2, (==_iff _ _).0 u3, ltb→lt _ _ u4)

get-transform_id : (t : Transform) → get_elem? transform_order (transform_id t) ≡ some t
unfolding transform_id
get-transform_id identity = refl
get-transform_id xor_previous = refl
get-transform_id delta_previous = refl
get-transform_id nibble_split = refl
get-transform_id mtf = refl
get-transform_id bwt = refl
get-transform_id bwt_mtf = refl

transform_id-small : (t : Transform) → transform_id t < 7
unfolding transform_id
transform_id-small identity = omega arith
transform_id-small xor_previous = omega arith
transform_id-small delta_previous = omega arith
transform_id-small nibble_split = omega arith
transform_id-small mtf = omega arith
transform_id-small bwt = omega arith
transform_id-small bwt_mtf = omega arith

get-basis_id : (b : Basis) → get_elem? basis_order (basis_id b) ≡ some b
unfolding basis_id
get-basis_id zero_block = refl
get-basis_id repeat_byte = refl
get-basis_id delta_u8 = refl
get-basis_id dictionary_u8 = refl
get-basis_id rle_u8 = refl
get-basis_id ramp_u8 = refl
get-basis_id triangle_u8 = refl
get-basis_id sine8_u8 = refl
get-basis_id fourier8_u8 = refl

basis_id-small : (b : Basis) → basis_id b < 9
unfolding basis_id
basis_id-small zero_block = omega arith
basis_id-small repeat_byte = omega arith
basis_id-small delta_u8 = omega arith
basis_id-small dictionary_u8 = omega arith
basis_id-small rle_u8 = omega arith
basis_id-small ramp_u8 = omega arith
basis_id-small triangle_u8 = omega arith
basis_id-small sine8_u8 = omega arith
basis_id-small fourier8_u8 = omega arith

-- The descriptor byte of any transform, basis and encoding is decoded to them, with the entries of
-- the chunk that the reader has found. It is never the sentinel.
pub decode-encode_descriptor :
    (c : Chunk) (t : Transform) (b : Basis) (is_bitmask : Bool) (start_byte delta param count : ℕ)
    → c.transform ≡ some t
    → c.basis ≡ some b
    → (value : ℕ) × (encode_descriptor c is_bitmask ≡ ok value)
      × (value < 255)
      × (get_elem? transform_order (bit_and (value / 2 ^ 5) 7) ≡ some t)
      × (decode_descriptor value start_byte delta param count
          ≡ ok (record {
            transform = t;
            basis = b;
            start_byte = start_byte;
            delta = delta;
            transform_param = param;
            residual_count = count;
            is_bitmask = is_bitmask;
          }))
unfolding encode_descriptor decode_descriptor
decode-encode_descriptor c t b is_bitmask start_byte delta param count e f =
    let i = transform_id-small t in
    let j = basis_id-small b in
    let (p, q, r, s) =
      value_parts (transform_id t) (basis_id b) (flag_of is_bitmask) i j (flag_small is_bitmask) in
    let a : leb (transform_id t) 7 ≡ true = ground arith in
    let d : leb (basis_id b) 15 ≡ true = ground arith in
    let g : get_elem? transform_order (bit_and (descriptor_value t b is_bitmask / 2 ^ 5) 7)
        ≡ some t =
      ap (get_elem? transform_order) p ∙ get-transform_id t in
    let h : get_elem? basis_order (bit_and (descriptor_value t b is_bitmask / 2) 15) ≡ some b =
      ap (get_elem? basis_order) q ∙ get-basis_id b in
    (descriptor_value t b is_bitmask, rw (e, f, a, d) refl, s, g, rw (g, h, r) (flagged is_bitmask))
  where
    flag_small : (b : Bool) → flag_of b < 2
    flag_small true = omega arith
    flag_small false = omega arith

    flagged :
        (k : Bool)
        → Path
            (Result ContainerError Descriptor)
            (ok (record {
              transform = t;
              basis = b;
              start_byte = start_byte;
              delta = delta;
              transform_param = param;
              residual_count = count;
              is_bitmask = not (flag_of k == 0);
            }))
            (ok (record {
              transform = t;
              basis = b;
              start_byte = start_byte;
              delta = delta;
              transform_param = param;
              residual_count = count;
              is_bitmask = k;
            }))
    flagged true = refl
    flagged false = refl

-- Transforms with the same place are the same, and so are bases.
pub transform_id-injective : (t u : Transform) → transform_id t ≡ transform_id u → t ≡ u
transform_id-injective t u e = some_equal (get-transform_id t) (get-transform_id u) e
  where
    some_equal :
        get_elem? transform_order (transform_id t) ≡ some t
        → get_elem? transform_order (transform_id u) ≡ some u
        → transform_id t ≡ transform_id u
        → t ≡ u
    some_equal p q e = cc

pub basis_id-injective : (a b : Basis) → basis_id a ≡ basis_id b → a ≡ b
basis_id-injective a b e = some_equal (get-basis_id a) (get-basis_id b) e
  where
    some_equal :
        get_elem? basis_order (basis_id a) ≡ some a
        → get_elem? basis_order (basis_id b) ≡ some b
        → basis_id a ≡ basis_id b
        → a ≡ b
    some_equal p q e = cc
