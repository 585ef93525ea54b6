-- ===== src/Container/Varuint.antt =====
-- bogvm/container.py: `_encode_varuint`, and `_decode_varuint` on a `_ByteReader`.
use bogbin.Common.{
  ℕ, zero, suc, ◌+◌, ◌*◌, ◌/◌, ◌%◌, ◌^◌, ◌≤◌, ◌<◌, Bool, true, false, List, [], ◌∷◌, ◌++◌,
  append_assoc, ◌==◌, ==_iff, ltb, ltb→lt, if◌then◌else◌, Bool-cases, inl, inr, Result, ok, err,
  ◌≡◌, refl, sym, ap, ◌∙◌, arith, bit_and, bit_or,
}
use native.Mathlib.Nat.{pow-suc, pow-zero, mul_assoc, add-mul}
use bogbin.Common.ByteStrings.{bytes_eq, bytes_eq_refl, bytes_eq_sound}
use bogbin.Container.Errors.{ContainerError, unexpected_end, non_minimal, too_large}
use bogbin.Common.Bits.{low_seven, top_bit, set_top_bit}

-- The loop of `_encode_varuint`, with fuel. `value & 0x7F` is `value % 128`, and `value >>= 7` is
-- `value / 128`.
encode_loop : ℕ → ℕ → List ℕ
encode_loop zero value = value % 128 ∷ []
encode_loop (suc fuel) value =
    let rest = encode_loop fuel (value / 128) in
    if value / 128 == 0 then value % 128 ∷ [] else bit_or (value % 128) 0x80 ∷ rest

-- `_encode_varuint`. The value itself is enough fuel, since every round makes it smaller.
unfoldable pub encode_varuint : ℕ → List ℕ
unfolding encode_loop
encode_varuint value = encode_loop value value

-- The loop of `_decode_varuint`, over the bytes of the reader. The bits of `value` are below `shift`,
-- so `value |= (byte & 0x7F) << shift` is a sum.
unfoldable pub decode_loop : ℕ → ℕ → List ℕ → List ℕ → Result ContainerError (ℕ × List ℕ)
unfolding encode_varuint bytes_eq
decode_loop value shift raw [] = err unexpected_end
decode_loop value shift raw (byte ∷ bytes) =
    let value' : ℕ = value + bit_and byte 0x7f * 2 ^ shift in
    let raw' = raw ++ (byte ∷ []) in
    let rest = decode_loop value' (shift + 7) raw' bytes in
    if bit_and byte 0x80 == 0
    then (if bytes_eq (encode_varuint value') raw' then ok (value', bytes) else err non_minimal)
    else if ltb 63 (shift + 7)
    then err too_large
    else rest

-- `_decode_varuint`: the value, and the reader behind it.
unfoldable pub decode_varuint : List ℕ → Result ContainerError (ℕ × List ℕ)
unfolding decode_loop
decode_varuint bytes = decode_loop 0 0 [] bytes

encode_loop_fuel :
    (fuel more value : ℕ)
    → value ≤ fuel
    → value ≤ more
    → encode_loop fuel value ≡ encode_loop more value
unfolding encode_loop
encode_loop_fuel zero zero value h k = refl
encode_loop_fuel zero (suc more) value h k = ground arith
encode_loop_fuel (suc fuel) zero value h k = ground arith
encode_loop_fuel (suc fuel) (suc more) value h k = elim (Bool-cases (value / 128 == 0)) [
  | inl e ↦ rw e refl
  | inr e ↦ rw (e, encode_loop_fuel fuel more (value / 128) (omega arith) (omega arith)) refl
]

-- A value below 128 is one byte, itself.
pub encode_small : (value : ℕ) → value < 128 → encode_varuint value ≡ value ∷ []
unfolding encode_varuint encode_loop
encode_small zero h = refl
encode_small (suc value) h = ground arith

-- A larger value is its low seven bits with the top bit set, and then the rest.
pub encode_large :
    (value : ℕ)
    → 128 ≤ value
    → encode_varuint value ≡ (value % 128 + 128) ∷ encode_varuint (value / 128)
unfolding encode_varuint encode_loop
encode_large zero h = absurd (omega arith)
encode_large (suc value) h =
    let above : (suc value / 128 == 0) ≡ false = ground arith in
    let top : bit_or (suc value % 128) 128 ≡ suc value % 128 + 128 =
      set_top_bit (suc value % 128) (omega arith) in
    rw
      (
        above,
        top,
        encode_loop_fuel value (suc value / 128) (suc value / 128) (omega arith) (omega arith),
      )
      refl

-- The last byte of a number whose encoding has been read.
decode_last :
    (value shift v : ℕ) (raw rest : List ℕ)
    → v < 128
    → encode_varuint (value + v * 2 ^ shift) ≡ raw ++ (v ∷ [])
    → decode_loop value shift raw (v ∷ rest) ≡ ok (value + v * 2 ^ shift, rest)
unfolding decode_loop
decode_last value shift v raw rest h e =
    let low : bit_and v 0x7f ≡ v = low_seven v (omega arith) ∙ omega arith in
    let top : (bit_and v 0x80 == 0) ≡ true =
      (==_iff _ _).1 (top_bit v (omega arith) ∙ omega arith) in
    rw (low, top, e, bytes_eq_refl (raw ++ (v ∷ []))) refl

-- A byte that is not the last.
decode_more :
    (value shift low : ℕ) (raw rest : List ℕ)
    → low < 128
    → shift ≤ 56
    → decode_loop value shift raw ((low + 128) ∷ rest)
      ≡ decode_loop (value + low * 2 ^ shift) (shift + 7) (raw ++ ((low + 128) ∷ [])) rest
unfolding decode_loop
decode_more value shift low raw rest h k =
    let seven : bit_and (low + 128) 0x7f ≡ low =
      low_seven (low + 128) (omega arith) ∙ omega arith in
    let top : bit_and (low + 128) 0x80 ≡ 128 = top_bit (low + 128) (omega arith) ∙ omega arith in
    let near : ltb 63 (shift + 7) ≡ false = ground arith in rw (seven, top, near) refl

weight : (shift : ℕ) → 2 ^ (shift + 7) ≡ 128 * 2 ^ shift
weight shift =
    let seven : shift + 7 ≡ suc (suc (suc (suc (suc (suc (suc shift)))))) = omega arith in
    ap (λ k. 2 ^ k) seven
    ∙ omega (
      arith,
      pow-suc 2 shift,
      pow-suc 2 (suc shift),
      pow-suc 2 (suc (suc shift)),
      pow-suc 2 (suc (suc (suc shift))),
      pow-suc 2 (suc (suc (suc (suc shift)))),
      pow-suc 2 (suc (suc (suc (suc (suc shift))))),
      pow-suc 2 (suc (suc (suc (suc (suc (suc shift)))))),
    )

-- A number is its low seven bits and the rest, at any place.
split_low :
    (value v shift : ℕ)
    → value + v * 2 ^ shift ≡ value + v % 128 * 2 ^ shift + v / 128 * 2 ^ (shift + 7)
split_low value v shift =
    let whole : v ≡ v % 128 + v / 128 * 128 = omega arith in
    ap (λ n. value + n * 2 ^ shift) whole
    ∙ ap (λ n. value + n) (add-mul (v % 128) (v / 128 * 128) (2 ^ shift))
    ∙ regroup
  where
    regroup :
        value + (v % 128 * 2 ^ shift + v / 128 * 128 * 2 ^ shift)
        ≡ value + v % 128 * 2 ^ shift + v / 128 * 2 ^ (shift + 7)
    regroup =
        let moved : v / 128 * 128 * 2 ^ shift ≡ v / 128 * 2 ^ (shift + 7) =
          mul_assoc (v / 128) 128 (2 ^ shift) ∙ ap (λ n. v / 128 * n) (sym (weight shift)) in
        omega arith

decode_end :
    (v value shift : ℕ) (raw rest : List ℕ)
    → v < 128
    → encode_varuint (value + v * 2 ^ shift) ≡ raw ++ encode_varuint v
    → decode_loop value shift raw (encode_varuint v ++ rest) ≡ ok (value + v * 2 ^ shift, rest)
decode_end v value shift raw rest h e =
    ap (λ bs. decode_loop value shift raw (bs ++ rest)) (encode_small v h)
    ∙ decode_last value shift v raw rest h (e ∙ ap (λ bs. raw ++ bs) (encode_small v h))

-- The loop, when `raw` holds the bytes that are read and `rounds` rounds are left.
decode_from :
    (rounds v value shift : ℕ) (raw rest : List ℕ)
    → shift + 7 * rounds ≡ 70
    → v < 128 ^ rounds
    → encode_varuint (value + v * 2 ^ shift) ≡ raw ++ encode_varuint v
    → decode_loop value shift raw (encode_varuint v ++ rest) ≡ ok (value + v * 2 ^ shift, rest)
decode_from zero v value shift raw rest left bound e =
    let nothing : v < 128 = omega (arith, bound, pow-zero 128) in
    decode_end v value shift raw rest nothing e
decode_from (suc rounds) v value shift raw rest left bound e = elim (Bool-cases (ltb v 128)) [
  | inl small ↦ decode_end v value shift raw rest (ltb→lt v 128 small) e
  | inr large ↦
      let big : 128 ≤ v = ground arith in
      let enc = encode_large v big in
      let byte : ℕ = v % 128 + 128 in
      ap (λ bs. decode_loop value shift raw (bs ++ rest)) enc
      ∙ decode_more value shift (v % 128) raw (encode_varuint (v / 128) ++ rest) (omega arith)
          (near rounds left bound big)
      ∙ decode_from rounds (v / 128) (value + v % 128 * 2 ^ shift) (shift + 7) (raw ++ (byte ∷ []))
          rest (omega arith) (omega (arith, pow-suc 128 rounds))
          (ap encode_varuint (sym (split_low value v shift))
            ∙ e
            ∙ ap (λ bs. raw ++ bs) enc
            ∙ sym (append_assoc raw (byte ∷ []) (encode_varuint (v / 128))))
      ∙ ap (λ n. ok (n, rest)) (sym (split_low value v shift))
]
  where
    near : (rounds : ℕ) → shift + 7 * suc rounds ≡ 70 → v < 128 ^ suc rounds → 128 ≤ v → shift ≤ 56
    near zero left bound big = absurd (omega (arith, pow-suc 128 0, pow-zero 128))
    near (suc rounds) left bound big = omega arith

-- Every number below 128 ^ 10 is written so that the reader reads it, and stops behind it.
pub decode-encode_varuint :
    (value : ℕ) (rest : List ℕ)
    → value < 128 ^ 10
    → decode_varuint (encode_varuint value ++ rest) ≡ ok (value, rest)
unfolding decode_varuint
decode-encode_varuint value rest h =
    decode_from 10 value 0 0 [] rest refl h (ap encode_varuint one) ∙ ap (λ n. ok (n, rest)) one
  where
    one : 0 + value * 2 ^ 0 ≡ value
    one = omega (arith, pow-zero 2)

decode_loop_sound :
    (value shift : ℕ) (raw bytes : List ℕ) (v : ℕ) (rest : List ℕ)
    → decode_loop value shift raw bytes ≡ ok (v, rest)
    → raw ++ bytes ≡ encode_varuint v ++ rest
unfolding decode_loop
decode_loop_sound value shift raw [] v rest h = cc
decode_loop_sound value shift raw (b ∷ bytes) v rest h =
    by_tests (bit_and b 0x80 == 0)
      (bytes_eq (encode_varuint (value + bit_and b 0x7f * 2 ^ shift)) (raw ++ (b ∷ [])))
      (ltb 63 (shift + 7)) (value + bit_and b 0x7f * 2 ^ shift)
      (decode_loop (value + bit_and b 0x7f * 2 ^ shift) (shift + 7) (raw ++ (b ∷ [])) bytes) h
      (bytes_eq_sound (encode_varuint (value + bit_and b 0x7f * 2 ^ shift)) (raw ++ (b ∷ [])))
      (decode_loop_sound (value + bit_and b 0x7f * 2 ^ shift) (shift + 7) (raw ++ (b ∷ [])) bytes v
        rest)
  where
    onwards : raw ++ (b ∷ bytes) ≡ (raw ++ (b ∷ [])) ++ bytes
    onwards = sym (append_assoc raw (b ∷ []) bytes)

    by_tests :
        (last same long : Bool) (n : ℕ) (more : Result ContainerError (ℕ × List ℕ))
        → (if last
            then (if same then ok (n, bytes) else err non_minimal)
            else if long
            then err too_large
            else more)
          ≡ ok (v, rest)
        → (same ≡ true → encode_varuint n ≡ raw ++ (b ∷ []))
        → (more ≡ ok (v, rest) → (raw ++ (b ∷ [])) ++ bytes ≡ encode_varuint v ++ rest)
        → raw ++ (b ∷ bytes) ≡ encode_varuint v ++ rest
    by_tests true true long n more e s k =
        onwards ∙ ap (λ l. l ++ bytes) (sym (s refl)) ∙ both_parts refl e
      where
        both_parts :
            {n : ℕ} {r : Result ContainerError (ℕ × List ℕ)}
            → r ≡ ok (n, bytes)
            → r ≡ ok (v, rest)
            → encode_varuint n ++ bytes ≡ encode_varuint v ++ rest
        both_parts p q = cc
    by_tests true false long n more e s k = cc
    by_tests false same true n more e s k = cc
    by_tests false same false n more e s k = onwards ∙ k e

-- What the reader accepts as a number is exactly what the writer writes for it: no number has
-- another encoding.
pub encode-decode_varuint :
    (bytes : List ℕ) (value : ℕ) (rest : List ℕ)
    → decode_varuint bytes ≡ ok (value, rest)
    → bytes ≡ encode_varuint value ++ rest
unfolding decode_varuint
encode-decode_varuint bytes value rest h = decode_loop_sound 0 0 [] bytes value rest h
