-- ===== src/Container/HexTexts.antt =====
-- bogvm/container.py: digests as bytes and as hex digits.
use Prim.Native.Char.{Char, code}
use Prim.Native.String.{String, count}
use Prim.Native.Nat.{ℕ, suc, ◌+◌, ◌-◌, ◌*◌, ◌/◌, ◌%◌, ◌<◌}
use text.Mathlib.TextEquality.{Char-path}
use text.Mathlib.TextLemmas.{length-cons, length-nil}
use bogbin.Common.{
  Bool, true, ◌&&◌, &&-true, List, [], ◌∷◌, length, All, leb, if◌then◌else◌, ◌==◌, ==_iff, ok, ◌≡◌,
  refl, arith,
}
use bogbin.Common.Bits.{IsByte, passes_below, passed}
use bogbin.Container.Records.{all_hex, is_hex_digit}
use bogbin.Container.Hex.{digit_value, hex_digit, from_hex, to_hex}

abbrev digit_test : ℕ → Bool
digit_test v = code (hex_digit v) == (if leb v 9 then v + 48 else v + 87)

digit_table : passes_below digit_test 16 ≡ true
unfolding passes_below hex_digit
digit_table = refl

-- A digit is the digit of its value.
hex_digit-digit_value : (c : Char) → is_hex_digit c ≡ true → hex_digit (digit_value c) ≡ c
unfolding digit_value is_hex_digit
hex_digit-digit_value c h =
    let small : digit_value c < 16 = ground arith in
    let t = (==_iff _ _).0 (passed digit_test 16 (digit_value c) small digit_table) in
    Char-path (hex_digit (digit_value c)) c (ground arith)

digit_value-small : (c : Char) → is_hex_digit c ≡ true → digit_value c < 16
unfolding digit_value is_hex_digit
digit_value-small c h = ground arith

-- A text of an even number of digits is read as bytes, which are printed as the same text.
pub to_hex-from_hex :
    (text : String) (k : ℕ)
    → count text ≡ 2 * k
    → all_hex text ≡ true
    → (bytes : List ℕ) × (from_hex text ≡ ok bytes)
      × (length bytes ≡ k)
      × All IsByte bytes
      × (to_hex bytes ≡ text)
unfolding from_hex to_hex all_hex
to_hex-from_hex String.[] k e h = ([], refl, omega (arith, e, length-nil), tt, refl)
to_hex-from_hex (String.◌∷◌ c String.[]) k e h =
    absurd (omega (arith, e, length-cons c String.[], length-nil))
to_hex-from_hex (String.◌∷◌ c (String.◌∷◌ d text)) k e h =
    let size : suc (suc (count text)) ≡ 2 * k =
      omega (arith, e, length-cons c (String.◌∷◌ d text), length-cons d text) in
    let (hc, hr) = &&-true (is_hex_digit c) (is_hex_digit d && all_hex text) h in
    let (hd, ht) = &&-true (is_hex_digit d) (all_hex text) hr in
    let (bytes, r, l, b, t) = to_hex-from_hex text (k - 1) (omega arith) ht in
    let u = digit_value-small c hc in
    let v = digit_value-small d hd in
    let byte : ℕ = digit_value c * 16 + digit_value d in
    let e1 : byte / 16 ≡ digit_value c = omega arith in
    let e2 : byte % 16 ≡ digit_value d = omega arith in
    (
      byte ∷ bytes,
      rw (r, hc, hd) refl,
      omega (arith, l, size),
      (omega arith, b),
      rw (e1, e2, t, hex_digit-digit_value c hc, hex_digit-digit_value d hd) refl,
    )
