-- ===== src/Common/Marks.antt =====
-- The single bits of a byte, as `byte & (1 << k)` reads and `byte | (1 << k)` sets them.
use bogbin.Common.Tests.{◌==◌, ==_iff, if◌then◌else◌}
use bogbin.Common.Bits.{IsByte, passes_below, passed}
use Prim.Native.Nat.{ℕ, zero, suc, ◌+◌, ◌-◌, ◌*◌, ◌/◌, ◌%◌, ◌^◌, ◌≤◌, ◌<◌, bit_and, bit_or}
use mathlib.Core.Path.{◌≡◌, refl}
use mathlib.Core.Bool.{Bool, true, false, not, ◌&&◌, ◌||◌}
use native.Mathlib.Omega.{arith}

abbrev pub has_bit : ℕ → ℕ → Bool
has_bit byte k = not (bit_and byte (2 ^ k) == 0)

abbrev same : Bool → Bool → Bool
same true b = b
same false b = not b

same_sound : (a b : Bool) → same a b ≡ true → a ≡ b
same_sound true true h = refl
same_sound true false h = cc
same_sound false true h = cc
same_sound false false h = refl

-- A test of a byte and two places, from the numbers that hold them.
passed_at :
    (test : ℕ → ℕ → ℕ → Bool) (byte k j : ℕ)
    → passes_below (λ i. test (i % 256) (i / 256 % 8) (i / 2048)) 16384 ≡ true
    → IsByte byte
    → k < 8
    → j < 8
    → test byte k j ≡ true
passed_at test byte k j table h p q =
    let i : ℕ = j * 2048 + k * 256 + byte in
    let a : i % 256 ≡ byte = omega arith in
    let b : i / 256 % 8 ≡ k = omega arith in
    let c : i / 2048 ≡ j = omega arith in
    let t : test (i % 256) (i / 256 % 8) (i / 2048) ≡ true =
      passed (λ i. test (i % 256) (i / 256 % 8) (i / 2048)) 16384 i (omega arith) table in
    cc

abbrev set_test : ℕ → ℕ → ℕ → Bool
set_test byte k j = same (has_bit (bit_or byte (2 ^ k)) j) (if j == k then true else has_bit byte j)

set_table : passes_below (λ i. set_test (i % 256) (i / 256 % 8) (i / 2048)) 16384 ≡ true
unfolding passes_below
set_table = refl

-- A bit is set, and the others are kept.
pub has_bit-set :
    (byte k j : ℕ)
    → IsByte byte
    → k < 8
    → j < 8
    → has_bit (bit_or byte (2 ^ k)) j ≡ (if j == k then true else has_bit byte j)
has_bit-set byte k j h p q = same_sound _ _ (passed_at set_test byte k j set_table h p q)

abbrev byte_test : ℕ → ℕ → ℕ → Bool
byte_test byte k j = bit_or byte (2 ^ k) / 256 == 0

byte_table : passes_below (λ i. byte_test (i % 256) (i / 256 % 8) (i / 2048)) 16384 ≡ true
unfolding passes_below
byte_table = refl

pub set_bit-IsByte : (byte k : ℕ) → IsByte byte → k < 8 → IsByte (bit_or byte (2 ^ k))
set_bit-IsByte byte k h p =
    let t = (==_iff _ _).0 (passed_at byte_test byte k 0 byte_table h p (omega arith)) in
    omega arith

-- Whether the bits from the j-th one on are clear, for the next ones.
abbrev pub clear_from : ℕ → ℕ → ℕ → Bool
clear_from byte zero j = true
clear_from byte (suc rounds) j = not (has_bit byte j) && clear_from byte rounds (j + 1)

abbrev high_test : ℕ → ℕ → ℕ → Bool
high_test byte k j =
    not (clear_from byte (8 - k) k) || (bit_and byte (bit_and (255 * 2 ^ k) 255) == 0)

high_table : passes_below (λ i. high_test (i % 256) (i / 256 % 8) (i / 2048)) 16384 ≡ true
unfolding passes_below
high_table = refl

clear_all :
    (byte rounds k : ℕ)
    → ((j : ℕ) → k ≤ j → j < k + rounds → has_bit byte j ≡ false)
    → clear_from byte rounds k ≡ true
clear_all byte zero k h = refl
clear_all byte (suc rounds) k h =
    rw (h k (omega arith) (omega arith))
      (clear_all byte rounds (k + 1) (λ j p q. h j (omega arith) (omega arith)))

-- `byte & (0xFF << k & 0xFF)` is zero where the bits from the k-th one on are clear.
pub high_clear :
    (byte k : ℕ)
    → IsByte byte
    → k < 8
    → ((j : ℕ) → k ≤ j → j < 8 → has_bit byte j ≡ false)
    → (bit_and byte (bit_and (255 * 2 ^ k) 255) == 0) ≡ true
high_clear byte k h p clear =
    let c = clear_all byte (8 - k) k (λ j u v. clear j u (omega arith)) in
    let t : (not (clear_from byte (8 - k) k) || (bit_and byte (bit_and (255 * 2 ^ k) 255) == 0))
        ≡ true =
      passed_at high_test byte k 0 high_table h p (omega arith) in
    from_both (clear_from byte (8 - k) k) (bit_and byte (bit_and (255 * 2 ^ k) 255) == 0) c t
  where
    from_both : (a b : Bool) → a ≡ true → (not a || b) ≡ true → b ≡ true
    from_both true b e f = f
    from_both false b e f = cc
