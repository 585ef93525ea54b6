-- ===== src/Common/Bits.antt =====
-- Bit operations of Python's int on small numbers, as arithmetic.
use Prim.Native.Nat.{ℕ, zero, suc, ◌+◌, ◌*◌, ◌/◌, ◌%◌, ◌^◌, ◌≤◌, ◌<◌, digits, differ}
use Prim.Native.Nat.{bit_and, bit_or, bit_xor, bit_xor-bitwise}
use mathlib.Core.Path.{◌≡◌, refl}
use mathlib.Core.Bool.{Bool, true, ◌&&◌}
use native.Mathlib.Omega.{arith}
use native.Mathlib.Nat.{pow-suc}
use bogbin.Common.Tests.{◌==◌, ==_iff}

abbrev pub IsByte : ℕ → Type 0
IsByte b = b < 256

abbrev xor_digits : ℕ → ℕ → ℕ → ℕ
xor_digits n a b = digits (λ b. b) differ n a b

-- Any two amounts of fuel that are enough give the same digits.
enough_fuel : (x y fuel more : ℕ) → x ≤ fuel → x ≤ more → xor_digits fuel x y ≡ xor_digits more x y
enough_fuel zero y zero zero h k = refl
enough_fuel zero y zero (suc more) h k = refl
enough_fuel zero y (suc fuel) zero h k = refl
enough_fuel zero y (suc fuel) (suc more) h k = refl
enough_fuel (suc x) y zero more h k = absurd (omega arith)
enough_fuel (suc x) y (suc fuel) zero h k = absurd (omega arith)
enough_fuel (suc x) y (suc fuel) (suc more) h k =
    let halves = enough_fuel (suc x / 2) (y / 2) fuel more (omega arith) (omega arith) in
    omega arith

zero-bit_xor : (b : ℕ) → bit_xor 0 b ≡ b
zero-bit_xor b = bit_xor-bitwise 0 b

differ_low : (x y : ℕ) → x < 2 → y < 2 → differ x y ≡ (x + y) % 2
differ_low zero y p q = omega arith
differ_low (suc zero) zero p q = refl
differ_low (suc zero) (suc y) p q = omega arith
differ_low (suc (suc x)) y p q = absurd (omega arith)

-- The lowest binary digit, and the rest.
bit_xor_step : (a b : ℕ) → bit_xor a b ≡ bit_xor (a / 2) (b / 2) * 2 + (a % 2 + b % 2) % 2
bit_xor_step zero b = omega (arith, zero-bit_xor b, zero-bit_xor (b / 2))
bit_xor_step (suc a) b = omega (
  arith,
  bit_xor-bitwise (suc a) b,
  bit_xor-bitwise (suc a / 2) (b / 2),
  enough_fuel (suc a / 2) (b / 2) a (suc a / 2) (omega arith) (omega arith),
  differ_low (suc a % 2) (b % 2) (omega arith) (omega arith),
)

xor_cancel_fuel : (n a b : ℕ) → a ≤ n → b ≤ n → bit_xor (bit_xor a b) b ≡ a
xor_cancel_fuel zero zero zero p q = refl
xor_cancel_fuel zero zero (suc b) p q = absurd (omega arith)
xor_cancel_fuel zero (suc a) b p q = absurd (omega arith)
xor_cancel_fuel (suc n) a b p q = omega (
  arith,
  bit_xor_step a b,
  bit_xor_step (bit_xor a b) b,
  halves,
  xor_cancel_fuel n (a / 2) (b / 2) (omega arith) (omega arith),
)
  where
    halves : bit_xor (bit_xor a b / 2) (b / 2) ≡ bit_xor (bit_xor (a / 2) (b / 2)) (b / 2)
    halves =
        let e : bit_xor a b / 2 ≡ bit_xor (a / 2) (b / 2) = omega (arith, bit_xor_step a b) in rw e

-- `(a ^ b) ^ b == a`
pub xor_cancel : (a b : ℕ) → bit_xor (bit_xor a b) b ≡ a
xor_cancel a b = xor_cancel_fuel (a + b) a b (omega arith) (omega arith)

-- `a ^ b` needs no more binary digits than `a` and `b`.
pub bit_xor_lt : (k a b : ℕ) → a < 2 ^ k → b < 2 ^ k → bit_xor a b < 2 ^ k
bit_xor_lt zero zero zero p q = omega arith
bit_xor_lt zero zero (suc b) p q = absurd (omega arith)
bit_xor_lt zero (suc a) b p q = absurd (omega arith)
bit_xor_lt (suc k) a b p q = omega (
  arith,
  pow-suc 2 k,
  bit_xor_step a b,
  bit_xor_lt k (a / 2) (b / 2) (omega (arith, pow-suc 2 k)) (omega (arith, pow-suc 2 k)),
)

-- Whether a test passes for every number below a bound.
unfoldable pub passes_below : (ℕ → Bool) → ℕ → Bool
passes_below test zero = true
passes_below test (suc bound) = passes_below test bound && test bound

pub passed :
    (test : ℕ → Bool) (bound i : ℕ) → i < bound → passes_below test bound ≡ true → test i ≡ true
unfolding passes_below
passed test zero i small all = absurd (omega arith)
passed test (suc bound) i small all = ground (arith, passed test bound i)

-- `((b & 0x0F) << 4) | (b >> 4)` exchanges the two digits of a byte.
nibbles_table :
    passes_below (λ b. bit_or (bit_and b 15 * 16) (b / 16) == b % 16 * 16 + b / 16) 256 ≡ true
unfolding passes_below
nibbles_table = refl

pub nibbles : (b : ℕ) → IsByte b → bit_or (bit_and b 15 * 16) (b / 16) ≡ b % 16 * 16 + b / 16
nibbles b h = (==_iff _ _).0 (passed _ 256 b h nibbles_table)

low_seven_table : passes_below (λ b. bit_and b 127 == b % 128) 256 ≡ true
unfolding passes_below
low_seven_table = refl

-- `b & 0x7F`
pub low_seven : (b : ℕ) → IsByte b → bit_and b 127 ≡ b % 128
low_seven b h = (==_iff _ _).0 (passed _ 256 b h low_seven_table)

top_bit_table : passes_below (λ b. bit_and b 128 == b / 128 * 128) 256 ≡ true
unfolding passes_below
top_bit_table = refl

-- `b & 0x80`
pub top_bit : (b : ℕ) → IsByte b → bit_and b 128 ≡ b / 128 * 128
top_bit b h = (==_iff _ _).0 (passed _ 256 b h top_bit_table)

set_top_bit_table : passes_below (λ b. bit_or b 128 == b + 128) 128 ≡ true
unfolding passes_below
set_top_bit_table = refl

-- `b | 0x80` of seven bits
pub set_top_bit : (b : ℕ) → b < 128 → bit_or b 128 ≡ b + 128
set_top_bit b h = (==_iff _ _).0 (passed _ 128 b h set_top_bit_table)
