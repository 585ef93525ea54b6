-- ===== src/Bases.antt =====
-- bogvm/bases.py: the deterministic generators of bytes. A basis name that is not in BASIS_ORDER,
-- Python's None included, is `none` here; lengths are natural numbers, so `length < 0` cannot occur.
pub mod Shape
pub mod Shaped
pub mod Waves
mod Runs
use bogbin.Common.{
  ℕ, zero, suc, ◌+◌, ◌*◌, ◌/◌, ◌%◌, Option, none, some, List, [], ◌∷◌, leb, get_or, replicate,
  Result, ok, err, ◌>>=◌, ◌>>◌, guard, String, str_eq, if◌then◌else◌,
}
use bogbin.Common.Int.{ℤ, pos, negsuc, ◌+ℤ◌, ◌*ℤ◌, floor_div, floor_mod}

-- BASIS_ORDER, in its order.
pub data Basis : Type 0 where
  zero_block repeat_byte delta_u8 dictionary_u8 rle_u8 ramp_u8 triangle_u8 sine8_u8 : Basis
  fourier8_u8 : Basis

abbrev pub basis_order : List Basis
basis_order =
    zero_block ∷ repeat_byte ∷ delta_u8 ∷ dictionary_u8 ∷ rle_u8 ∷ ramp_u8 ∷ triangle_u8 ∷ sine8_u8
    ∷ fourier8_u8 ∷ []

abbrev pub triangle_u8_offsets : List ℕ
triangle_u8_offsets = 0 ∷ 32 ∷ 64 ∷ 96 ∷ 128 ∷ 96 ∷ 64 ∷ 32 ∷ []

-- -90 is `negsuc 89`.
abbrev pub sine8_u8_offsets : List ℤ
sine8_u8_offsets =
    pos 0 ∷ pos 90 ∷ pos 127 ∷ pos 90 ∷ pos 0 ∷ negsuc 89 ∷ negsuc 126 ∷ negsuc 89 ∷ []

abbrev pub cosine8_u8_offsets : List ℤ
cosine8_u8_offsets =
    pos 127 ∷ pos 90 ∷ pos 0 ∷ negsuc 89 ∷ negsuc 126 ∷ negsuc 89 ∷ pos 0 ∷ pos 90 ∷ []

-- The ValueErrors of `synthesize_basis`, in the order of its tests.
pub data BasisError : Type 0 where
  unsupported_basis start_byte_range delta_range : BasisError

-- `f(i) for i in range(k, k + n)`
unfoldable pub tabulate : (ℕ → ℕ) → ℕ → ℕ → List ℕ
tabulate f k zero = []
tabulate f k (suc n) = f k ∷ tabulate f (k + 1) n

-- The byte that a basis puts at index `i`.
unfoldable pub sample : Basis → ℕ → ℕ → ℕ → ℕ
unfolding ◌+ℤ◌ ◌*ℤ◌ floor_div floor_mod
sample zero_block start delta i = 0
sample delta_u8 start delta i = (start + i * delta) % 256
sample dictionary_u8 start delta i = start
sample rle_u8 start delta i = start
sample repeat_byte start delta i = start
sample ramp_u8 start delta i = (start + i) % 256
sample triangle_u8 start delta i = (start + get_or triangle_u8_offsets (i % 8) 0) % 256
sample sine8_u8 start delta i = floor_mod (pos start +ℤ get_or sine8_u8_offsets (i % 8) (pos 0)) 256
sample fourier8_u8 start delta i =
    let cosine_delta = delta / 2 in
    floor_mod
      (pos start
        +ℤ floor_div (pos delta *ℤ get_or sine8_u8_offsets (i % 8) (pos 0)) 127
        +ℤ floor_div (pos cosine_delta *ℤ get_or cosine8_u8_offsets (i % 8) (pos 0)) 127)
      256

-- `bytes([b]) * length` is the table of a constant.
unfoldable pub generate : Basis → ℕ → ℕ → ℕ → List ℕ
unfolding tabulate sample
generate basis start length delta = tabulate (sample basis start delta) 0 length

unfoldable pub synthesize_basis : Option Basis → ℕ → ℕ → ℕ → Result BasisError (List ℕ)
unfolding generate
synthesize_basis none start length delta = err unsupported_basis
synthesize_basis (some basis) start length delta = do
  guard (leb start 255) start_byte_range
  guard (leb delta 255) delta_range
  ok (generate basis start length delta)

abbrev pub basis_name : Basis → String
basis_name zero_block = "zero_block"
basis_name repeat_byte = "repeat_byte"
basis_name delta_u8 = "delta_u8"
basis_name dictionary_u8 = "dictionary_u8"
basis_name rle_u8 = "rle_u8"
basis_name ramp_u8 = "ramp_u8"
basis_name triangle_u8 = "triangle_u8"
basis_name sine8_u8 = "sine8_u8"
basis_name fourier8_u8 = "fourier8_u8"

find_name : String → List Basis → Option Basis
find_name text [] = none
find_name text (b ∷ bs) = if str_eq (basis_name b) text then some b else find_name text bs

-- `text in BASIS_ORDER`, with the basis that the text names.
unfoldable pub find_basis : String → Option Basis
unfolding find_name
find_basis text = find_name text basis_order
