-- ===== src/Bases/Runs.antt =====
-- Bases on examples.
use bogbin.Common.{
  ℕ, List, [], ◌∷◌, All, arith, ok, err, some, none, length, refl, ◌≡◌, ◌≢◌, ◌<◌, ◌≤◌, ◌↔◌, ◌⊎◌,
}
use bogbin.Common.Bits.{IsByte}
use bogbin.Bases.{
  ramp_u8, triangle_u8, sine8_u8, fourier8_u8, sample, generate, synthesize_basis, delta_range,
  unsupported_basis, start_byte_range,
}
use bogbin.Bases.Shape.{synthesize_error}
use bogbin.Bases.Shaped.{IsShaped, synthesize-IsShaped}

ten_fits : IsByte 10
ten_fits = omega arith

sine_bytes : synthesize_basis (some sine8_u8) 10 4 0 ≡ ok (10 ∷ 100 ∷ 137 ∷ 100 ∷ [])
unfolding synthesize_basis generate sample
sine_bytes = refl

triangle_bytes :
    synthesize_basis (some triangle_u8) 200 6 0 ≡ ok (200 ∷ 232 ∷ 8 ∷ 40 ∷ 72 ∷ 40 ∷ [])
unfolding synthesize_basis generate sample
triangle_bytes = refl

fifty_fits : IsByte 50
fifty_fits = omega arith

synthesize-IsShaped_example :
    (out : List ℕ) × (synthesize_basis (some fourier8_u8) 10 9 50 ≡ ok out)
    × (length out ≡ 9)
    × All IsByte out
    × IsShaped fourier8_u8 10 50 out
synthesize-IsShaped_example = synthesize-IsShaped fourier8_u8 10 9 50 ten_fits fifty_fits

synthesize_error_example : (synthesize_basis (some ramp_u8) 1 4 300 ≡ err delta_range) ↔ (
    ((some ramp_u8 ≡ none) × (delta_range ≡ unsupported_basis))
    ⊎ ((some ramp_u8 ≢ none) × (256 ≤ 1) × (delta_range ≡ start_byte_range))
    ⊎ ((some ramp_u8 ≢ none) × (1 < 256) × (256 ≤ 300) × (delta_range ≡ delta_range)))
synthesize_error_example = synthesize_error (some ramp_u8) 1 4 300 delta_range
