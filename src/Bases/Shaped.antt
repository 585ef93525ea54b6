-- ===== src/Bases/Shaped.antt =====
-- bogvm/bases.py: the shapes of the bytes that the bases generate, described without the tables of
-- offsets.
use bogbin.Common.{
  ℕ, zero, suc, ◌+◌, ◌-◌, ◌*◌, ◌/◌, ◌%◌, ◌<◌, ◌≡◌, refl, sym, ap, subst, ◌∙◌, List, [], ◌∷◌, All,
  arith, length, ok, min, get_or, some, Result,
}
use bogbin.Common.Bits.{IsByte}
use bogbin.Bases.{
  Basis, tabulate, sample, generate, synthesize_basis, triangle_u8_offsets, BasisError,
}
use bogbin.Bases.Shape.{synthesize_shape, synthesize_ok}
use bogbin.Bases.Waves.{raised_by, lowered_by, IsMoved, below_eight, sine_sample, fourier_sample}

-- The first byte is `x`, and each next one is `step` more, modulo 256.
abbrev pub IsStepped : ℕ → ℕ → List ℕ → Type 0
IsStepped step x [] = Unit
IsStepped step x (y ∷ ys) = (y ≡ x) × IsStepped step ((x + step) % 256) ys

-- A property of each byte and its index, the first index being `k`.
abbrev pub IsEach : (ℕ → ℕ → Type 0) → ℕ → List ℕ → Type 0
IsEach P k [] = Unit
IsEach P k (x ∷ xs) = P k x × IsEach P (k + 1) xs

-- The bytes of a basis: constant, stepped, a triangle of the height 128, a sine wave, or a sine wave
-- of the amplitude `delta` and the wave of half of it that is two steps ahead.
abbrev pub IsShaped : Basis → ℕ → ℕ → List ℕ → Type 0
IsShaped Basis.zero_block start delta out = All (λ x. x ≡ 0) out
IsShaped Basis.repeat_byte start delta out = All (λ x. x ≡ start) out
IsShaped Basis.dictionary_u8 start delta out = All (λ x. x ≡ start) out
IsShaped Basis.rle_u8 start delta out = All (λ x. x ≡ start) out
IsShaped Basis.delta_u8 start delta out = IsStepped delta start out
IsShaped Basis.ramp_u8 start delta out = IsStepped 1 start out
IsShaped Basis.triangle_u8 start delta out =
    IsEach (λ i x. x ≡ (start + 32 * min (i % 8) (8 - i % 8)) % 256) 0 out
IsShaped Basis.sine8_u8 start delta out =
    IsEach (λ i x. IsMoved start (raised_by 127 i) (lowered_by 127 i) x) 0 out
IsShaped Basis.fourier8_u8 start delta out =
    IsEach
      (λ i x.
        IsMoved start (raised_by delta i + raised_by (delta / 2) (i + 2))
          (lowered_by delta i + lowered_by (delta / 2) (i + 2)) x)
      0 out

IsEach-tabulate :
    (P : ℕ → ℕ → Type 0) (f : ℕ → ℕ) (k n : ℕ) → ((i : ℕ) → P i (f i)) → IsEach P k (tabulate f k n)
unfolding tabulate
IsEach-tabulate P f k zero h = tt
IsEach-tabulate P f k (suc n) h = (h k, IsEach-tabulate P f (k + 1) n h)

All-constant : (x k n : ℕ) → All (λ y. y ≡ x) (tabulate (λ i. x) k n)
unfolding tabulate
All-constant x k zero = tt
All-constant x k (suc n) = (refl, All-constant x (k + 1) n)

mod_step : (t d : ℕ) → (t % 256 + d) % 256 ≡ (t + d) % 256
mod_step t d = omega arith

IsStepped-tabulate :
    (f : ℕ → ℕ) (d k n : ℕ)
    → ((i : ℕ) → f (i + 1) ≡ (f i + d) % 256)
    → IsStepped d (f k) (tabulate f k n)
unfolding tabulate
IsStepped-tabulate f d k zero h = tt
IsStepped-tabulate f d k (suc n) h = (
  refl,
  subst (λ x. IsStepped d x (tabulate f (k + 1) n)) (h k) (IsStepped-tabulate f d (k + 1) n h),
)

ramp_steps : (s i : ℕ) → (s + (i + 1)) % 256 ≡ ((s + i) % 256 + 1) % 256
ramp_steps s i = omega arith

next_multiple : (i d : ℕ) → (i + 1) * d ≡ i * d + d
next_multiple i d = omega arith

delta_steps : (s d i : ℕ) → (s + (i + 1) * d) % 256 ≡ ((s + i * d) % 256 + d) % 256
delta_steps s d i =
    ap (λ t. (s + t) % 256) (next_multiple i d)
    ∙ ap (λ t. t % 256) (omega arith)
    ∙ sym (mod_step (s + i * d) d)

triangle_step : (k : ℕ) → k < 8 → get_or triangle_u8_offsets k 0 ≡ 32 * min k (8 - k)
triangle_step =
    below_eight (λ k. get_or triangle_u8_offsets k 0 ≡ 32 * min k (8 - k))
      (refl, refl, refl, refl, refl, refl, refl, refl)

generate-IsShaped : (b : Basis) (s d n : ℕ) → IsByte s → IsShaped b s d (generate b s n d)
unfolding generate sample
generate-IsShaped Basis.zero_block s d n h = All-constant 0 0 n
generate-IsShaped Basis.repeat_byte s d n h = All-constant s 0 n
generate-IsShaped Basis.dictionary_u8 s d n h = All-constant s 0 n
generate-IsShaped Basis.rle_u8 s d n h = All-constant s 0 n
generate-IsShaped Basis.delta_u8 s d n h =
    subst (λ x. IsStepped d x (generate Basis.delta_u8 s n d)) (omega arith)
      (IsStepped-tabulate (sample Basis.delta_u8 s d) d 0 n (delta_steps s d))
generate-IsShaped Basis.ramp_u8 s d n h =
    subst (λ x. IsStepped 1 x (generate Basis.ramp_u8 s n d)) (omega arith)
      (IsStepped-tabulate (sample Basis.ramp_u8 s d) 1 0 n (ramp_steps s))
generate-IsShaped Basis.triangle_u8 s d n h =
    IsEach-tabulate _ (sample Basis.triangle_u8 s d) 0 n
      (λ i. ap (λ t. (s + t) % 256) (triangle_step (i % 8) (omega arith)))
generate-IsShaped Basis.sine8_u8 s d n h =
    IsEach-tabulate _ (sample Basis.sine8_u8 s d) 0 n (sine_sample s d)
generate-IsShaped Basis.fourier8_u8 s d n h =
    IsEach-tabulate _ (sample Basis.fourier8_u8 s d) 0 n (fourier_sample s d)

-- For a supported basis and coefficients that are bytes, `synthesize_basis` returns exactly `n`
-- bytes of the shape of the basis, whatever `n` is: all 0, or all the start byte; from the start
-- byte, each byte 1 (ramp) or `delta` more than the one before, modulo 256; a triangle that climbs
-- and falls by 32 between the start byte and 128 above it; a sine wave of eight steps and the
-- amplitude 127 around the start byte; or the sum of the wave of the amplitude `delta` and that of
-- half of it two steps ahead, each rounded down.
pub synthesize-IsShaped :
    (b : Basis) (start n delta : ℕ)
    → IsByte start
    → IsByte delta
    → (out : List ℕ) × (synthesize_basis (some b) start n delta ≡ ok out)
      × (length out ≡ n)
      × All IsByte out
      × IsShaped b start delta out
synthesize-IsShaped b start n delta hs hd =
    let (out, e, l, a, _) = synthesize_shape b start n delta hs hd in
    let same : generate b start n delta ≡ out = outputs (synthesize_ok b start n delta hs hd) e in
    (out, e, l, a, subst (IsShaped b start delta) same (generate-IsShaped b start delta n hs))
  where
    outputs : {r : Result BasisError (List ℕ)} {x y : List ℕ} → r ≡ ok x → r ≡ ok y → x ≡ y
    outputs h k = cc
