-- ===== src/Bases/Shape.antt =====
-- bogvm/bases.py: what `synthesize_basis` returns and raises.
use bogbin.Common.{
  ℕ, zero, suc, ◌+◌, ◌≤◌, ◌<◌, ◌≡◌, refl, ap, subst, ◌∙◌, ◌≢◌, ◌↔◌, ◌⊎◌, Option, none, some, List,
  All, arith, length, get_elem?, ok, err, Result,
}
use bogbin.Common.Bits.{IsByte}
use bogbin.Common.Int.{floor_mod-lt}
use bogbin.Bases.{
  Basis, BasisError, unsupported_basis, start_byte_range, delta_range, tabulate, sample, generate,
  synthesize_basis,
}

length-tabulate : (f : ℕ → ℕ) (k n : ℕ) → length (tabulate f k n) ≡ n
unfolding tabulate
length-tabulate f k zero = refl
length-tabulate f k (suc n) = ap suc (length-tabulate f (k + 1) n)

All-tabulate : (f : ℕ → ℕ) (k n : ℕ) → ((i : ℕ) → IsByte (f i)) → All IsByte (tabulate f k n)
unfolding tabulate
All-tabulate f k zero h = tt
All-tabulate f k (suc n) h = (h k, All-tabulate f (k + 1) n h)

get_elem?-tabulate :
    (f : ℕ → ℕ) (k n i : ℕ) → i < n → get_elem? (tabulate f k n) i ≡ some (f (k + i))
unfolding tabulate
get_elem?-tabulate f k zero i h = absurd (omega arith)
get_elem?-tabulate f k (suc n) zero h = ap (λ j. some (f j)) (omega arith)
get_elem?-tabulate f k (suc n) (suc i) h =
    get_elem?-tabulate f (k + 1) n i (omega arith) ∙ ap (λ j. some (f j)) (omega arith)

sample-IsByte : (b : Basis) (start delta i : ℕ) → IsByte start → IsByte (sample b start delta i)
sample-IsByte Basis.zero_block start delta i h = unfold sample in omega arith
sample-IsByte Basis.delta_u8 start delta i h = unfold sample in omega arith
sample-IsByte Basis.ramp_u8 start delta i h = unfold sample in omega arith
sample-IsByte Basis.triangle_u8 start delta i h = unfold sample in omega arith
sample-IsByte Basis.sine8_u8 start delta i h = unfold sample in floor_mod-lt _
sample-IsByte Basis.fourier8_u8 start delta i h = unfold sample in floor_mod-lt _
sample-IsByte _ start delta i h = unfold sample in h

pub synthesize_ok :
    (b : Basis) (start n delta : ℕ)
    → IsByte start
    → IsByte delta
    → synthesize_basis (some b) start n delta ≡ ok (generate b start n delta)
unfolding synthesize_basis
synthesize_ok b start n delta hs hd = ground arith

-- For a supported basis and coefficients that are bytes, exactly `n` bytes are generated, and the
-- one at index `i` is the sample of the basis at `i`, whatever `n` is.
pub synthesize_shape :
    (b : Basis) (start n delta : ℕ)
    → IsByte start
    → IsByte delta
    → (out : List ℕ) × (synthesize_basis (some b) start n delta ≡ ok out)
      × (length out ≡ n)
      × All IsByte out
      × ((i : ℕ) → i < n → get_elem? out i ≡ some (sample b start delta i))
synthesize_shape b start n delta hs hd = (
  generate b start n delta,
  synthesize_ok b start n delta hs hd,
  unfold generate in length-tabulate _ 0 n,
  unfold generate in All-tabulate _ 0 n (λ i. sample-IsByte b start delta i hs),
  λ i h.
      unfold generate in
      get_elem?-tabulate _ 0 n i h ∙ ap (λ j. some (sample b start delta j)) (omega arith),
)

-- An error is raised exactly for an unsupported basis, a start byte or a delta above 255, and it is
-- the first of these that holds.
pub synthesize_error :
    (basis : Option Basis) (start n delta : ℕ) (e : BasisError)
    → (synthesize_basis basis start n delta ≡ err e) ↔ (
        ((basis ≡ none) × (e ≡ unsupported_basis))
        ⊎ ((basis ≢ none) × (256 ≤ start) × (e ≡ start_byte_range))
        ⊎ ((basis ≢ none) × (start < 256) × (256 ≤ delta) × (e ≡ delta_range)))
unfolding synthesize_basis
synthesize_error none start n delta e = (λ h. ground arith, λ h. ground arith)
synthesize_error (some b) start n delta e = (λ h. ground arith, λ h. ground arith)

synthesize_ranges :
    (b : Basis) (start n delta : ℕ) (out : List ℕ)
    → synthesize_basis (some b) start n delta ≡ ok out
    → IsByte start × IsByte delta
unfolding synthesize_basis
synthesize_ranges b start n delta out e = ground arith

-- What generates has coefficients in range, and as many bytes as are asked for.
pub synthesize_inverse :
    (b : Basis) (start n delta : ℕ) (out : List ℕ)
    → synthesize_basis (some b) start n delta ≡ ok out
    → IsByte start × IsByte delta × (length out ≡ n) × All IsByte out
synthesize_inverse b start n delta out e =
    let (hs, hd) = ranges e in
    let (out', e', l, a, _) = synthesize_shape b start n delta hs hd in
    let same : out' ≡ out = outputs e' e in
    (hs, hd, subst (λ x. length x ≡ n) same l, subst (All IsByte) same a)
  where
    ranges : synthesize_basis (some b) start n delta ≡ ok out → IsByte start × IsByte delta
    ranges h = synthesize_ranges b start n delta out h

    outputs : {r : Result BasisError (List ℕ)} {x y : List ℕ} → r ≡ ok x → r ≡ ok y → x ≡ y
    outputs h k = cc
