-- ===== src/Bases/Waves.antt =====
-- bogvm/bases.py: the tables of offsets of the sine waves, described without them.
use bogbin.Common.{
  ℕ, zero, suc, ◌+◌, ◌*◌, ◌/◌, ◌%◌, ◌<◌, ◌≡◌, refl, sym, ap, subst, ◌∙◌, arith, ltb, ◌==◌, Bool,
  if◌then◌else◌, get_or,
}
use bogbin.Common.Int.{ℤ, pos, negsuc, ◌+ℤ◌, ◌*ℤ◌, floor_div, floor_mod, pos_part, neg_part, sub_ℕ}
use bogbin.Bases.{Basis, sample, sine8_u8_offsets, cosine8_u8_offsets}

-- A wave of eight steps: in the first four it stands above its middle, in the last four below.
abbrev pub is_above : ℕ → Bool
is_above i = ltb (i % 8) 4

-- Its distance from the middle.
abbrev pub swing : ℕ → ℕ
swing i = if (i % 4) == 0 then 0 else if (i % 4) == 2 then 127 else 90

-- How far the byte at an index is raised and lowered by a wave of the amplitude `a`, rounded down.
abbrev pub raised_by : ℕ → ℕ → ℕ
raised_by a i = if is_above i then a * swing i / 127 else 0

abbrev pub lowered_by : ℕ → ℕ → ℕ
lowered_by a i = if is_above i then 0 else (a * swing i + 126) / 127

-- A byte, from `start` raised by `up` and lowered by `down`, modulo 256.
abbrev pub IsMoved : ℕ → ℕ → ℕ → ℕ → Type 0
IsMoved start up down x = (x < 256) × ((x + down) % 256 ≡ (start + up) % 256)

-- An integer is the difference of two numbers.
abbrev IsDifference : ℤ → ℕ → ℕ → Type 0
IsDifference z up down = pos_part z + down ≡ up + neg_part z

floor_mod-IsDifference :
    (z : ℤ) (s up down : ℕ) → IsDifference z (s + up) down → IsMoved s up down (floor_mod z 256)
unfolding floor_mod
floor_mod-IsDifference (pos n) s up down h = (omega arith, omega arith)
floor_mod-IsDifference (negsuc n) s up down h = (omega arith, omega arith)

sub_ℕ-IsDifference : (a b : ℕ) → IsDifference (sub_ℕ a b) a b
sub_ℕ-IsDifference a b = ground arith

add-IsDifference :
    (y z : ℤ) (u d u' d' : ℕ)
    → IsDifference y u d
    → IsDifference z u' d'
    → IsDifference (y +ℤ z) (u + u') (d + d')
unfolding ◌+ℤ◌
add-IsDifference y z u d u' d' h k =
    omega (arith, sub_ℕ-IsDifference (pos_part y + pos_part z) (neg_part y + neg_part z))

div_up : (t : ℕ) → IsDifference (floor_div (sub_ℕ t 0) 127) (t / 127) 0
unfolding floor_div
div_up t = ground arith

div_down : (t : ℕ) → IsDifference (floor_div (sub_ℕ 0 t) 127) 0 ((t + 126) / 127)
unfolding floor_div
div_down t = ground arith

sub_ℕ-cong : (a b c d : ℕ) → a ≡ b → c ≡ d → sub_ℕ a c ≡ sub_ℕ b d
sub_ℕ-cong a b c d h k = cc

times_pos : (a m : ℕ) → pos a *ℤ pos m ≡ sub_ℕ (a * m) 0
unfolding ◌*ℤ◌
times_pos a m = sub_ℕ-cong _ _ _ _ (omega arith) (omega arith)

times_neg : (a m : ℕ) → pos a *ℤ negsuc m ≡ sub_ℕ 0 (a * suc m)
unfolding ◌*ℤ◌
times_neg a m = sub_ℕ-cong _ _ _ _ (omega arith) (omega arith)

pub below_eight :
    (P : ℕ → Type 0) → P 0 × P 1 × P 2 × P 3 × P 4 × P 5 × P 6 × P 7 → (k : ℕ) → k < 8 → P k
below_eight P (p0, p1, p2, p3, p4, p5, p6, p7) zero h = p0
below_eight P (p0, p1, p2, p3, p4, p5, p6, p7) (suc zero) h = p1
below_eight P (p0, p1, p2, p3, p4, p5, p6, p7) (suc (suc zero)) h = p2
below_eight P (p0, p1, p2, p3, p4, p5, p6, p7) (suc (suc (suc zero))) h = p3
below_eight P (p0, p1, p2, p3, p4, p5, p6, p7) (suc (suc (suc (suc zero)))) h = p4
below_eight P (p0, p1, p2, p3, p4, p5, p6, p7) (suc (suc (suc (suc (suc zero))))) h = p5
below_eight P (p0, p1, p2, p3, p4, p5, p6, p7) (suc (suc (suc (suc (suc (suc zero)))))) h = p6
below_eight P (p0, p1, p2, p3, p4, p5, p6, p7) (suc (suc (suc (suc (suc (suc (suc zero))))))) h = p7
below_eight P p (suc (suc (suc (suc (suc (suc (suc (suc k)))))))) h = absurd (omega arith)

abbrev sine_at : ℕ → ℤ
sine_at k = get_or sine8_u8_offsets k (pos 0)

abbrev cosine_at : ℕ → ℤ
cosine_at k = get_or cosine8_u8_offsets k (pos 0)

times_zero : (a : ℕ) → pos a *ℤ pos 0 ≡ pos 0
times_zero a = times_pos a 0 ∙ sub_ℕ-cong _ 0 _ 0 (omega arith) refl

zero_step : (a : ℕ) → IsDifference (floor_div (pos a *ℤ pos 0) 127) 0 ((a * 0 + 126) / 127)
zero_step a =
    subst (λ z. IsDifference (floor_div z 127) 0 ((a * 0 + 126) / 127)) (sym (times_zero a))
      (unfold floor_div in omega arith)

up_step : (a m : ℕ) → IsDifference (floor_div (pos a *ℤ pos m) 127) (a * m / 127) 0
up_step a m =
    subst (λ z. IsDifference (floor_div z 127) (a * m / 127) 0) (sym (times_pos a m))
      (div_up (a * m))

down_step : (a m : ℕ) → IsDifference (floor_div (pos a *ℤ negsuc m) 127) 0 ((a * suc m + 126) / 127)
down_step a m =
    subst (λ z. IsDifference (floor_div z 127) 0 ((a * suc m + 126) / 127)) (sym (times_neg a m))
      (div_down (a * suc m))

-- The eight steps of the sine wave.
wave_step :
    (a k : ℕ)
    → k < 8
    → IsDifference (floor_div (pos a *ℤ sine_at k) 127) (raised_by a k) (lowered_by a k)
wave_step a =
    below_eight
      (λ k. IsDifference (floor_div (pos a *ℤ sine_at k) 127) (raised_by a k) (lowered_by a k))
      (
        up_step a 0,
        up_step a 90,
        up_step a 127,
        up_step a 90,
        zero_step a,
        down_step a 89,
        down_step a 126,
        down_step a 89,
      )

sine_step : (k : ℕ) → k < 8 → IsDifference (sine_at k) (raised_by 127 k) (lowered_by 127 k)
sine_step =
    below_eight (λ k. IsDifference (sine_at k) (raised_by 127 k) (lowered_by 127 k))
      (refl, refl, refl, refl, refl, refl, refl, refl)

cosine_ahead : (k : ℕ) → k < 8 → cosine_at k ≡ sine_at ((k + 2) % 8)
cosine_ahead =
    below_eight (λ k. cosine_at k ≡ sine_at ((k + 2) % 8))
      (refl, refl, refl, refl, refl, refl, refl, refl)

raised_by-period : (a i : ℕ) → raised_by a (i % 8) ≡ raised_by a i
raised_by-period a i =
    let p : i % 8 % 8 ≡ i % 8 = omega arith in let q : i % 8 % 4 ≡ i % 4 = omega arith in rw (p, q)

lowered_by-period : (a i : ℕ) → lowered_by a (i % 8) ≡ lowered_by a i
lowered_by-period a i =
    let p : i % 8 % 8 ≡ i % 8 = omega arith in let q : i % 8 % 4 ≡ i % 4 = omega arith in rw (p, q)

wave_at :
    (a i : ℕ)
    → IsDifference (floor_div (pos a *ℤ sine_at (i % 8)) 127) (raised_by a i) (lowered_by a i)
wave_at a i =
    rw (← raised_by-period a i, ← lowered_by-period a i) (wave_step a (i % 8) (omega arith))

cosine_wave_at :
    (a i : ℕ)
    → IsDifference
        (floor_div (pos a *ℤ cosine_at (i % 8)) 127)
        (raised_by a (i + 2))
        (lowered_by a (i + 2))
cosine_wave_at a i =
    let p : (i % 8 + 2) % 8 ≡ (i + 2) % 8 = omega arith in
    subst
      (λ z. IsDifference (floor_div (pos a *ℤ z) 127) (raised_by a (i + 2)) (lowered_by a (i + 2)))
      (sym (cosine_ahead (i % 8) (omega arith) ∙ ap sine_at p)) (wave_at a (i + 2))

start-add :
    (s : ℕ) (z : ℤ) (up down : ℕ) → IsDifference z up down → IsDifference (pos s +ℤ z) (s + up) down
start-add s z up down h = omega (arith, add-IsDifference (pos s) z s 0 up down (omega arith) h)

both-add :
    (s : ℕ) (y z : ℤ) (u d u' d' : ℕ)
    → IsDifference y u d
    → IsDifference z u' d'
    → IsDifference (pos s +ℤ y +ℤ z) (s + (u + u')) (d + d')
both-add s y z u d u' d' h k =
    omega (arith, add-IsDifference (pos s +ℤ y) z (s + u) d u' d' (start-add s y u d h) k)

pub sine_sample :
    (s d i : ℕ) → IsMoved s (raised_by 127 i) (lowered_by 127 i) (sample Basis.sine8_u8 s d i)
unfolding sample
sine_sample s d i =
    floor_mod-IsDifference (pos s +ℤ sine_at (i % 8)) s (raised_by 127 i) (lowered_by 127 i) (
      start-add s (sine_at (i % 8)) (raised_by 127 i) (lowered_by 127 i) (
        rw (← raised_by-period 127 i, ← lowered_by-period 127 i) (sine_step (i % 8) (omega arith))))

pub fourier_sample :
    (s d i : ℕ)
    → IsMoved s
        (raised_by d i + raised_by (d / 2) (i + 2))
        (lowered_by d i + lowered_by (d / 2) (i + 2))
        (sample Basis.fourier8_u8 s d i)
unfolding sample
fourier_sample s d i =
    floor_mod-IsDifference _ s _ _ (both-add s _ _ _ _ _ _ (wave_at d i) (cosine_wave_at (d / 2) i))
