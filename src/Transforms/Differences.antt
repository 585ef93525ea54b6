-- ===== src/Transforms/Differences.antt =====
-- bogvm/transforms.py: the transforms that store each byte against the one before it, and the
-- exchange of the two digits of each byte.
use bogbin.Common.{
  ℕ, suc, ◌+◌, ◌-◌, ◌*◌, ◌/◌, ◌%◌, bit_and, bit_or, bit_xor, List, [], ◌∷◌, map, length, ◌≡◌, refl,
  ap, ap₂, ◌∙◌, arith, All,
}
use bogbin.Common.Bits.{IsByte, xor_cancel, bit_xor_lt, nibbles}

-- The two loops of `xor_previous`; the first argument is `data[index - 1]` or `out[index - 1]`.
unfoldable pub xor_from : ℕ → List ℕ → List ℕ
xor_from previous [] = []
xor_from previous (x ∷ xs) = bit_xor x previous ∷ xor_from x xs

unfoldable pub unxor_from : ℕ → List ℕ → List ℕ
unxor_from previous [] = []
unxor_from previous (x ∷ xs) = bit_xor x previous ∷ unxor_from (bit_xor x previous) xs

unfoldable pub xor_encode : List ℕ → List ℕ
unfolding xor_from
xor_encode [] = []
xor_encode (x ∷ xs) = x ∷ xor_from x xs

unfoldable pub xor_decode : List ℕ → List ℕ
unfolding unxor_from
xor_decode [] = []
xor_decode (x ∷ xs) = x ∷ unxor_from x xs

-- `(data[index] - data[index - 1]) % 256`: of two bytes the difference is above -256.
unfoldable pub delta_from : ℕ → List ℕ → List ℕ
delta_from previous [] = []
delta_from previous (x ∷ xs) = (x + 256 - previous) % 256 ∷ delta_from x xs

unfoldable pub undelta_from : ℕ → List ℕ → List ℕ
undelta_from previous [] = []
undelta_from previous (x ∷ xs) = (previous + x) % 256 ∷ undelta_from ((previous + x) % 256) xs

unfoldable pub delta_encode : List ℕ → List ℕ
unfolding delta_from
delta_encode [] = []
delta_encode (x ∷ xs) = x ∷ delta_from x xs

unfoldable pub delta_decode : List ℕ → List ℕ
unfolding undelta_from
delta_decode [] = []
delta_decode (x ∷ xs) = x ∷ undelta_from x xs

-- `((value & 0x0F) << 4) | (value >> 4)`
unfoldable pub swap_nibbles : ℕ → ℕ
swap_nibbles value = bit_or (bit_and value 15 * 16) (value / 16)

unxor_from-xor_from : (p : ℕ) (xs : List ℕ) → unxor_from p (xor_from p xs) ≡ xs
unfolding unxor_from xor_from
unxor_from-xor_from p [] = refl
unxor_from-xor_from p (x ∷ xs) = rw xor_cancel (ap (λ l. x ∷ l) (unxor_from-xor_from x xs))

pub xor_decode-xor_encode : (xs : List ℕ) → xor_decode (xor_encode xs) ≡ xs
unfolding xor_encode xor_decode
xor_decode-xor_encode [] = refl
xor_decode-xor_encode (x ∷ xs) = ap (λ l. x ∷ l) (unxor_from-xor_from x xs)

All-xor_from : (p : ℕ) (xs : List ℕ) → IsByte p → All IsByte xs → All IsByte (xor_from p xs)
unfolding xor_from
All-xor_from p [] hp h = tt
All-xor_from p (x ∷ xs) hp h = (bit_xor_lt 8 x p h.0 hp, All-xor_from x xs h.0 h.1)

pub All-xor_encode : (xs : List ℕ) → All IsByte xs → All IsByte (xor_encode xs)
unfolding xor_encode
All-xor_encode [] h = tt
All-xor_encode (x ∷ xs) h = (h.0, All-xor_from x xs h.0 h.1)

delta_step : (x p : ℕ) → IsByte x → IsByte p → (p + (x + 256 - p) % 256) % 256 ≡ x
delta_step x p hx hp = omega arith

undelta_from-delta_from :
    (p : ℕ) (xs : List ℕ) → IsByte p → All IsByte xs → undelta_from p (delta_from p xs) ≡ xs
unfolding undelta_from delta_from
undelta_from-delta_from p [] hp h = refl
undelta_from-delta_from p (x ∷ xs) hp h =
    rw (delta_step x p h.0 hp) (ap (λ l. x ∷ l) (undelta_from-delta_from x xs h.0 h.1))

pub delta_decode-delta_encode : (xs : List ℕ) → All IsByte xs → delta_decode (delta_encode xs) ≡ xs
unfolding delta_encode delta_decode
delta_decode-delta_encode [] h = refl
delta_decode-delta_encode (x ∷ xs) h = ap (λ l. x ∷ l) (undelta_from-delta_from x xs h.0 h.1)

All-delta_from : (p : ℕ) (xs : List ℕ) → All IsByte (delta_from p xs)
unfolding delta_from
All-delta_from p [] = tt
All-delta_from p (x ∷ xs) = (omega arith, All-delta_from x xs)

pub All-delta_encode : (xs : List ℕ) → All IsByte xs → All IsByte (delta_encode xs)
unfolding delta_encode
All-delta_encode [] h = tt
All-delta_encode (x ∷ xs) h = (h.0, All-delta_from x xs)

swap_nibbles-IsByte : (x : ℕ) → IsByte x → IsByte (swap_nibbles x)
unfolding swap_nibbles
swap_nibbles-IsByte x h = omega (arith, nibbles x h)

swap_nibbles_twice : (x : ℕ) → IsByte x → swap_nibbles (swap_nibbles x) ≡ x
swap_nibbles_twice x h = outer ∙ arithmetic
  where
    once : (y : ℕ) → IsByte y → swap_nibbles y ≡ y % 16 * 16 + y / 16
    once y hy = unfold swap_nibbles in nibbles y hy

    outer : swap_nibbles (swap_nibbles x) ≡ swap_nibbles x % 16 * 16 + swap_nibbles x / 16
    outer = once (swap_nibbles x) (swap_nibbles-IsByte x h)

    arithmetic : swap_nibbles x % 16 * 16 + swap_nibbles x / 16 ≡ x
    arithmetic = omega (arith, once x h)

pub swap-All_twice : (xs : List ℕ) → All IsByte xs → map swap_nibbles (map swap_nibbles xs) ≡ xs
swap-All_twice [] h = refl
swap-All_twice (x ∷ xs) h = ap₂ (λ y ys. y ∷ ys) (swap_nibbles_twice x h.0) (swap-All_twice xs h.1)

pub All-swap_nibbles : (xs : List ℕ) → All IsByte xs → All IsByte (map swap_nibbles xs)
All-swap_nibbles [] h = tt
All-swap_nibbles (x ∷ xs) h = (swap_nibbles-IsByte x h.0, All-swap_nibbles xs h.1)

length-xor_from : (p : ℕ) (xs : List ℕ) → length (xor_from p xs) ≡ length xs
unfolding xor_from
length-xor_from p [] = refl
length-xor_from p (x ∷ xs) = ap suc (length-xor_from x xs)

pub length-xor_encode : (xs : List ℕ) → length (xor_encode xs) ≡ length xs
unfolding xor_encode
length-xor_encode [] = refl
length-xor_encode (x ∷ xs) = ap suc (length-xor_from x xs)

length-delta_from : (p : ℕ) (xs : List ℕ) → length (delta_from p xs) ≡ length xs
unfolding delta_from
length-delta_from p [] = refl
length-delta_from p (x ∷ xs) = ap suc (length-delta_from x xs)

pub length-delta_encode : (xs : List ℕ) → length (delta_encode xs) ≡ length xs
unfolding delta_encode
length-delta_encode [] = refl
length-delta_encode (x ∷ xs) = ap suc (length-delta_from x xs)
