-- ===== src/Container/Masks.antt =====
-- bogvm/container.py: the mask of `_append_bitmask_residuals`.
use bogbin.Common.{
  ℕ, zero, suc, ◌/◌, ◌%◌, ◌^◌, ◌<◌, bit_and, bit_or, Bool, true, false, ◌||◌, some, List, [], ◌∷◌,
  map, length, length-set, get_elem?, get_or, set, replicate, All, ◌==◌, ==_iff, if◌then◌else◌,
  Bool-cases, inl, inr, ok, ◌≡◌, refl, sym, ap, ap₂, ◌∙◌, arith,
}
use bogbin.Common.Bits.{IsByte}
use Prim.Native.Nat.{bit_and-bitwise}
use bogbin.Common.Marks.{has_bit, has_bit-set, set_bit-IsByte}
use bogbin.Common.Dict.{Dict}
use bogbin.Residual.{Residual}
use bogbin.Container.Bitmask.{mark, mark_all, is_marked}

abbrev pub offsets_of : List Residual → List ℕ
offsets_of ps = map (λ p. p.offset) ps

abbrev pub entries_of : List Residual → Dict ℕ
entries_of ps = map (λ p. (p.offset, p.byte)) ps

abbrev pub is_in : ℕ → List ℕ → Bool
is_in x [] = false
is_in x (y ∷ ys) = x == y || is_in x ys

get_or-set :
    (xs : List ℕ) (i j v : ℕ)
    → i < length xs
    → get_or (set xs i v) j 0 ≡ (if j == i then v else get_or xs j 0)
get_or-set [] i j v h = absurd (omega arith)
get_or-set (x ∷ xs) zero zero v h = refl
get_or-set (x ∷ xs) zero (suc j) v h = ground arith
get_or-set (x ∷ xs) (suc i) zero v h = ground arith
get_or-set (x ∷ xs) (suc i) (suc j) v h = ground (arith, get_or-set xs i j v)

pub get_or-IsByte : (xs : List ℕ) (i : ℕ) → All IsByte xs → IsByte (get_or xs i 0)
get_or-IsByte [] i h = omega arith
get_or-IsByte (x ∷ xs) zero h = h.0
get_or-IsByte (x ∷ xs) (suc i) h = get_or-IsByte xs i h.1

set-IsByte : (xs : List ℕ) (i v : ℕ) → All IsByte xs → IsByte v → All IsByte (set xs i v)
set-IsByte [] i v h k = tt
set-IsByte (x ∷ xs) zero v h k = (k, h.1)
set-IsByte (x ∷ xs) (suc i) v h k = (h.0, set-IsByte xs i v h.1 k)

get_elem?-get_or : (xs : List ℕ) (i : ℕ) → i < length xs → get_elem? xs i ≡ some (get_or xs i 0)
get_elem?-get_or [] i h = absurd (omega arith)
get_elem?-get_or (x ∷ xs) zero h = refl
get_elem?-get_or (x ∷ xs) (suc i) h = get_elem?-get_or xs i (omega arith)

or_if : (a b : Bool) → (if a then true else b) ≡ (a || b)
or_if true b = refl
or_if false b = refl

-- A mark is set, and the others are kept.
mark_lem :
    (mask : List ℕ) (o : ℕ)
    → All IsByte mask
    → o / 8 < length mask
    → (out : List ℕ) × (mark mask o ≡ ok out)
      × (length out ≡ length mask)
      × All IsByte out
      × ((p : ℕ) → is_marked out p ≡ (p == o || is_marked mask p))
unfolding mark
mark_lem mask o b h =
    let old : ℕ = get_or mask (o / 8) 0 in
    let new : ℕ = bit_or old (2 ^ (o % 8)) in
    (
      set mask (o / 8) new,
      rw (get_elem?-get_or mask (o / 8) h) refl,
      length-set mask (o / 8) new,
      set-IsByte mask (o / 8) new b
          (set_bit-IsByte old (o % 8) (get_or-IsByte mask (o / 8) b) (omega arith)),
      marked,
    )
  where
    marked :
        (p : ℕ)
        → is_marked (set mask (o / 8) (bit_or (get_or mask (o / 8) 0) (2 ^ (o % 8)))) p
          ≡ (p == o || is_marked mask p)
    marked p =
        let old : ℕ = get_or mask (o / 8) 0 in
        let g = get_or-set mask (o / 8) (p / 8) (bit_or old (2 ^ (o % 8))) h in
        let s =
          has_bit-set old (o % 8) (p % 8) (get_or-IsByte mask (o / 8) b) (omega arith)
            (omega arith) in
        elim (Bool-cases (p / 8 == o / 8)) [
          | inl here ↦
              let place : p / 8 ≡ o / 8 = (==_iff _ _).0 here in
              let both : (p % 8 == o % 8) ≡ (p == o) = ground arith in
              let before : get_or mask (p / 8) 0 ≡ old = ap (λ i. get_or mask i 0) place in
              let g' : get_or (set mask (o / 8) (bit_or old (2 ^ (o % 8)))) (p / 8) 0
                  ≡ bit_or old (2 ^ (o % 8)) =
                g ∙ rw here refl in
              ap (λ x. has_bit x (p % 8)) g'
              ∙ s
              ∙ ap₂ (λ t x. if t then true else has_bit x (p % 8)) both (sym before)
              ∙ or_if (p == o) (is_marked mask p)
          | inr elsewhere ↦
              let other : (p == o) ≡ false = ground arith in
              let g' : get_or (set mask (o / 8) (bit_or old (2 ^ (o % 8)))) (p / 8) 0
                  ≡ get_or mask (p / 8) 0 =
                g ∙ rw elsewhere refl in
              rw other (ap (λ x. has_bit x (p % 8)) g')
        ]

pub mark_all_lem :
    (os mask : List ℕ)
    → All IsByte mask
    → All (λ o. o / 8 < length mask) os
    → (out : List ℕ) × (mark_all os mask ≡ ok out)
      × (length out ≡ length mask)
      × All IsByte out
      × ((p : ℕ) → is_marked out p ≡ (is_in p os || is_marked mask p))
unfolding mark_all
mark_all_lem [] mask b h = (mask, refl, refl, b, λ p. refl)
mark_all_lem (o ∷ os) mask b (h, hs) =
    let (m, e, l, c, f) = mark_lem mask o b h in
    let (out, e', l', c', f') = mark_all_lem os m c (inside os hs (sym l)) in
    (out, rw e e', l' ∙ l, c', λ p. f' p ∙ swap p (is_in p os) (p == o) (is_marked mask p) (f p))
  where
    inside : (os : List ℕ) {m k : ℕ} → All (λ o. o / 8 < m) os → m ≡ k → All (λ o. o / 8 < k) os
    inside [] h e = tt
    inside (o ∷ os) h e = (omega (arith, h.0), inside os h.1 e)

    swap : (p : ℕ) (a b c : Bool) {d : Bool} → d ≡ (b || c) → (a || d) ≡ ((b || a) || c)
    swap p true true c e = refl
    swap p true false c e = refl
    swap p false true c e = e
    swap p false false c e = e

-- `bytearray(k)`
abbrev pub zero_bytes : ℕ → List ℕ
zero_bytes k = replicate k 0

zero-bit_and : (b : ℕ) → bit_and 0 b ≡ 0
zero-bit_and b = bit_and-bitwise 0 b

get_or-replicate : (k i : ℕ) → get_or (zero_bytes k) i 0 ≡ zero
get_or-replicate zero i = refl
get_or-replicate (suc k) zero = refl
get_or-replicate (suc k) (suc i) = get_or-replicate k i

-- No offset is marked in the mask that the code starts with.
pub none_marked : (k x : ℕ) → is_marked (zero_bytes k) x ≡ false
none_marked k x =
    ap (λ b. has_bit b (x % 8)) (get_or-replicate k (x / 8)) ∙ rw (zero-bit_and (2 ^ (x % 8))) refl

pub replicate-IsByte : (k : ℕ) → All IsByte (zero_bytes k)
replicate-IsByte zero = tt
replicate-IsByte (suc k) = (omega arith, replicate-IsByte k)
