-- ===== src/Transforms/Runs.antt =====
-- Transforms on examples.
use bogbin.Common.{◌≡◌, refl, List, [], ◌∷◌, ℕ, All, arith, ok, some, length}
use bogbin.Common.Bits.{IsByte}
use bogbin.Transforms.{apply_transform_with_param, invert_transform}
use bogbin.Transforms.Names.{bwt_mtf}
use bogbin.Transforms.RoundTrip.{invert-apply}
use bogbin.Transforms.MoveToFront.{mtf_encode, mtf_decode, mtf_decode-mtf_encode}
use bogbin.Transforms.BurrowsWheeler.{
  bwt_encode, bwt_decode, sorted_rotations, rank_of_zero, last_byte, bwt_table,
}
use bogbin.Transforms.BurrowsWheeler.Table.{bwt_decode-bwt_encode}

abbrev banana : List ℕ
banana = 98 ∷ 97 ∷ 110 ∷ 97 ∷ 110 ∷ 97 ∷ []

bwt_banana : bwt_encode banana ≡ ok (110 ∷ 110 ∷ 98 ∷ 97 ∷ 97 ∷ 97 ∷ [], 3)
unfolding bwt_encode sorted_rotations rank_of_zero last_byte
bwt_banana = refl

unbwt_banana : bwt_decode (110 ∷ 110 ∷ 98 ∷ 97 ∷ 97 ∷ 97 ∷ []) 3 ≡ ok banana
unfolding bwt_decode bwt_table
unbwt_banana = refl

mtf_bab : mtf_encode (98 ∷ 97 ∷ 98 ∷ []) ≡ ok (98 ∷ 98 ∷ 1 ∷ [])
unfolding mtf_encode
mtf_bab = refl

banana_are_bytes : All IsByte banana
banana_are_bytes = omega arith

invert-apply_example :
    (out : List ℕ) × (param : ℕ) × (apply_transform_with_param (some bwt_mtf) banana
      ≡ ok (out, param))
    × All IsByte out
    × (length out ≡ length banana)
    × (invert_transform (some bwt_mtf) out param ≡ ok banana)
invert-apply_example = invert-apply bwt_mtf banana banana_are_bytes

mtf_decode-mtf_encode_example :
    (out : List ℕ) × (mtf_encode banana ≡ ok out)
    × All IsByte out
    × (length out ≡ length banana)
    × (mtf_decode out ≡ ok banana)
mtf_decode-mtf_encode_example = mtf_decode-mtf_encode banana banana_are_bytes

bwt_decode-bwt_encode_example :
    (out : List ℕ) × (p : ℕ) × (bwt_encode banana ≡ ok (out, p))
    × (length out ≡ length banana)
    × (All IsByte banana → All IsByte out)
    × (bwt_decode out p ≡ ok banana)
bwt_decode-bwt_encode_example = bwt_decode-bwt_encode banana
