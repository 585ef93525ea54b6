-- ===== src/Transforms/RoundTrip.antt =====
-- bogvm/transforms.py: `apply_transform_with_param` and `invert_transform`, one after the other.
use bogbin.Common.{ℕ, List, map, length, length-map, All, ◌≡◌, refl, ap, some, ok, ◌∙◌}
use bogbin.Common.Bits.{IsByte}
use bogbin.Transforms.{apply_transform_with_param, invert_transform}
use bogbin.Transforms.Names.{
  Transform, identity, xor_previous, delta_previous, nibble_split, mtf, bwt, bwt_mtf,
}
use bogbin.Transforms.Differences.{
  swap_nibbles, xor_encode, delta_encode, xor_decode-xor_encode, All-xor_encode,
  delta_decode-delta_encode, All-delta_encode, swap-All_twice, All-swap_nibbles, length-xor_encode,
  length-delta_encode,
}
use bogbin.Transforms.MoveToFront.{mtf_decode-mtf_encode}
use bogbin.Transforms.BurrowsWheeler.Table.{bwt_decode-bwt_encode}

-- For every supported transform and byte string the transform returns as many bytes and a
-- parameter, and inverting these by the same name gives the byte string back.
pub invert-apply :
    (t : Transform) (xs : List ℕ)
    → All IsByte xs
    → (out : List ℕ) × (param : ℕ) × (apply_transform_with_param (some t) xs ≡ ok (out, param))
      × All IsByte out
      × (length out ≡ length xs)
      × (invert_transform (some t) out param ≡ ok xs)
unfolding apply_transform_with_param invert_transform
invert-apply identity xs h = (xs, 0, refl, h, refl, refl)
invert-apply xor_previous xs h = (
  xor_encode xs,
  0,
  refl,
  All-xor_encode xs h,
  length-xor_encode xs,
  ap ok (xor_decode-xor_encode xs),
)
invert-apply delta_previous xs h = (
  delta_encode xs,
  0,
  refl,
  All-delta_encode xs h,
  length-delta_encode xs,
  ap ok (delta_decode-delta_encode xs h),
)
invert-apply nibble_split xs h = (
  map swap_nibbles xs,
  0,
  refl,
  All-swap_nibbles xs h,
  length-map swap_nibbles xs,
  ap ok (swap-All_twice xs h),
)
invert-apply mtf xs h =
    let (out, e, b, n, d) = mtf_decode-mtf_encode xs h in (out, 0, rw e, b, n, d)
invert-apply bwt xs h =
    let (out, p, e, n, b, d) = bwt_decode-bwt_encode xs in (out, p, e, b h, n, d)
invert-apply bwt_mtf xs h =
    let (mid, p, e, n, b, d) = bwt_decode-bwt_encode xs in
    let (out, e', b', n', d') = mtf_decode-mtf_encode mid (b h) in
    (out, p, rw e (rw e'), b', n' ∙ n, rw d' d)
