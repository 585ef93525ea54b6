-- ===== src/Transforms.antt =====
-- bogvm/transforms.py: the reversible byte transforms by name. A name that is not in TRANSFORM_ORDER
-- is `none`. A byte string is a list of numbers below 256.
pub mod Names
pub mod Differences
pub mod MoveToFront
pub mod BurrowsWheeler
pub mod RoundTrip
pub mod Parameter
mod Runs
use bogbin.Common.{
  ℕ, zero, suc, ◌+◌, ◌-◌, ◌*◌, ◌/◌, ◌%◌, bit_and, bit_or, bit_xor, Bool, true, false, ◌&&◌, ◌||◌,
  Option, none, some, List, [], ◌∷◌, ◌++◌, map, ltb, leb, ◌==◌, if◌then◌else◌, length, get_elem?,
  take, drop, replicate, Result, ok, err, ◌>>=◌, ◌>>◌, guard, ◌≡◌, refl, ap, sym, ap₂, ◌∙◌, ◌≢◌,
  inl, inr, arith, All, ◌<◌, ◌≤◌, length-append, length-map, Bool-cases,
}
use bogbin.Transforms.Names.{
  Transform, identity, xor_previous, delta_previous, nibble_split, mtf, bwt, bwt_mtf,
  TransformError, unsupported_transform,
}
use bogbin.Transforms.Differences.{xor_encode, xor_decode, delta_encode, delta_decode, swap_nibbles}
use bogbin.Transforms.MoveToFront.{mtf_encode, mtf_decode}
use bogbin.Transforms.BurrowsWheeler.{bwt_encode, bwt_decode}

unfoldable pub apply_transform_with_param :
    Option Transform → List ℕ → Result TransformError (List ℕ × ℕ)
unfolding xor_encode delta_encode swap_nibbles mtf_encode bwt_encode
apply_transform_with_param none bytes = err unsupported_transform
apply_transform_with_param (some identity) bytes = ok (bytes, 0)
apply_transform_with_param (some xor_previous) bytes = ok (xor_encode bytes, 0)
apply_transform_with_param (some delta_previous) bytes = ok (delta_encode bytes, 0)
apply_transform_with_param (some nibble_split) bytes = ok (map swap_nibbles bytes, 0)
apply_transform_with_param (some mtf) bytes = do encoded ← mtf_encode bytes; ok (encoded, 0)
apply_transform_with_param (some bwt) bytes = bwt_encode bytes
apply_transform_with_param (some bwt_mtf) bytes = do
  (bwt_data, primary_index) ← bwt_encode bytes
  encoded ← mtf_encode bwt_data
  ok (encoded, primary_index)

unfoldable pub apply_transform : Option Transform → List ℕ → Result TransformError (List ℕ)
unfolding apply_transform_with_param
apply_transform name bytes = do
  (transformed, _) ← apply_transform_with_param name bytes
  ok transformed

unfoldable pub invert_transform : Option Transform → List ℕ → ℕ → Result TransformError (List ℕ)
unfolding xor_decode delta_decode swap_nibbles mtf_decode bwt_decode
invert_transform none bytes param = err unsupported_transform
invert_transform (some identity) bytes param = ok bytes
invert_transform (some xor_previous) bytes param = ok (xor_decode bytes)
invert_transform (some delta_previous) bytes param = ok (delta_decode bytes)
invert_transform (some nibble_split) bytes param = ok (map swap_nibbles bytes)
invert_transform (some mtf) bytes param = mtf_decode bytes
invert_transform (some bwt) bytes param = bwt_decode bytes param
invert_transform (some bwt_mtf) bytes param = do
  decoded ← mtf_decode bytes
  bwt_decode decoded param
