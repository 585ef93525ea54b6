-- ===== src/Transforms/Parameter.antt =====
-- bogvm/transforms.py: the parameter that `apply_transform_with_param` returns.
use bogbin.Common.{
  ℕ, ◌≤◌, false, List, [], ◌∷◌, length, some, Result, ok, ◌>>=◌, >>=-eq-ok, ◌≡◌, refl, sym, arith,
}
use bogbin.Transforms.Names.{
  Transform, identity, xor_previous, delta_previous, nibble_split, mtf, bwt, bwt_mtf,
  TransformError, is_bwt_transform,
}
use bogbin.Transforms.MoveToFront.{mtf_encode}
use bogbin.Transforms.BurrowsWheeler.{bwt_encode, bwt_decode}
use bogbin.Transforms.BurrowsWheeler.Table.{bwt_decode-bwt_encode}
use bogbin.Transforms.{apply_transform_with_param}

-- The decoder accepts no index behind its data.
bwt_decode-index :
    (bytes : List ℕ) (p : ℕ) (out : List ℕ) → bwt_decode bytes p ≡ ok out → p ≤ length bytes
unfolding bwt_decode
bwt_decode-index [] p out e = ground arith
bwt_decode-index (x ∷ xs) p out e = ground arith

second_of :
    {r : Result TransformError (List ℕ × ℕ)} {a c : List ℕ} {b d : ℕ}
    → r ≡ ok (a, b)
    → r ≡ ok (c, d)
    → b ≡ d
second_of p q = cc

bwt_index : (xs out : List ℕ) (p : ℕ) → bwt_encode xs ≡ ok (out, p) → p ≤ length xs
bwt_index xs out p e =
    let (out', p', e', l, _, d) = bwt_decode-bwt_encode xs in
    omega (arith, bwt_decode-index out' p' xs d, l, second_of e e')

nothing_written :
    {a out : List ℕ} {p : ℕ} (xs : List ℕ)
    → Path (Result TransformError (List ℕ × ℕ)) (ok (a, 0)) (ok (out, p))
    → (p ≤ length xs) × (false ≡ false → p ≡ 0)
nothing_written xs e = let z = second_of refl e in (omega (arith, z), λ _. sym z)

-- The parameter of a transform is at most the number of bytes, and 0 unless the transform is one of
-- Burrows and Wheeler.
pub apply-parameter :
    (t : Transform) (xs out : List ℕ) (param : ℕ)
    → apply_transform_with_param (some t) xs ≡ ok (out, param)
    → (param ≤ length xs) × (is_bwt_transform t ≡ false → param ≡ 0)
unfolding apply_transform_with_param
apply-parameter identity xs out param e = nothing_written xs e
apply-parameter xor_previous xs out param e = nothing_written xs e
apply-parameter delta_previous xs out param e = nothing_written xs e
apply-parameter nibble_split xs out param e = nothing_written xs e
apply-parameter mtf xs out param e =
    let (encoded, _, r) = >>=-eq-ok (mtf_encode xs) (λ encoded. ok (encoded, 0)) e in
    nothing_written xs r
apply-parameter bwt xs out param e = (bwt_index xs out param e, λ h. cc)
apply-parameter bwt_mtf xs out param e =
    let ((bwt_data, p), f, r) =
      >>=-eq-ok (bwt_encode xs)
        (λ (bwt_data, p). mtf_encode bwt_data >>= λ encoded. ok (encoded, p)) e in
    let (encoded, _, r') = >>=-eq-ok (mtf_encode bwt_data) (λ encoded. ok (encoded, p)) r in
    let same : p ≡ param = second_of refl r' in
    (omega (arith, bwt_index xs bwt_data p f, same), λ h. cc)
