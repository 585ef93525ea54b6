-- ===== src/Container/Runs.antt =====
-- The container format on examples.
use bogbin.Common.{ℕ, ◌≤◌, ◌<◌, ◌^◌, List, [], ◌∷◌, ◌++◌, length, ok, refl, ◌≡◌, arith}
use bogbin.Residual.{Residual, IsPatchList}
use bogbin.Container.Varuint.{
  encode_varuint, decode_varuint, decode_loop, decode-encode_varuint, encode-decode_varuint,
}
use bogbin.Container.Residuals.{append_residuals, read_residuals, read-append_residuals}

written : encode_varuint 300 ≡ 172 ∷ 2 ∷ []
unfolding encode_varuint
written = refl

read_back : decode_varuint (172 ∷ 2 ∷ 9 ∷ []) ≡ ok (300, 9 ∷ [])
unfolding decode_varuint decode_loop encode_varuint
read_back = refl

in_range : 300 < 128 ^ 10
in_range = omega arith

decode-encode_varuint_example : decode_varuint (encode_varuint 300 ++ (9 ∷ [])) ≡ ok (300, 9 ∷ [])
decode-encode_varuint_example = decode-encode_varuint 300 (9 ∷ []) in_range

encode-decode_varuint_example : (172 ∷ 2 ∷ 9 ∷ []) ≡ encode_varuint 300 ++ (9 ∷ [])
encode-decode_varuint_example = encode-decode_varuint (172 ∷ 2 ∷ 9 ∷ []) 300 (9 ∷ []) read_back

abbrev patches : List Residual
patches = record { offset = 3; byte = 7 } ∷ record { offset = 200; byte = 255 } ∷ []

patches-IsPatchList : IsPatchList 256 0 patches
patches-IsPatchList = omega arith

small_length : 256 ≤ 128 ^ 10
small_length = omega arith

read-append_residuals_example :
    (bytes : List ℕ) × (append_residuals patches ≡ ok bytes)
    × (read_residuals (bytes ++ (1 ∷ [])) (length patches) 256 ≡ ok (patches, 1 ∷ []))
read-append_residuals_example =
    read-append_residuals 256 patches (1 ∷ []) small_length patches-IsPatchList
