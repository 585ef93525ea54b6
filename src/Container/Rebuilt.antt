-- ===== src/Container/Rebuilt.antt =====
-- Containers built and reconstructed on examples.
use bogbin.Common.{
  ℕ, true, false, List, [], ◌∷◌, length, All, ok, String, ◌≡◌, refl, arith, none, some,
}
use bogbin.Common.Bits.{IsByte}
use bogbin.Optimizer.Chunks.{
  ChunkedPlan, optimize_chunked_residual_plan, optimize_transformed_chunked_residual_plan,
  count_transforms, tournament_transforms, no_counts,
}
use bogbin.Optimizer.Coverage.{
  IsChunkedPlan, optimize_chunked-IsChunkedPlan, optimize_transformed_chunked-IsChunkedPlan,
}
use bogbin.Common.Decimals.{four_digits, decimal}
use bogbin.Container.Records.{
  Container, TournamentResult, is_sha256, is_hex_digit, all_hex, chunk_name,
}
use bogbin.Container.Validate.{validate_bog_container}
use bogbin.Container.Build.{build_bog_container_v1, optimize_adaptive_chunked_residual_plan}
use bogbin.Container.Reconstruct.{reconstruct_bog_container_bytes}
use bogbin.Container.Plans.{IsLeast}
use bogbin.Container.RoundTrip.{adaptive-IsLeast, reconstruct-build_v1}

named : chunk_name 12 ≡ "payload_chunk_0012"
unfolding chunk_name four_digits decimal
named = refl

-- A stand-in for the hash.
abbrev pub digest : List ℕ → String
digest [] = "0123456789abcdef0123456789abcdef0123456789abcdef0123456789abcdef"
digest (x ∷ xs) = "00112233445566778899aabbccddeeff00112233445566778899aabbccddeeff"

pub is_digest : (xs : List ℕ) → is_sha256 (digest xs) ≡ true
unfolding is_sha256 all_hex is_hex_digit
is_digest [] = refl
is_digest (x ∷ xs) = refl

-- A stand-in for the rounded quotient.
abbrev pub quotient : ℕ → ℕ → ℕ
quotient total size = total

abbrev pub five : List ℕ
five = 5 ∷ 6 ∷ 9 ∷ 200 ∷ 9 ∷ []

pub five_are_bytes : All IsByte five
five_are_bytes = omega arith

optimize_chunked-IsChunkedPlan_example :
    (p : ChunkedPlan) × (optimize_chunked_residual_plan digest five 2 ≡ ok p)
    × IsChunkedPlan digest 2 five p
    × (p.transform_counts ≡ none)
optimize_chunked-IsChunkedPlan_example =
    optimize_chunked-IsChunkedPlan digest five 2 five_are_bytes (omega arith) (omega arith)

optimize_transformed_chunked-IsChunkedPlan_example :
    (p : ChunkedPlan) × (optimize_transformed_chunked_residual_plan digest five 2 ≡ ok p)
    × IsChunkedPlan digest 2 five p
    × (p.transform_counts ≡ some (count_transforms (tournament_transforms p.chunks) no_counts))
    × (length (tournament_transforms p.chunks) ≡ length p.chunks)
optimize_transformed_chunked-IsChunkedPlan_example =
    optimize_transformed_chunked-IsChunkedPlan digest five 2 five_are_bytes (omega arith)
      (omega arith)

adaptive-IsLeast_example :
    (p : ChunkedPlan) × (rs : List TournamentResult) × (optimize_adaptive_chunked_residual_plan
        quotient digest five true
      ≡ ok (p, rs))
    × IsLeast digest quotient five true p (16 ∷ 32 ∷ 64 ∷ 128 ∷ []) rs
adaptive-IsLeast_example = adaptive-IsLeast digest quotient five true five_are_bytes

reconstruct-build_v1_example :
    (c : Container) × (build_bog_container_v1 quotient digest five 2 false true ≡ ok c)
    × (validate_bog_container c ≡ ok tt)
    × (reconstruct_bog_container_bytes digest c ≡ ok five)
reconstruct-build_v1_example =
    reconstruct-build_v1 digest quotient five is_digest 2 false true five_are_bytes (omega arith)
      (omega arith)
