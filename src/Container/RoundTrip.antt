-- ===== src/Container/RoundTrip.antt =====
-- bogvm/container.py: `build_bog_container_v1` and then `reconstruct_bog_container_bytes`.
use bogbin.Common.{ℕ, ◌≤◌, ◌<◌, Bool, true, false, List, [], All, ok, String, ◌≡◌, refl, ◌∷◌}
use bogbin.Common.Bits.{IsByte}
use bogbin.Optimizer.Chunks.{ChunkedPlan}
use bogbin.Container.Records.{Container, TournamentResult, is_sha256}
use bogbin.Container.Validate.{validate_bog_container}
use bogbin.Container.Build.{
  optimize_adaptive_chunked_residual_plan, build_bog_container_from_plan, build_bog_container_v1,
}
use bogbin.Container.Reconstruct.{reconstruct_bog_container_bytes}
use bogbin.Container.Valid.{build-IsValid}
use bogbin.Container.Restored.{reconstruct-build}
use bogbin.Container.Plans.{optimize_chunked_plan-IsCounted, adaptive-IsCounted, IsLeast}

module _ (sha256 : List ℕ → String) (round_quotient : ℕ → ℕ → ℕ) (bytes : List ℕ) where
  -- For bytes, the tournament of chunk sizes succeeds. It returns one result for each of the sizes
  -- 16, 32, 64 and 128, in this order, that of the plan for this very size, and a plan that has no
  -- more residuals than any of these four plans.
  pub adaptive-IsLeast :
      (tournament : Bool)
      → All IsByte bytes
      → (p : ChunkedPlan) × (rs : List TournamentResult) × (optimize_adaptive_chunked_residual_plan
            round_quotient sha256 bytes tournament
          ≡ ok (p, rs))
        × IsLeast sha256 round_quotient bytes tournament p (16 ∷ 32 ∷ 64 ∷ 128 ∷ []) rs
  adaptive-IsLeast tournament b =
      let (p, rs, e, _, l) =
        adaptive-IsCounted (λ n. Unit) sha256 round_quotient bytes tournament b
          (tt, (tt, (tt, (tt, tt)))) in
      (p, rs, e, l)

  module _ (is_digest : (xs : List ℕ) → is_sha256 (sha256 xs) ≡ true) where
    -- With a hash of 64 hex digits, for bytes and a chunk size from 1 to 65535, a container is
    -- built, whatever the flags; it is valid and it is reconstructed to the bytes.
    pub reconstruct-build_v1 :
        (chunk_size : ℕ) (auto_chunk transform_tournament : Bool)
        → All IsByte bytes
        → 0 < chunk_size
        → chunk_size ≤ 65535
        → (c : Container) × (build_bog_container_v1 round_quotient sha256 bytes chunk_size
              auto_chunk transform_tournament
            ≡ ok c)
          × (validate_bog_container c ≡ ok tt)
          × (reconstruct_bog_container_bytes sha256 c ≡ ok bytes)
    unfolding build_bog_container_v1
    reconstruct-build_v1 n true tournament b h k =
        let (p, rs, e, v, _) =
          adaptive-IsCounted (λ n. Unit) sha256 round_quotient bytes tournament b
            (tt, (tt, (tt, (tt, tt)))) in
        (
          build_bog_container_from_plan round_quotient p true rs tournament,
          rw e refl,
          build-IsValid sha256 is_digest v.size bytes round_quotient p true tournament rs
              v.size_positive v.chunked v.counted,
          reconstruct-build sha256 v.size bytes round_quotient is_digest p true tournament rs
              v.size_positive v.chunked v.counted,
        )
    reconstruct-build_v1 n false tournament b h k =
        let (p, e, v, _) =
          optimize_chunked_plan-IsCounted (λ n. Unit) sha256 round_quotient bytes n tournament b
            (h, k, tt) in
        (
          build_bog_container_from_plan round_quotient p false [] tournament,
          rw e refl,
          build-IsValid sha256 is_digest v.size bytes round_quotient p false tournament []
              v.size_positive v.chunked v.counted,
          reconstruct-build sha256 v.size bytes round_quotient is_digest p false tournament []
              v.size_positive v.chunked v.counted,
        )
