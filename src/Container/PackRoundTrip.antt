-- ===== src/Container/PackRoundTrip.antt =====
-- bogvm/container.py: bytes built into a container, packed, unpacked and reconstructed.
use bogbin.Common.{
  ℕ, ◌^◌, ◌<◌, Bool, true, false, List, [], length, All, ok, String, ◌≡◌, refl, sym, subst, inl,
  inr,
}
use bogbin.Common.Bits.{IsByte}
use bogbin.Optimizer.Chunks.{ChunkedPlan}
use bogbin.Optimizer.Coverage.{IsChunkedPlan}
use bogbin.Container.Records.{Container, TournamentResult, is_sha256}
use bogbin.Container.Build.{build_bog_container_v1, build_bog_container_from_plan}
use bogbin.Container.Reconstruct.{reconstruct_bog_container_bytes}
use bogbin.Container.Encode.{encode_bogpk_container}
use bogbin.Container.Decode.{decode_bogpk_container}
use bogbin.Container.Plans.{IsCounted, optimize_chunked_plan-IsCounted, adaptive-IsCounted}
use bogbin.Container.Header.{IsCandidate, candidate_bounds}
use bogbin.Container.Packed.{MatchesSchema, decode-encode_bogpk}

module _ (sha256 : List ℕ → String) (is_digest : (xs : List ℕ) → is_sha256 (sha256 xs) ≡ true)
    (round_quotient : ℕ → ℕ → ℕ) (fits_schema : Container → Bool)
    (accepts : (c : Container) → MatchesSchema c → fits_schema c ≡ true) (bytes : List ℕ)
    (b : All IsByte bytes) (short : length bytes < 128 ^ 9) where
  of_plan :
      (p : ChunkedPlan) (auto tournament : Bool) (results : List TournamentResult)
      → IsCounted IsCandidate sha256 round_quotient bytes p
      → (packed : List ℕ) × (c' : Container) × (encode_bogpk_container fits_schema
            (build_bog_container_from_plan round_quotient p auto results tournament)
          ≡ ok packed)
        × (decode_bogpk_container round_quotient sha256 fits_schema packed ≡ ok c')
        × (c'.chunks
            ≡ (build_bog_container_from_plan round_quotient p auto results tournament).chunks)
        × (reconstruct_bog_container_bytes sha256 c' ≡ ok bytes)
  of_plan p auto tournament results v =
      let same : v.size ≡ p.chunk_size = sym v.chunked.size_right in
      decode-encode_bogpk sha256 is_digest round_quotient fits_schema accepts bytes p
        (subst (λ n. IsChunkedPlan sha256 n bytes p) same v.chunked)
        (subst IsCandidate same v.size_allowed) short auto tournament results v.counted

  -- With a hash of 64 hex digits, and a schema checker that accepts what the schema asks for, any
  -- bytes, fewer than 2 ^ 63, are built into a container for a chunk size of 16, 32, 64 or 128 and
  -- whatever the flags; the container is packed, the packed bytes are decoded to a container with the
  -- same chunks, and that is reconstructed to the bytes.
  pub decode-encode-build :
      (chunk_size : ℕ) (auto_chunk transform_tournament : Bool)
      → IsCandidate chunk_size
      → (c : Container) × (packed : List ℕ) × (c' : Container) × (build_bog_container_v1
            round_quotient sha256 bytes chunk_size auto_chunk transform_tournament
          ≡ ok c)
        × (encode_bogpk_container fits_schema c ≡ ok packed)
        × (decode_bogpk_container round_quotient sha256 fits_schema packed ≡ ok c')
        × (c'.chunks ≡ c.chunks)
        × (reconstruct_bog_container_bytes sha256 c' ≡ ok bytes)
  unfolding build_bog_container_v1
  decode-encode-build n true tournament candidate =
      let (p, rs, e, v, _) =
        adaptive-IsCounted IsCandidate sha256 round_quotient bytes tournament b
          (inl refl, (inr (inl refl), (inr (inr (inl refl)), (inr (inr (inr refl)), tt)))) in
      let (packed, c', e1, e2, e3, e4) = of_plan p true tournament rs v in
      (
        build_bog_container_from_plan round_quotient p true rs tournament,
        packed,
        c',
        rw e refl,
        e1,
        e2,
        e3,
        e4,
      )
  decode-encode-build n false tournament candidate =
      let (low, high) = candidate_bounds n candidate in
      let (p, e, v, _) =
        optimize_chunked_plan-IsCounted IsCandidate sha256 round_quotient bytes n tournament b
          (low, high, candidate) in
      let (packed, c', e1, e2, e3, e4) = of_plan p false tournament [] v in
      (
        build_bog_container_from_plan round_quotient p false [] tournament,
        packed,
        c',
        rw e refl,
        e1,
        e2,
        e3,
        e4,
      )
