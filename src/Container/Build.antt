-- ===== src/Container/Build.antt =====
-- bogvm/container.py: the container of a chunked plan, and the choice of the chunk size.
use bogbin.Common.{
  ℕ, Bool, true, false, Option, none, some, List, [], ◌∷◌, ◌++◌, map, length, ◌==◌, if◌then◌else◌,
  Result, ok, err, ◌>>=◌, String, option_case,
}
use bogbin.Transforms.Names.{transform_order, identity}
use bogbin.Optimizer.Plan.{OptimizerError}
use bogbin.Optimizer.Transformed.{key_lt}
use bogbin.Optimizer.Chunks.{
  Counts, PlannedChunk, ChunkedPlan, optimize_chunked_residual_plan,
  optimize_transformed_chunked_residual_plan,
}
use bogbin.Optimizer.Coverage.{transform_of, param_of, transformed_hash_of, original_hash_of}
use bogbin.Container.Records.{
  Chunk, Container, TournamentResult, bog_format, bogbin_format, sizes, chunk_name,
}

-- The entry of one chunk.
unfoldable pub chunk_of : PlannedChunk → Chunk
unfolding chunk_name
chunk_of c = record {
  index = c.index;
  name = chunk_name c.index;
  offset = c.offset;
  length = c.plan.length;
  basis = some c.plan.basis;
  start_byte = c.plan.start_byte;
  delta = c.plan.delta;
  transform = some (transform_of c.transformed);
  transform_param = param_of c.transformed;
  residual_count = c.plan.residual_count;
  residuals = c.plan.residuals;
  chunk_sha256 = c.plan.sha256;
  transformed_sha256 = transformed_hash_of c.plan c.transformed;
  original_chunk_sha256 = original_hash_of c.plan c.transformed;
}

-- `plan.get("transform_counts", {"identity": plan["chunk_count"]})`
abbrev pub counts_of : ChunkedPlan → Counts
counts_of plan = option_case plan.transform_counts ((identity, plan.chunk_count) ∷ []) (λ c. c)

-- `round(total / length, 6)` of floats is the parameter `round_quotient`.
module _ (round_quotient : ℕ → ℕ → ℕ) where
  -- `_residual_density`
  unfoldable pub residual_density : ℕ → ℕ → ℕ
  residual_density total_residual_count length =
      if length == 0 then 0 else round_quotient total_residual_count length

  -- `build_bog_container_from_plan`
  unfoldable pub build_bog_container_from_plan :
      ChunkedPlan → Bool → List TournamentResult → Bool → Container
  unfolding chunk_of residual_density
  build_bog_container_from_plan plan auto_chunk tournament_results transform_tournament = record {
    format = bog_format;
    vm_format = bogbin_format;
    pack_mode = "chunked";
    chunk_size = plan.chunk_size;
    chunk_count = plan.chunk_count;
    whole_sha256 = plan.whole_sha256;
    total_residual_count = plan.total_residual_count;
    chunks = map chunk_of plan.chunks;
    chunk_tournament_enabled = auto_chunk;
    candidate_chunk_sizes = if auto_chunk then sizes else plan.chunk_size ∷ [];
    selected_chunk_size = plan.chunk_size;
    selected_total_residual_count = plan.total_residual_count;
    selected_residual_density = residual_density plan.total_residual_count plan.length;
    chunk_tournament_results = tournament_results;
    transform_tournament_enabled = transform_tournament;
    candidate_transforms =
        if transform_tournament then map (λ t. some t) transform_order else some identity ∷ [];
    selected_transform_counts = counts_of plan;
  }

  module _ (sha256 : List ℕ → String) where
    -- `_optimize_chunked_plan`
    unfoldable pub optimize_chunked_plan : List ℕ → ℕ → Bool → Result OptimizerError ChunkedPlan
    optimize_chunked_plan bytes chunk_size true =
        optimize_transformed_chunked_residual_plan sha256 bytes chunk_size
    optimize_chunked_plan bytes chunk_size false =
        optimize_chunked_residual_plan sha256 bytes chunk_size

    -- `candidate_key`
    unfoldable pub size_key : List ℕ → ChunkedPlan → List ℕ
    unfolding residual_density
    size_key bytes plan =
        plan.total_residual_count
        ∷ residual_density plan.total_residual_count (length bytes)
        ∷ plan.chunk_count
        ∷ plan.chunk_size
        ∷ []

    -- `best_plan`, once a plan has been compared with it.
    unfoldable pub better_size : List ℕ → Option ChunkedPlan → ChunkedPlan → ChunkedPlan
    unfolding size_key key_lt
    better_size bytes none plan = plan
    better_size bytes (some best) plan =
        if key_lt (size_key bytes plan) (size_key bytes best) then plan else best

    -- The entry of one chunk size in the results.
    unfoldable pub result_of : List ℕ → ChunkedPlan → TournamentResult
    unfolding residual_density
    result_of bytes plan = record {
      chunk_size = plan.chunk_size;
      chunk_count = plan.chunk_count;
      total_residual_count = plan.total_residual_count;
      residual_density = residual_density plan.total_residual_count (length bytes);
      transform_counts = plan.transform_counts;
    }

    -- The loop over CANDIDATE_CHUNK_SIZES.
    unfoldable pub try_sizes :
        List ℕ
        → Bool
        → List ℕ
        → Option ChunkedPlan
        → List TournamentResult
        → Result OptimizerError (Option ChunkedPlan × List TournamentResult)
    unfolding optimize_chunked_plan better_size result_of
    try_sizes bytes transform_tournament [] best results = ok (best, results)
    try_sizes bytes transform_tournament (n ∷ ns) best results = do
      plan ← optimize_chunked_plan bytes n transform_tournament
      try_sizes bytes transform_tournament ns (some (better_size bytes best plan))
          (results ++ (result_of bytes plan ∷ []))

    -- `optimize_adaptive_chunked_residual_plan`
    unfoldable pub optimize_adaptive_chunked_residual_plan :
        List ℕ → Bool → Result OptimizerError (ChunkedPlan × List TournamentResult)
    unfolding try_sizes
    optimize_adaptive_chunked_residual_plan bytes transform_tournament = do
      (best, results) ← try_sizes bytes transform_tournament sizes none []
      option_case best (err OptimizerError.no_candidate) (λ plan. ok (plan, results))

    -- `build_bog_container_v1`
    unfoldable pub build_bog_container_v1 :
        List ℕ → ℕ → Bool → Bool → Result OptimizerError Container
    unfolding optimize_adaptive_chunked_residual_plan optimize_chunked_plan
        build_bog_container_from_plan
    build_bog_container_v1 bytes chunk_size true transform_tournament = do
      (plan, results) ← optimize_adaptive_chunked_residual_plan bytes transform_tournament
      ok (build_bog_container_from_plan plan true results transform_tournament)
    build_bog_container_v1 bytes chunk_size false transform_tournament = do
      plan ← optimize_chunked_plan bytes chunk_size transform_tournament
      ok (build_bog_container_from_plan plan false [] transform_tournament)

    -- `build_bog_container`
    unfoldable pub build_bog_container : List ℕ → ℕ → Bool → Result OptimizerError Container
    unfolding build_bog_container_v1
    build_bog_container bytes chunk_size auto_chunk =
        build_bog_container_v1 bytes chunk_size auto_chunk false
