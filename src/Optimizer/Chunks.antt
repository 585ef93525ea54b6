-- ===== src/Optimizer/Chunks.antt =====
-- bogvm/optimizer.py: `optimize_chunked_residual_plan` and
-- `optimize_transformed_chunked_residual_plan`, which plan each piece of `chunk_size` bytes.
use bogbin.Common.{
  ℕ, zero, suc, ◌+◌, ◌-◌, ◌*◌, ◌/◌, Option, none, some, List, [], ◌∷◌, map, take, drop, length, leb,
  ltb, ◌==◌, if◌then◌else◌, Result, ok, ◌>>=◌, ◌>>◌, guard, String,
}
use bogbin.Transforms.Names.{
  Transform, transform_order, identity, xor_previous, delta_previous, nibble_split, mtf, bwt,
  bwt_mtf,
}
use bogbin.Optimizer.Plan.{
  OptimizerError, chunk_size_positive, chunk_size_large, Plan, assert_exact_reconstruction,
  optimize_residual_plan,
}
use bogbin.Optimizer.Transformed.{TransformedPlan, optimize_transformed_residual_plan}

-- A plan with the entries "index" and "offset" that the loops add; `transformed` has those of the
-- transform tournament, where there was one.
pub record PlannedChunk : Type 0 where
  pub index : ℕ
  pub offset : ℕ
  pub plan : Plan
  pub transformed : Option TransformedPlan

-- The place of a name in TRANSFORM_ORDER.
unfoldable pub transform_id : Transform → ℕ
transform_id identity = 0
transform_id xor_previous = 1
transform_id delta_previous = 2
transform_id nibble_split = 3
transform_id mtf = 4
transform_id bwt = 5
transform_id bwt_mtf = 6

-- `transform_counts`, a dict by name.
abbrev pub Counts : Type 0
Counts = List (Transform × ℕ)

-- `transform_counts[transform] += 1`
unfoldable pub bump : Transform → Counts → Counts
unfolding transform_id
bump t [] = []
bump t ((u, n) ∷ counts) =
    let rest = bump t counts in
    if transform_id u == transform_id t then (u, n + 1) ∷ counts else (u, n) ∷ rest

-- `{transform: 0 for transform in TRANSFORM_ORDER}`
abbrev pub no_counts : Counts
no_counts = map (λ t. (t, 0)) transform_order

unfoldable pub count_transforms : List Transform → Counts → Counts
unfolding bump
count_transforms [] counts = counts
count_transforms (t ∷ ts) counts = count_transforms ts (bump t counts)

-- The entries of a chunked plan; `transform_counts` is only there with the transform tournament.
pub record ChunkedPlan : Type 0 where
  pub chunk_size : ℕ
  pub chunk_count : ℕ
  pub chunks : List PlannedChunk
  pub total_residual_count : ℕ
  pub whole_sha256 : String
  pub length : ℕ
  pub transform_counts : Option Counts

-- `data[offset:offset + chunk_size]`
abbrev pub chunk_at : ℕ → List ℕ → ℕ → List ℕ
chunk_at chunk_size bytes offset = take chunk_size (drop offset bytes)

-- The length of `range(0, len(data), chunk_size)`.
abbrev pub chunk_total : ℕ → List ℕ → ℕ
chunk_total chunk_size bytes = (length bytes + chunk_size - 1) / chunk_size

abbrev pub total_residuals : List PlannedChunk → ℕ
total_residuals [] = 0
total_residuals (c ∷ cs) = c.plan.residual_count + total_residuals cs

-- The names of the transforms of the chunks.
abbrev pub tournament_transforms : List PlannedChunk → List Transform
tournament_transforms [] = []
tournament_transforms (c ∷ cs) = elim c.transformed [
  | none ↦ tournament_transforms cs
  | some t ↦ t.transform ∷ tournament_transforms cs
]

-- What a loop does to one piece.
abbrev pub Planner : Type 0
Planner = List ℕ → Result OptimizerError (Plan × Option TransformedPlan)

-- The loop over `enumerate(range(0, len(data), chunk_size))`, with the rounds left and the index.
unfoldable pub plan_chunks :
    Planner → ℕ → List ℕ → ℕ → ℕ → Result OptimizerError (List PlannedChunk)
plan_chunks planner chunk_size bytes zero index = ok []
plan_chunks planner chunk_size bytes (suc rounds) index = do
  (plan, transformed) ← planner (chunk_at chunk_size bytes (index * chunk_size))
  rest ← plan_chunks planner chunk_size bytes rounds (index + 1)
  ok (
      record { index = index; offset = index * chunk_size; plan = plan; transformed = transformed }
      ∷ rest)

module _ (sha256 : List ℕ → String) where
  unfoldable pub plan_chunk : Planner
  plan_chunk chunk = do
    plan ← optimize_residual_plan sha256 chunk
    assert_exact_reconstruction sha256 plan chunk
    ok (record plan { sha256 = sha256 chunk }, none)

  unfoldable pub plan_transformed_chunk : Planner
  plan_transformed_chunk chunk = do
    t ← optimize_transformed_residual_plan sha256 chunk
    ok (t.plan, some t)

  unfoldable pub optimize_chunked_residual_plan : List ℕ → ℕ → Result OptimizerError ChunkedPlan
  unfolding plan_chunks plan_chunk
  optimize_chunked_residual_plan bytes chunk_size = do
    guard (ltb 0 chunk_size) chunk_size_positive
    guard (leb chunk_size 65535) chunk_size_large
    chunks ← plan_chunks plan_chunk chunk_size bytes (chunk_total chunk_size bytes) 0
    ok (record {
      chunk_size = chunk_size;
      chunk_count = length chunks;
      chunks = chunks;
      total_residual_count = total_residuals chunks;
      whole_sha256 = sha256 bytes;
      length = length bytes;
      transform_counts = none;
    })

  unfoldable pub optimize_transformed_chunked_residual_plan :
      List ℕ → ℕ → Result OptimizerError ChunkedPlan
  unfolding plan_chunks plan_transformed_chunk count_transforms
  optimize_transformed_chunked_residual_plan bytes chunk_size = do
    guard (ltb 0 chunk_size) chunk_size_positive
    guard (leb chunk_size 65535) chunk_size_large
    chunks ← plan_chunks plan_transformed_chunk chunk_size bytes (chunk_total chunk_size bytes) 0
    ok (record {
      chunk_size = chunk_size;
      chunk_count = length chunks;
      chunks = chunks;
      total_residual_count = total_residuals chunks;
      whole_sha256 = sha256 bytes;
      length = length bytes;
      transform_counts = some (count_transforms (tournament_transforms chunks) no_counts);
    })
