-- ===== src/Optimizer/Transformed.antt =====
-- bogvm/optimizer.py: `optimize_transformed_residual_plan`, the tournament of the transforms.
use bogbin.Common.{
  ℕ, ◌+◌, Bool, true, false, Option, none, some, List, [], ◌∷◌, ◌==◌, ltb, if◌then◌else◌, Result,
  ok, err, ◌>>=◌, ◌>>◌, guard, String, str_eq, option_case,
}
use bogbin.Bases.{
  Basis, zero_block, repeat_byte, delta_u8, dictionary_u8, rle_u8, ramp_u8, triangle_u8, sine8_u8,
  fourier8_u8,
}
use bogbin.Transforms.Names.{Transform, transform_order}
use bogbin.Transforms.{apply_transform_with_param, apply_transform, invert_transform}
use bogbin.Common.ByteStrings.{bytes_eq}
use bogbin.Optimizer.Plan.{
  OptimizerError, transform_error, not_reversible, no_candidate, original_mismatch, raise_as, Plan,
  assert_exact_reconstruction, optimize_residual_plan,
}
use bogbin.Optimizer.Score.{Score, score_reconstruction_plan}

-- The place of a basis in the alphabetical order of the names, by which tuples with names compare.
unfoldable pub name_rank : Basis → ℕ
name_rank delta_u8 = 0
name_rank dictionary_u8 = 1
name_rank fourier8_u8 = 2
name_rank ramp_u8 = 3
name_rank repeat_byte = 4
name_rank rle_u8 = 5
name_rank sine8_u8 = 6
name_rank triangle_u8 = 7
name_rank zero_block = 8

-- `<` of tuples of numbers
unfoldable pub key_lt : List ℕ → List ℕ → Bool
key_lt [] [] = false
key_lt [] (y ∷ ys) = true
key_lt (x ∷ xs) [] = false
key_lt (x ∷ xs) (y ∷ ys) = let rest = key_lt xs ys in if x == y then rest else ltb x y

-- A plan with the entries that the tournament adds. The code drops `transform_index` from the plan
-- that it returns. `candidate["sha256"]` is set to the hash that the plan already has.
pub record TransformedPlan : Type 0 where
  pub plan : Plan
  pub transform : Transform
  pub transform_param : ℕ
  pub transform_index : ℕ
  pub transformed_sha256 : String
  pub original_sha256 : String
  pub score : Score

-- `candidate_key`
unfoldable pub candidate_key : TransformedPlan → List ℕ
unfolding name_rank
candidate_key c =
    c.score.total_cost
    ∷ c.score.container_size
    ∷ c.plan.residual_count
    ∷ c.score.decode_cost
    ∷ c.score.transform_cost
    ∷ c.transform_index
    ∷ name_rank c.plan.basis
    ∷ c.plan.start_byte
    ∷ c.plan.delta
    ∷ c.transform_param
    ∷ []

-- `best`, once a candidate has been compared with it.
unfoldable pub better_transformed : Option TransformedPlan → TransformedPlan → TransformedPlan
unfolding candidate_key key_lt
better_transformed none c = c
better_transformed (some b) c = if key_lt (candidate_key c) (candidate_key b) then c else b

module _ (sha256 : List ℕ → String) where
  -- The candidate of one transform.
  unfoldable pub transformed_candidate :
      List ℕ → ℕ → Transform → Result OptimizerError TransformedPlan
  unfolding bytes_eq score_reconstruction_plan
  transformed_candidate bytes transform_index transform = do
    (transformed, transform_param) ←
        raise_as transform_error (apply_transform_with_param (some transform) bytes)
    plan ← optimize_residual_plan sha256 transformed
    restored ←
        raise_as transform_error (invert_transform (some transform) transformed transform_param)
    guard (bytes_eq restored bytes) (not_reversible transform)
    ok (record {
      plan = plan;
      transform = transform;
      transform_param = transform_param;
      transform_index = transform_index;
      transformed_sha256 = sha256 transformed;
      original_sha256 = sha256 bytes;
      score =
          score_reconstruction_plan transform plan.basis plan.residual_count plan.length
            plan.residuals;
    })

  -- The loop over `enumerate(TRANSFORM_ORDER)`.
  unfoldable pub try_transforms :
      List ℕ
      → ℕ
      → List Transform
      → Option TransformedPlan
      → Result OptimizerError (Option TransformedPlan)
  unfolding transformed_candidate better_transformed
  try_transforms bytes transform_index [] best = ok best
  try_transforms bytes transform_index (t ∷ ts) best = do
    c ← transformed_candidate bytes transform_index t
    try_transforms bytes (transform_index + 1) ts (some (better_transformed best c))

  -- The checks of the best candidate.
  unfoldable pub check_best : List ℕ → TransformedPlan → Result OptimizerError TransformedPlan
  unfolding assert_exact_reconstruction apply_transform
  check_best bytes best = do
    transformed ← raise_as transform_error (apply_transform (some best.transform) bytes)
    assert_exact_reconstruction sha256 best.plan transformed
    restored ←
        raise_as transform_error
          (invert_transform (some best.transform) transformed best.transform_param)
    guard (str_eq (sha256 restored) best.original_sha256) original_mismatch
    ok best

  unfoldable pub optimize_transformed_residual_plan : List ℕ → Result OptimizerError TransformedPlan
  unfolding try_transforms check_best
  optimize_transformed_residual_plan bytes = do
    best ← try_transforms bytes 0 transform_order none
    option_case best (err no_candidate) (λ b. check_best bytes b)
