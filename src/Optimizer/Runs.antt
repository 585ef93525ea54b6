-- ===== src/Optimizer/Runs.antt =====
-- The optimizer on examples.
use bogbin.Common.{
  ℕ, ◌≤◌, List, [], ◌∷◌, All, arith, ok, some, length, get_elem?, String, refl, ◌≡◌,
}
use bogbin.Common.Bits.{IsByte}
use bogbin.Bases.{zero_block, synthesize_basis, generate, sample}
use bogbin.Optimizer.Patches.{mismatches, residuals_from, apply_residuals, apply_residuals_exact}
use bogbin.Optimizer.Search.{coefficient_tuples}
use bogbin.Optimizer.Plan.{Plan, optimize_residual_plan}
use bogbin.Optimizer.Transformed.{TransformedPlan, optimize_transformed_residual_plan}
use bogbin.Optimizer.Reversible.{transformed-reconstructs}
use bogbin.Optimizer.Score.{varuint_size, varuint_size-step}
use bogbin.Transforms.{apply_transform_with_param, invert_transform}
use bogbin.Common.{suc, ltb, if◌then◌else◌}
use bogbin.Optimizer.Exact.{optimize-reconstructs, optimize-minimal}

-- A stand-in for the hash.
abbrev hash_of : List ℕ → String
hash_of [] = "empty"
hash_of (x ∷ xs) = "bytes"

abbrev three : List ℕ
three = 5 ∷ 6 ∷ 9 ∷ []

three_are_bytes : All IsByte three
three_are_bytes = omega arith

apply_residuals_exact_example :
    apply_residuals (5 ∷ 6 ∷ 7 ∷ []) (residuals_from 0 three (5 ∷ 6 ∷ 7 ∷ [])) ≡ ok three
apply_residuals_exact_example = apply_residuals_exact three (5 ∷ 6 ∷ 7 ∷ []) refl three_are_bytes

optimize-reconstructs_example :
    (p : Plan) × (g : List ℕ) × (optimize_residual_plan hash_of three ≡ ok p)
    × (p.length ≡ length three)
    × (p.sha256 ≡ hash_of three)
    × (p.residual_count ≡ length p.residuals)
    × (synthesize_basis (some p.basis) p.start_byte p.length p.delta ≡ ok g)
    × (apply_residuals g p.residuals ≡ ok three)
optimize-reconstructs_example = optimize-reconstructs hash_of three three_are_bytes

abbrev plan_of_three : Plan
plan_of_three = (optimize-reconstructs hash_of three three_are_bytes).0

zeros_of_three : synthesize_basis (some zero_block) 0 3 0 ≡ ok (0 ∷ 0 ∷ 0 ∷ [])
unfolding synthesize_basis generate sample
zeros_of_three = refl

zero_tuple : get_elem? (coefficient_tuples zero_block three) 0 ≡ some (0, 0)
unfolding coefficient_tuples
zero_tuple = refl

optimize-minimal_example : length plan_of_three.residuals ≤ mismatches three (0 ∷ 0 ∷ 0 ∷ [])
optimize-minimal_example =
    optimize-minimal hash_of three plan_of_three zero_block 0 (0, 0) (0 ∷ 0 ∷ 0 ∷ [])
      three_are_bytes (optimize-reconstructs hash_of three three_are_bytes).2 zero_tuple
      zeros_of_three

transformed-reconstructs_example :
    (p : TransformedPlan) × (out : List ℕ) × (g : List ℕ) × (optimize_transformed_residual_plan
        hash_of three
      ≡ ok p)
    × (apply_transform_with_param (some p.transform) three ≡ ok (out, p.transform_param))
    × (synthesize_basis (some p.plan.basis) p.plan.start_byte (length out) p.plan.delta ≡ ok g)
    × (apply_residuals g p.plan.residuals ≡ ok out)
    × (invert_transform (some p.transform) out p.transform_param ≡ ok three)
    × (p.plan.sha256 ≡ hash_of out)
    × (p.transformed_sha256 ≡ hash_of out)
    × (p.original_sha256 ≡ hash_of three)
transformed-reconstructs_example = transformed-reconstructs hash_of three three_are_bytes

three_bytes : varuint_size 16384 ≡ 3
unfolding varuint_size
three_bytes = refl

varuint_size-step_example : varuint_size 300 ≡ (if ltb 300 128 then 1 else suc (varuint_size 2))
varuint_size-step_example = varuint_size-step 300
