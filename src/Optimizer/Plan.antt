-- ===== src/Optimizer/Plan.antt =====
-- bogvm/optimizer.py: `optimize_residual_plan` and `_assert_exact_reconstruction`.
use bogbin.Common.{
  ℕ, none, some, List, ◌==◌, length, Result, ok, err, ◌>>=◌, ◌>>◌, guard, String, str_eq,
  option_case,
}
use bogbin.Bases.{Basis, BasisError, basis_order, synthesize_basis}
use bogbin.Transforms.Names.{Transform, TransformError}
use bogbin.Residual.{Residual}
use bogbin.Optimizer.Patches.{PatchError, residuals_from, apply_residuals}
use bogbin.Optimizer.Search.{Candidate, try_bases}

-- The exceptions: those of the callees, the failed assertion, and the OptimizerErrors and ValueErrors
-- of the functions themselves.
pub data OptimizerError : Type 0 where
  basis_error : BasisError → OptimizerError
  patch_error : PatchError → OptimizerError
  transform_error : TransformError → OptimizerError
  no_candidate length_mismatch target_mismatch count_mismatch inexact : OptimizerError
  reconstructed_mismatch : OptimizerError
  not_reversible : Transform → OptimizerError
  original_mismatch chunk_size_positive chunk_size_large : OptimizerError

abbrev pub raise_as {ℓ} :
    {E A : Type ℓ} → (E → OptimizerError) → Result E A → Result OptimizerError A
raise_as f (ok a) = ok a
raise_as f (err e) = err (f e)

-- The entries of a plan.
pub record Plan : Type 0 where
  pub basis : Basis
  pub start_byte : ℕ
  pub delta : ℕ
  pub length : ℕ
  pub sha256 : String
  pub residual_count : ℕ
  pub residuals : List Residual
  pub reconstructed_hash : String

module _ (sha256 : List ℕ → String) where
  -- `_assert_exact_reconstruction`
  unfoldable pub assert_exact_reconstruction : Plan → List ℕ → Result OptimizerError (Unit {0})
  assert_exact_reconstruction plan bytes = do
    generated ←
        raise_as basis_error
          (synthesize_basis (some plan.basis) plan.start_byte plan.length plan.delta)
    reconstructed ← raise_as patch_error (apply_residuals generated plan.residuals)
    let actual_hash = sha256 reconstructed
    let expected_hash = sha256 bytes
    guard (plan.length == length bytes) length_mismatch
    guard (str_eq plan.sha256 expected_hash) target_mismatch
    guard (plan.residual_count == length plan.residuals) count_mismatch
    guard (str_eq actual_hash expected_hash) inexact
    guard (str_eq plan.reconstructed_hash actual_hash) reconstructed_mismatch

  -- The plan of the best candidate.
  unfoldable pub plan_of : List ℕ → Candidate → Result OptimizerError Plan
  unfolding assert_exact_reconstruction
  plan_of bytes best = do
    generated ←
        raise_as basis_error
          (synthesize_basis (some best.basis) best.start_byte (length bytes) best.delta)
    let residuals = residuals_from 0 bytes generated
    reconstructed ← raise_as patch_error (apply_residuals generated residuals)
    let plan : Plan = record {
      basis = best.basis;
      start_byte = best.start_byte;
      delta = best.delta;
      length = length bytes;
      sha256 = sha256 bytes;
      residual_count = best.residual_count;
      residuals = residuals;
      reconstructed_hash = sha256 reconstructed;
    }
    assert_exact_reconstruction plan bytes
    ok plan

  unfoldable pub optimize_residual_plan : List ℕ → Result OptimizerError Plan
  unfolding plan_of
  optimize_residual_plan bytes = do
    best ← raise_as basis_error (try_bases bytes 0 basis_order none)
    option_case best (err no_candidate) (λ b. plan_of bytes b)
