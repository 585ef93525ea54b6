-- ===== src/Optimizer/Reversible.antt =====
-- bogvm/optimizer.py: what `optimize_transformed_residual_plan` returns.
use bogbin.Common.{
  ℕ, ◌+◌, Bool, true, false, some, List, [], ◌∷◌, if◌then◌else◌, length, All, ok, String, eq_iff,
  ◌≡◌, refl,
}
use bogbin.Common.Bits.{IsByte}
use bogbin.Bases.{synthesize_basis}
use bogbin.Transforms.Names.{
  Transform, identity, xor_previous, delta_previous, nibble_split, mtf, bwt, bwt_mtf,
}
use bogbin.Transforms.{apply_transform_with_param, apply_transform, invert_transform}
use bogbin.Transforms.RoundTrip.{invert-apply}
use bogbin.Common.ByteStrings.{bytes_eq_refl}
use bogbin.Optimizer.Patches.{apply_residuals}
use bogbin.Optimizer.Plan.{optimize_residual_plan}
use bogbin.Optimizer.Exact.{optimize-reconstructs, optimize-checked, optimize-IsSound}
use bogbin.Optimizer.Score.{score_reconstruction_plan}
use bogbin.Optimizer.Transformed.{
  TransformedPlan, better_transformed, key_lt, candidate_key, transformed_candidate, try_transforms,
  check_best, optimize_transformed_residual_plan,
}

abbrev later_transforms : List Transform
later_transforms = xor_previous ∷ delta_previous ∷ nibble_split ∷ mtf ∷ bwt ∷ bwt_mtf ∷ []

module _ (sha256 : List ℕ → String) (xs : List ℕ) (h : All IsByte xs) where
  -- The plan is the plan of the transformed bytes, and these can be inverted.
  abbrev pub IsFaithful : TransformedPlan → Type 0
  IsFaithful c =
      (out : List ℕ) × (apply_transform_with_param (some c.transform) xs
        ≡ ok (out, c.transform_param))
      × (optimize_residual_plan sha256 out ≡ ok c.plan)
      × (invert_transform (some c.transform) out c.transform_param ≡ ok xs)
      × All IsByte out
      × (c.transformed_sha256 ≡ sha256 out)
      × (c.original_sha256 ≡ sha256 xs)
      × (length out ≡ length xs)

  candidate-IsFaithful :
      (k : ℕ) (t : Transform)
      → (c : TransformedPlan) × (transformed_candidate sha256 xs k t ≡ ok c) × IsFaithful c
  unfolding transformed_candidate
  candidate-IsFaithful k t =
      let (out, param, e, b, l, i) = invert-apply t xs h in
      let (p, _, e', _, _, _, _, _) = optimize-reconstructs sha256 out b in
      (
        record {
          plan = p;
          transform = t;
          transform_param = param;
          transform_index = k;
          transformed_sha256 = sha256 out;
          original_sha256 = sha256 xs;
          score = score_reconstruction_plan t p.basis p.residual_count p.length p.residuals;
        },
        rw (e, e', i, bytes_eq_refl xs) refl,
        (out, e, e', i, b, refl, refl, l),
      )

  better-IsFaithful :
      (b c : TransformedPlan)
      → IsFaithful b
      → IsFaithful c
      → IsFaithful (better_transformed (some b) c)
  unfolding better_transformed
  better-IsFaithful b c f g = either (key_lt (candidate_key c) (candidate_key b))
    where
      either : (u : Bool) → IsFaithful (if u then c else b)
      either true = g
      either false = f

  try-IsFaithful :
      (k : ℕ) (ts : List Transform) (b : TransformedPlan)
      → IsFaithful b
      → (c : TransformedPlan) × (try_transforms sha256 xs k ts (some b) ≡ ok (some c))
        × IsFaithful c
  unfolding try_transforms
  try-IsFaithful k [] b f = (b, refl, f)
  try-IsFaithful k (t ∷ ts) b f =
      let (c, e, g) = candidate-IsFaithful k t in
      let (d, e', g') =
        try-IsFaithful (k + 1) ts (better_transformed (some b) c) (better-IsFaithful b c f g) in
      (d, rw e e', g')

  checked : (c : TransformedPlan) → IsFaithful c → check_best sha256 xs c ≡ ok c
  unfolding check_best apply_transform
  checked c (out, e, e', i, b, _, o, _) =
      rw (e, optimize-checked sha256 out c.plan b e', i, o, (eq_iff (sha256 xs) (sha256 xs)).1 refl)
        refl

  pub transformed-IsFaithful :
      (p : TransformedPlan) × (optimize_transformed_residual_plan sha256 xs ≡ ok p) × IsFaithful p
  unfolding optimize_transformed_residual_plan try_transforms
  transformed-IsFaithful =
      let (b, e, f) = candidate-IsFaithful 0 identity in
      let (c, e', f') = try-IsFaithful 1 later_transforms b f in (c, rw (e, e') (checked c f'), f')

  -- For bytes, a transformed plan is always returned. Its plan reconstructs the output of its
  -- transform, which the transform inverts to the data, and it records the hashes of both.
  pub transformed-reconstructs :
      (p : TransformedPlan) × (out : List ℕ) × (g : List ℕ) × (optimize_transformed_residual_plan
          sha256 xs
        ≡ ok p)
      × (apply_transform_with_param (some p.transform) xs ≡ ok (out, p.transform_param))
      × (synthesize_basis (some p.plan.basis) p.plan.start_byte (length out) p.plan.delta ≡ ok g)
      × (apply_residuals g p.plan.residuals ≡ ok out)
      × (invert_transform (some p.transform) out p.transform_param ≡ ok xs)
      × (p.plan.sha256 ≡ sha256 out)
      × (p.transformed_sha256 ≡ sha256 out)
      × (p.original_sha256 ≡ sha256 xs)
  transformed-reconstructs =
      let (c, e, (out, t, p, i, bytes, k, o, _)) = transformed-IsFaithful in
      let v = optimize-IsSound sha256 out c.plan bytes p in
      (c, out, v.generated, e, t, v.generates, v.patches_exact, i, v.hash_right, k, o)
