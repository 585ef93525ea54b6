-- ===== src/Container/Counts.antt =====
-- bogvm/container.py and bogvm/optimizer.py: the transforms that a chunked plan counts.
use bogbin.Common.{◌+◌, Bool, true, false, List, [], ◌∷◌, length, ◌||◌, ◌==◌, ◌≡◌, refl, ◌∙◌, arith}
use bogbin.Transforms.Names.{
  Transform, identity, xor_previous, delta_previous, nibble_split, mtf, bwt, bwt_mtf,
}
use bogbin.Optimizer.Chunks.{Counts, transform_id, bump, no_counts, count_transforms}
use bogbin.Container.Validate.{counts_sum}

abbrev holds : Transform → Counts → Bool
holds t [] = false
holds t ((u, n) ∷ counts) = transform_id u == transform_id t || holds t counts

counts_sum-bump :
    (t : Transform) (counts : Counts)
    → holds t counts ≡ true
    → counts_sum (bump t counts) ≡ counts_sum counts + 1
unfolding bump
counts_sum-bump t [] h = cc
counts_sum-bump t ((u, n) ∷ counts) h = ground (arith, counts_sum-bump t counts)

holds-bump : (t u : Transform) (counts : Counts) → holds u (bump t counts) ≡ holds u counts
unfolding bump
holds-bump t u [] = refl
holds-bump t u ((v, n) ∷ counts) = ground (arith, holds-bump t u counts)

counts_sum-count_transforms :
    (ts : List Transform) (counts : Counts)
    → ((t : Transform) → holds t counts ≡ true)
    → counts_sum (count_transforms ts counts) ≡ counts_sum counts + length ts
unfolding count_transforms
counts_sum-count_transforms [] counts h = omega arith
counts_sum-count_transforms (t ∷ ts) counts h = omega (
  arith,
  counts_sum-count_transforms ts (bump t counts) (λ u. holds-bump t u counts ∙ h u),
  counts_sum-bump t counts (h t),
)

holds-no_counts : (t : Transform) → holds t no_counts ≡ true
unfolding transform_id
holds-no_counts identity = refl
holds-no_counts xor_previous = refl
holds-no_counts delta_previous = refl
holds-no_counts nibble_split = refl
holds-no_counts mtf = refl
holds-no_counts bwt = refl
holds-no_counts bwt_mtf = refl

-- The counts of a list of transforms sum up to its length.
pub counts_sum-transforms :
    (ts : List Transform) → counts_sum (count_transforms ts no_counts) ≡ length ts
counts_sum-transforms ts = omega (arith, counts_sum-count_transforms ts no_counts holds-no_counts)
