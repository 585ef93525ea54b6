-- ===== src/Optimizer/Choice.antt =====
-- bogvm/optimizer.py: the loops of `optimize_residual_plan` over bases and coefficients.
use bogbin.Common.{
  ℕ, zero, suc, ◌+◌, ◌≤◌, ◌<◌, Option, none, some, List, [], ◌∷◌, ltb, if◌then◌else◌, length,
  length-set, replicate, All, Result, ok, ◌≡◌, refl, ◌∙◌, arith, Bool-cases, inl, inr,
}
use bogbin.Common.Bits.{IsByte}
use bogbin.Bases.{Basis, BasisError, synthesize_basis, zero_block, delta_u8, dictionary_u8, rle_u8}
use bogbin.Bases.Shape.{synthesize_shape}
use bogbin.Optimizer.Patches.{mismatches}
use bogbin.Optimizer.Search.{
  count_up, first_most, best_of, delta_counts, byte_counts, most_common_byte, pairs_from,
  coefficient_tuples, Candidate, is_better, better, candidate, try_tuples, try_bases, start_for,
}

first_most-lt :
    (best most value : ℕ) (cs : List ℕ) (bound : ℕ)
    → best < bound
    → value + length cs ≤ bound
    → first_most best most value cs < bound
unfolding first_most
first_most-lt best most value [] bound b h = b
first_most-lt best most value (c ∷ cs) bound b h =
    first_most-lt (if ltb most c then value else best) (if ltb most c then c else most) (value + 1)
      cs bound (ground arith) (omega arith)

best_of-lt : (cs : List ℕ) (bound : ℕ) → 0 < bound → length cs ≤ bound → best_of cs < bound
unfolding best_of
best_of-lt [] bound p h = p
best_of-lt (c ∷ cs) bound p h = first_most-lt 0 c 1 cs bound p (omega arith)

length-count_up : (v : ℕ) (cs : List ℕ) → length (count_up v cs) ≡ length cs
unfolding count_up
length-count_up v cs = length-set cs v _

length-delta_counts :
    (delta offset : ℕ) (xs cs : List ℕ) → length (delta_counts delta offset xs cs) ≡ length cs
unfolding delta_counts
length-delta_counts delta offset [] cs = refl
length-delta_counts delta offset (x ∷ xs) cs =
    length-delta_counts delta (offset + 1) xs (count_up (start_for x offset delta) cs)
    ∙ length-count_up (start_for x offset delta) cs

length-byte_counts : (xs cs : List ℕ) → length (byte_counts xs cs) ≡ length cs
unfolding byte_counts
length-byte_counts [] cs = refl
length-byte_counts (x ∷ xs) cs = length-byte_counts xs (count_up x cs) ∙ length-count_up x cs

most_common-IsByte : (xs : List ℕ) → IsByte (most_common_byte xs)
unfolding most_common_byte
most_common-IsByte [] = omega arith
most_common-IsByte (x ∷ xs) =
    best_of-lt (byte_counts (x ∷ xs) (replicate 256 0)) 256 (omega arith)
      (omega (arith, length-byte_counts (x ∷ xs) (replicate 256 0)))

-- Both coefficients are bytes.
abbrev AreBytes : ℕ × ℕ → Type 0
AreBytes t = IsByte t.0 × IsByte t.1

All-pairs_from :
    (f : ℕ → ℕ × ℕ) (k n : ℕ)
    → ((i : ℕ) → i < k + n → AreBytes (f i))
    → All AreBytes (pairs_from f k n)
unfolding pairs_from
All-pairs_from f k zero h = tt
All-pairs_from f k (suc n) h =
    (h k (omega arith), All-pairs_from f (k + 1) n (λ i p. h i (omega arith)))

zero-IsByte : IsByte 0
zero-IsByte = omega arith

coefficients-AreBytes : (b : Basis) (xs : List ℕ) → All AreBytes (coefficient_tuples b xs)
unfolding coefficient_tuples
coefficients-AreBytes zero_block xs = omega arith
coefficients-AreBytes delta_u8 xs = All-pairs_from _ 0 256 (λ i p. (
  best_of-lt (delta_counts i 0 xs (replicate 256 0)) 256 (omega arith)
      (omega (arith, length-delta_counts i 0 xs (replicate 256 0))),
  p,
))
coefficients-AreBytes dictionary_u8 xs = ((most_common-IsByte xs, zero-IsByte), tt)
coefficients-AreBytes rle_u8 xs = ((most_common-IsByte xs, zero-IsByte), tt)
coefficients-AreBytes _ xs = All-pairs_from (λ start. (start, 0)) 0 256 (λ i p. (p, zero-IsByte))

coefficients_some :
    (b : Basis) (xs : List ℕ)
    → (t : ℕ × ℕ) × (ts : List (ℕ × ℕ)) × (coefficient_tuples b xs ≡ t ∷ ts)
unfolding coefficient_tuples
coefficients_some zero_block xs = (_, _, refl)
coefficients_some _ xs = (_, _, refl)

module _ (xs : List ℕ) where
  -- The candidate stands for what its basis generates from its coefficients.
  abbrev pub IsValid : Candidate → Type 0
  IsValid c =
      IsByte c.start_byte
      × IsByte c.delta
      × (g : List ℕ) × (synthesize_basis (some c.basis) c.start_byte (length xs) c.delta ≡ ok g)
      × (c.residual_count ≡ mismatches xs g)

  -- It differs from the data in no more bytes than the output of `b` for the coefficients `t`.
  abbrev pub IsAtMost : Candidate → Basis → ℕ × ℕ → Type 0
  IsAtMost c b t =
      (g : List ℕ)
      → synthesize_basis (some b) t.0 (length xs) t.1 ≡ ok g
      → c.residual_count ≤ mismatches xs g

  abbrev pub ValidOption : Option Candidate → Type 0
  ValidOption none = Unit
  ValidOption (some c) = IsValid c

  abbrev pub AtMost : Option Candidate → Basis → ℕ × ℕ → Type 0
  AtMost none b t = ⊥
  AtMost (some c) b t = IsAtMost c b t

  abbrev pub NoWorse : Option Candidate → Option Candidate → Type 0
  NoWorse r none = Unit
  NoWorse none (some b) = ⊥
  NoWorse (some c) (some b) = c.residual_count ≤ b.residual_count

  NoWorse-refl : (r : Option Candidate) → NoWorse r r
  NoWorse-refl none = tt
  NoWorse-refl (some c) = omega arith

  NoWorse-trans : (r s t : Option Candidate) → NoWorse r s → NoWorse s t → NoWorse r t
  NoWorse-trans r s none h i = tt
  NoWorse-trans r none (some t) h i = absurd i
  NoWorse-trans none (some s) (some t) h i = absurd h
  NoWorse-trans (some r) (some s) (some t) h i = omega arith

  AtMost-NoWorse :
      (r s : Option Candidate) (b : Basis) (t : ℕ × ℕ) → NoWorse r s → AtMost s b t → AtMost r b t
  AtMost-NoWorse r none b t h i = absurd i
  AtMost-NoWorse none (some s) b t h i = absurd h
  AtMost-NoWorse (some r) (some s) b t h i = λ g e. le_trans' h (i g e)
    where
      le_trans' : {x y z : ℕ} → x ≤ y → y ≤ z → x ≤ z
      le_trans' p q = omega arith

  All-NoWorse :
      (r s : Option Candidate) (b : Basis) (ts : List (ℕ × ℕ))
      → NoWorse r s
      → All (AtMost s b) ts
      → All (AtMost r b) ts
  All-NoWorse r s b [] h a = tt
  All-NoWorse r s b (t ∷ ts) h a = (AtMost-NoWorse r s b t h a.0, All-NoWorse r s b ts h a.1)

  better-IsValid :
      (best : Option Candidate) (c : Candidate)
      → ValidOption best
      → IsValid c
      → IsValid (better best c)
  better-IsValid none c v w = unfold better in w
  better-IsValid (some b) c v w = elim (Bool-cases (is_better c b)) [
    | inl e ↦ unfold better in rw e w
    | inr e ↦ unfold better in rw e v
  ]

  better_le :
      (best : Option Candidate) (c : Candidate)
      → ((better best c).residual_count ≤ c.residual_count) × NoWorse (some (better best c)) best
  unfolding better is_better
  better_le none c = (omega arith, tt)
  better_le (some b) c = ground arith

  one_output :
      {r : Result BasisError (List ℕ)} (g g' : List ℕ)
      → r ≡ ok g
      → r ≡ ok g'
      → mismatches xs g ≤ mismatches xs g'
  one_output g g' e e' = let p : mismatches xs g ≡ mismatches xs g' = cc in omega arith

  candidate-IsValid :
      (b : Basis) (k : ℕ) (t : ℕ × ℕ)
      → AreBytes t
      → (c : Candidate) × (candidate xs b k t ≡ ok c) × IsValid c × IsAtMost c b t
  unfolding candidate
  candidate-IsValid b k t h =
      let (g, e, _, _, _) = synthesize_shape b t.0 (length xs) t.1 h.0 h.1 in
      (
        record {
          basis = b;
          basis_index = k;
          start_byte = t.0;
          delta = t.1;
          residual_count = mismatches xs g;
        },
        rw e refl,
        (h.0, h.1, g, e, refl),
        λ g' e'. one_output g g' e e',
      )

  -- What a loop over coefficients or bases returns.
  try_tuples_best :
      (b : Basis) (k : ℕ) (ts : List (ℕ × ℕ)) (best : Option Candidate)
      → All AreBytes ts
      → ValidOption best
      → (r : Option Candidate) × (try_tuples xs b k ts best ≡ ok r)
        × ValidOption r
        × NoWorse r best
        × All (AtMost r b) ts
  unfolding try_tuples
  try_tuples_best b k [] best a v = (best, refl, v, NoWorse-refl best, tt)
  try_tuples_best b k (t ∷ ts) best a v =
      let (c, e, w, m) = candidate-IsValid b k t a.0 in
      let (l, n) = better_le best c in
      let (r, e', v', n', m') =
        try_tuples_best b k ts (some (better best c)) a.1 (better-IsValid best c v w) in
      (
        r,
        rw e e',
        v',
        NoWorse-trans r (some (better best c)) best n' n,
        (
          AtMost-NoWorse r (some c) b t (NoWorse-trans r (some (better best c)) (some c) n' l) m,
          m',
        ),
      )

  pub try_bases_best :
      (k : ℕ) (bs : List Basis) (best : Option Candidate)
      → ValidOption best
      → (r : Option Candidate) × (try_bases xs k bs best ≡ ok r)
        × ValidOption r
        × NoWorse r best
        × All (λ b. All (AtMost r b) (coefficient_tuples b xs)) bs
  unfolding try_bases
  try_bases_best k [] best v = (best, refl, v, NoWorse-refl best, tt)
  try_bases_best k (b ∷ bs) best v =
      let (s, e, v', n, m) =
        try_tuples_best b k (coefficient_tuples b xs) best (coefficients-AreBytes b xs) v in
      let (r, e', v'', n', m') = try_bases_best (k + 1) bs s v' in
      (
        r,
        rw e e',
        v'',
        NoWorse-trans r s best n' n,
        (All-NoWorse r s b (coefficient_tuples b xs) n' m, m'),
      )
