-- ===== src/Container/Plans.antt =====
-- bogvm/container.py: the plans that `build_bog_container_v1` makes a container of.
use bogbin.Common.{
  ℕ, ◌≤◌, ◌<◌, Bool, true, false, some, List, [], ◌∷◌, ◌++◌, All, ok, String, ◌≡◌, refl, sym, ◌∙◌,
  arith, subst, append-nil, append_assoc,
}
use bogbin.Common.Bits.{IsByte}
use bogbin.Optimizer.Transformed.{key_lt}
use bogbin.Optimizer.Chunks.{ChunkedPlan, tournament_transforms}
use bogbin.Optimizer.Coverage.{
  IsChunkedPlan, optimize_chunked-IsChunkedPlan, optimize_transformed_chunked-IsChunkedPlan,
}
use bogbin.Container.Records.{TournamentResult, sizes}
use bogbin.Container.Validate.{counts_sum}
use bogbin.Container.Counts.{counts_sum-transforms}
use bogbin.Container.Build.{
  counts_of, optimize_chunked_plan, size_key, better_size, result_of, try_sizes,
  optimize_adaptive_chunked_residual_plan,
}

module _ (sha256 : List ℕ → String) (round_quotient : ℕ → ℕ → ℕ) (bytes : List ℕ)
    (tournament : Bool) where
  -- A chunk size, the result of its plan, and a plan that has no more residuals than it.
  abbrev pub IsBeaten : ChunkedPlan → ℕ → TournamentResult → Type 0
  IsBeaten p n r =
      (q : ChunkedPlan) × (optimize_chunked_plan round_quotient sha256 bytes n tournament ≡ ok q)
      × (q.chunk_size ≡ n)
      × (r ≡ result_of round_quotient sha256 bytes q)
      × (p.total_residual_count ≤ q.total_residual_count)

  -- One result for each of the chunk sizes, in their order, and a plan that has no more residuals
  -- than any of their plans.
  abbrev pub IsLeast : ChunkedPlan → List ℕ → List TournamentResult → Type 0
  IsLeast p [] [] = Unit
  IsLeast p [] (r ∷ rs) = ⊥
  IsLeast p (n ∷ ns) [] = ⊥
  IsLeast p (n ∷ ns) (r ∷ rs) = IsBeaten p n r × IsLeast p ns rs

  IsLeast-below :
      (p q : ChunkedPlan) (ns : List ℕ) (rs : List TournamentResult)
      → q.total_residual_count ≤ p.total_residual_count
      → IsLeast p ns rs
      → IsLeast q ns rs
  IsLeast-below p q [] [] h a = tt
  IsLeast-below p q [] (r ∷ rs) h a = absurd a
  IsLeast-below p q (n ∷ ns) [] h a = absurd a
  IsLeast-below p q (n ∷ ns) (r ∷ rs) h ((x, e, s, o, l), a) =
      ((x, e, s, o, omega arith), IsLeast-below p q ns rs h a)

  IsLeast-snoc :
      (p : ChunkedPlan) (ns : List ℕ) (rs : List TournamentResult) (n : ℕ) (r : TournamentResult)
      → IsLeast p ns rs
      → IsBeaten p n r
      → IsLeast p (ns ++ (n ∷ [])) (rs ++ (r ∷ []))
  IsLeast-snoc p [] [] n r a b = (b, tt)
  IsLeast-snoc p [] (x ∷ rs) n r a b = absurd a
  IsLeast-snoc p (m ∷ ns) [] n r a b = absurd a
  IsLeast-snoc p (m ∷ ns) (x ∷ rs) n r (h, a) b = (h, IsLeast-snoc p ns rs n r a b)

module _ (Allowed : ℕ → Type 0) (sha256 : List ℕ → String) (round_quotient : ℕ → ℕ → ℕ)
    (bytes : List ℕ) where
  -- A chunked plan for some allowed chunk size, whose transforms are counted right.
  pub record IsCounted (p : ChunkedPlan) : Type 0 where
    pub size : ℕ
    pub size_positive : 0 < size
    pub size_allowed : Allowed size
    pub chunked : IsChunkedPlan sha256 size bytes p
    pub counted : counts_sum (counts_of p) ≡ p.chunk_count

  abbrev pub IsInRange : ℕ → Type 0
  IsInRange n = (0 < n) × (n ≤ 65535) × Allowed n

  pub optimize_chunked_plan-IsCounted :
      (n : ℕ) (tournament : Bool)
      → All IsByte bytes
      → IsInRange n
      → (p : ChunkedPlan) × (optimize_chunked_plan round_quotient sha256 bytes n tournament ≡ ok p)
        × IsCounted p
        × (p.chunk_size ≡ n)
  unfolding optimize_chunked_plan
  optimize_chunked_plan-IsCounted n true b (h, k, a) =
      let (p, e, v, c, l) = optimize_transformed_chunked-IsChunkedPlan sha256 bytes n b h k in
      (
        p,
        e,
        record {
          size = n;
          size_positive = h;
          size_allowed = a;
          chunked = v;
          counted =
              rw c (counts_sum-transforms (tournament_transforms p.chunks) ∙ l ∙ sym v.count_right);
        },
        v.size_right,
      )
  optimize_chunked_plan-IsCounted n false b (h, k, a) =
      let (p, e, v, c) = optimize_chunked-IsChunkedPlan sha256 bytes n b h k in
      (
        p,
        e,
        record {
          size = n;
          size_positive = h;
          size_allowed = a;
          chunked = v;
          counted = rw c (omega arith);
        },
        v.size_right,
      )

  better_size-least :
      (best plan : ChunkedPlan)
      → ((better_size round_quotient sha256 bytes (some best) plan).total_residual_count
          ≤ best.total_residual_count)
        × ((better_size round_quotient sha256 bytes (some best) plan).total_residual_count
            ≤ plan.total_residual_count)
  unfolding better_size size_key key_lt
  better_size-least best plan = ground arith

  better_size-IsCounted :
      (best plan : ChunkedPlan)
      → IsCounted best
      → IsCounted plan
      → IsCounted (better_size round_quotient sha256 bytes (some best) plan)
  unfolding better_size
  better_size-IsCounted best plan b p = ground arith

  try_sizes_lem :
      (ns : List ℕ) (tournament : Bool) (best : ChunkedPlan) (done : List ℕ)
      (results : List TournamentResult)
      → All IsByte bytes
      → All IsInRange ns
      → IsCounted best
      → IsLeast sha256 round_quotient bytes tournament best done results
      → (p : ChunkedPlan) × (rs : List TournamentResult) × (try_sizes round_quotient sha256 bytes
            tournament ns
            (some best)
            results
          ≡ ok (some p, rs))
        × IsCounted p
        × IsLeast sha256 round_quotient bytes tournament p (done ++ ns) rs
  unfolding try_sizes
  try_sizes_lem [] tournament best done results b a c l = (
    best,
    results,
    refl,
    c,
    subst (λ ns. IsLeast sha256 round_quotient bytes tournament best ns results)
        (sym (append-nil done)) l,
  )
  try_sizes_lem (n ∷ ns) tournament best done results b (r, a) c l =
      let (p, e, v, s) = optimize_chunked_plan-IsCounted n tournament b r in
      let better = better_size round_quotient sha256 bytes (some best) p in
      let result = result_of round_quotient sha256 bytes p in
      let (u, w) = better_size-least best p in
      let (q, rs, e', v', l') =
        try_sizes_lem ns tournament better (done ++ (n ∷ [])) (results ++ (result ∷ [])) b a
          (better_size-IsCounted best p c v)
          (IsLeast-snoc sha256 round_quotient bytes tournament better done results n result
            (IsLeast-below sha256 round_quotient bytes tournament best better done results u l)
            (p, e, s, refl, w)) in
      (
        q,
        rs,
        rw e e',
        v',
        subst (λ xs. IsLeast sha256 round_quotient bytes tournament q xs rs)
            (append_assoc done (n ∷ []) ns) l',
      )

  pub adaptive-IsCounted :
      (tournament : Bool)
      → All IsByte bytes
      → All Allowed sizes
      → (p : ChunkedPlan) × (rs : List TournamentResult) × (optimize_adaptive_chunked_residual_plan
            round_quotient sha256 bytes tournament
          ≡ ok (p, rs))
        × IsCounted p
        × IsLeast sha256 round_quotient bytes tournament p sizes rs
  unfolding optimize_adaptive_chunked_residual_plan try_sizes better_size
  adaptive-IsCounted tournament b (a16, (a32, (a64, (a128, _)))) =
      let (p, e, v, s) =
        optimize_chunked_plan-IsCounted 16 tournament b (omega arith, omega arith, a16) in
      let (q, rs, e', v', l') =
        try_sizes_lem (32 ∷ 64 ∷ 128 ∷ []) tournament p (16 ∷ [])
          (result_of round_quotient sha256 bytes p ∷ []) b
          (
            (omega arith, omega arith, a32),
            ((omega arith, omega arith, a64), ((omega arith, omega arith, a128), tt)),
          )
          v ((p, e, s, refl, omega arith), tt) in
      (q, rs, rw (e, e') refl, v', l')
