-- ===== src/Optimizer/Exact.antt =====
-- What `optimize_residual_plan` returns.
use bogbin.Common.{
  zero, suc, [], ◌∷◌, get_elem?, Result, subst, ℕ, ◌≤◌, true, Option, none, some, List, length, All,
  ok, str_eq, eq_iff, ==_refl, ◌≡◌, refl, sym, ap, ◌∙◌, arith, String,
}
use bogbin.Common.Bits.{IsByte}
use bogbin.Bases.{
  Basis, zero_block, repeat_byte, delta_u8, dictionary_u8, rle_u8, ramp_u8, triangle_u8, sine8_u8,
  fourier8_u8, basis_order, synthesize_basis,
}
use bogbin.Bases.Shape.{synthesize_shape}
use bogbin.Optimizer.Patches.{
  mismatches, residuals_from, apply_residuals, apply_residuals_exact, length-residuals_from,
  residuals_from-IsPatchList,
}
use bogbin.Residual.{IsPatchList}
use bogbin.Optimizer.Search.{Candidate, coefficient_tuples, try_bases}
use bogbin.Optimizer.Choice.{IsValid, IsAtMost, AtMost, ValidOption, try_bases_best}
use bogbin.Optimizer.Plan.{
  Plan, OptimizerError, assert_exact_reconstruction, plan_of, optimize_residual_plan,
}

All-get_elem? :
    {A : Type 0} (P : A → Type 0) (i : ℕ) (xs : List A) (x : A)
    → All P xs
    → get_elem? xs i ≡ some x
    → P x
All-get_elem? P i [] x a e = cc
All-get_elem? P zero (y ∷ ys) x a e = subst P (some_inj e) a.0
  where
    some_inj : {A : Type 0} {u v : A} → some u ≡ some v → u ≡ v
    some_inj q = cc
All-get_elem? P (suc i) (y ∷ ys) x a e = All-get_elem? P i ys x a.1 e

every_basis : (P : Basis → Type 0) → All P basis_order → (b : Basis) → P b
every_basis P a zero_block = a.0
every_basis P a repeat_byte = a.1.0
every_basis P a delta_u8 = a.1.1.0
every_basis P a dictionary_u8 = a.1.1.1.0
every_basis P a rle_u8 = a.1.1.1.1.0
every_basis P a ramp_u8 = a.1.1.1.1.1.0
every_basis P a triangle_u8 = a.1.1.1.1.1.1.0
every_basis P a sine8_u8 = a.1.1.1.1.1.1.1.0
every_basis P a fourier8_u8 = a.1.1.1.1.1.1.1.1.0

chosen :
    (xs : List ℕ)
    → (c : Candidate) × (try_bases xs 0 basis_order none ≡ ok (some c))
      × IsValid xs c
      × All (λ b. All (IsAtMost xs c b) (coefficient_tuples b xs)) basis_order
unfolding coefficient_tuples
chosen xs = let (r, e, v, _, m) = try_bases_best xs 0 basis_order none tt in some_of r e v m
  where
    some_of :
        (r : Option Candidate)
        → try_bases xs 0 basis_order none ≡ ok r
        → ValidOption xs r
        → All (λ b. All (AtMost xs r b) (coefficient_tuples b xs)) basis_order
        → (c : Candidate) × (try_bases xs 0 basis_order none ≡ ok (some c))
          × IsValid xs c
          × All (λ b. All (IsAtMost xs c b) (coefficient_tuples b xs)) basis_order
    some_of none e v m = absurd m.0.0
    some_of (some c) e v m = (c, e, v, m)

str_eq_self : (t : String) → str_eq t t ≡ true
str_eq_self t = (eq_iff t t).1 refl

same_plan : {r : Result OptimizerError Plan} {p q : Plan} → r ≡ ok p → r ≡ ok q → p ≡ q
same_plan e e' = cc

module _ (sha256 : List ℕ → String) where
  -- The plan with the entries of the candidate `c`, whose basis generates `g`.
  abbrev plan_with : List ℕ → Candidate → List ℕ → Plan
  plan_with xs c g = record {
    basis = c.basis;
    start_byte = c.start_byte;
    delta = c.delta;
    length = length xs;
    sha256 = sha256 xs;
    residual_count = c.residual_count;
    residuals = residuals_from 0 xs g;
    reconstructed_hash = sha256 xs;
  }

  plan_with-checked :
      (xs : List ℕ) (c : Candidate) (g : List ℕ)
      → synthesize_basis (some c.basis) c.start_byte (length xs) c.delta ≡ ok g
      → apply_residuals g (residuals_from 0 xs g) ≡ ok xs
      → c.residual_count ≡ length (residuals_from 0 xs g)
      → assert_exact_reconstruction sha256 (plan_with xs c g) xs ≡ ok tt
  unfolding assert_exact_reconstruction
  plan_with-checked xs c g e a n =
      rw
        (
          e,
          a,
          n,
          ==_refl (length xs),
          ==_refl (length (residuals_from 0 xs g)),
          str_eq_self (sha256 xs),
        )
        refl

  plan_of_valid :
      (xs : List ℕ) (c : Candidate) (g : List ℕ)
      → synthesize_basis (some c.basis) c.start_byte (length xs) c.delta ≡ ok g
      → apply_residuals g (residuals_from 0 xs g) ≡ ok xs
      → c.residual_count ≡ length (residuals_from 0 xs g)
      → plan_of sha256 xs c ≡ ok (plan_with xs c g)
  unfolding plan_of assert_exact_reconstruction
  plan_of_valid xs c g e a n =
      rw
        (
          e,
          a,
          n,
          ==_refl (length xs),
          ==_refl (length (residuals_from 0 xs g)),
          str_eq_self (sha256 xs),
        )
        refl

  planned :
      (xs : List ℕ)
      → All IsByte xs
      → (c : Candidate) × (g : List ℕ) × (optimize_residual_plan sha256 xs ≡ ok (plan_with xs c g))
        × (synthesize_basis (some c.basis) c.start_byte (length xs) c.delta ≡ ok g)
        × (apply_residuals g (residuals_from 0 xs g) ≡ ok xs)
        × (c.residual_count ≡ length (residuals_from 0 xs g))
        × All (λ b. All (IsAtMost xs c b) (coefficient_tuples b xs)) basis_order
  unfolding optimize_residual_plan
  planned xs h =
      let (c, e, (hs, hd, g, e', n), m) = chosen xs in
      let (g', e'', l, _, _) = synthesize_shape c.basis c.start_byte (length xs) c.delta hs hd in
      let same_length : length g ≡ length xs = length_of g g' e' e'' l in
      let a = apply_residuals_exact xs g same_length h in
      let n' = n ∙ sym (length-residuals_from 0 xs g) in
      (c, g, rw e (plan_of_valid xs c g e' a n'), e', a, n', m)
    where
      length_of :
          {E : Type 0} {r : Result E (List ℕ)} (g g' : List ℕ)
          → r ≡ ok g
          → r ≡ ok g'
          → length g' ≡ length xs
          → length g ≡ length xs
      length_of g g' p q l = cc

  -- A returned plan passes the final check again.
  pub optimize-checked :
      (xs : List ℕ) (p : Plan)
      → All IsByte xs
      → optimize_residual_plan sha256 xs ≡ ok p
      → assert_exact_reconstruction sha256 p xs ≡ ok tt
  optimize-checked xs p h e =
      let (c, g, e', s, a, n, _) = planned xs h in
      subst (λ q. assert_exact_reconstruction sha256 q xs ≡ ok tt) (same_plan e' e)
        (plan_with-checked xs c g s a n)

  -- A plan for the bytes `xs`: its entries describe them, and its basis and patches give them back.
  pub record IsSound (xs : List ℕ) (p : Plan) : Type 0 where
    pub length_right : p.length ≡ length xs
    pub hash_right : p.sha256 ≡ sha256 xs
    pub count_right : p.residual_count ≡ length p.residuals
    pub patches_fit : IsPatchList (length xs) 0 p.residuals
    pub generated : List ℕ
    pub generates : synthesize_basis (some p.basis) p.start_byte (length xs) p.delta ≡ ok generated
    pub patches_exact : apply_residuals generated p.residuals ≡ ok xs

  -- A returned plan is sound.
  pub optimize-IsSound :
      (xs : List ℕ) (p : Plan)
      → All IsByte xs
      → optimize_residual_plan sha256 xs ≡ ok p
      → IsSound xs p
  optimize-IsSound xs p h e =
      let (c, g, e', s, a, n, _) = planned xs h in
      subst (IsSound xs) (same_plan e' e) (record {
        length_right = refl;
        hash_right = refl;
        count_right = n;
        patches_fit = residuals_from-IsPatchList (length xs) 0 xs g (omega arith) h;
        generated = g;
        generates = s;
        patches_exact = a;
      })

  -- For bytes, a plan is always returned: it records their length and their hash, its basis
  -- generates from its coefficients bytes that its residuals turn into the data, and it counts
  -- these residuals.
  pub optimize-reconstructs :
      (xs : List ℕ)
      → All IsByte xs
      → (p : Plan) × (g : List ℕ) × (optimize_residual_plan sha256 xs ≡ ok p)
        × (p.length ≡ length xs)
        × (p.sha256 ≡ sha256 xs)
        × (p.residual_count ≡ length p.residuals)
        × (synthesize_basis (some p.basis) p.start_byte p.length p.delta ≡ ok g)
        × (apply_residuals g p.residuals ≡ ok xs)
  optimize-reconstructs xs h =
      let (c, g, e, e', a, n, _) = planned xs h in (plan_with xs c g, g, e, refl, refl, n, e', a)

  -- No basis, with any of the coefficients that are tried for it, generates bytes that differ from
  -- the data in fewer places than the returned plan has residuals.
  pub optimize-minimal :
      (xs : List ℕ) (p : Plan) (b : Basis) (i : ℕ) (t : ℕ × ℕ) (g : List ℕ)
      → All IsByte xs
      → optimize_residual_plan sha256 xs ≡ ok p
      → get_elem? (coefficient_tuples b xs) i ≡ some t
      → synthesize_basis (some b) t.0 (length xs) t.1 ≡ ok g
      → length p.residuals ≤ mismatches xs g
  optimize-minimal xs p b i t g h e m s =
      let (c, g', e', _, _, n, a) = planned xs h in
      let best : c.residual_count ≤ mismatches xs g =
        All-get_elem? (IsAtMost xs c b) i (coefficient_tuples b xs) t
          (every_basis (λ k. All (IsAtMost xs c k) (coefficient_tuples k xs)) a b) m g s in
      let q : length p.residuals ≡ c.residual_count =
        ap (λ r. length r) (ap Plan.residuals (same_plan e e')) ∙ sym n in
      omega arith
