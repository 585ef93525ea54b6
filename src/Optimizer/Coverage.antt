-- ===== src/Optimizer/Coverage.antt =====
-- bogvm/optimizer.py: the chunked plans, piece by piece.
use native.Mathlib.Nat.{div-mul-le_self, lt-div-mul-add, mul-le-mul_right, add-mul}
use bogbin.Common.{
  ℕ, zero, suc, true, false, ◌+◌, ◌-◌, ◌*◌, ◌≤◌, ◌<◌, Option, none, some, List, [], ◌∷◌, take, drop,
  length, All, leb, ltb, lt→ltb, ok, String, ◌≡◌, refl, sym, ap, arith, subst, option_case,
}
use bogbin.Common.Bits.{IsByte}
use bogbin.Transforms.{invert_transform}
use bogbin.Transforms.Names.{Transform, identity, is_bwt_transform}
use bogbin.Transforms.Parameter.{apply-parameter}
use bogbin.Optimizer.Plan.{Plan}
use bogbin.Optimizer.Exact.{IsSound, optimize-reconstructs, optimize-IsSound, optimize-checked}
use bogbin.Optimizer.Transformed.{TransformedPlan}
use bogbin.Optimizer.Reversible.{transformed-IsFaithful}
use bogbin.Optimizer.Chunks.{
  ChunkedPlan, total_residuals, optimize_chunked_residual_plan,
  optimize_transformed_chunked_residual_plan, count_transforms, tournament_transforms, no_counts,
  PlannedChunk, Planner, chunk_at, chunk_total, plan_chunks, plan_chunk, plan_transformed_chunk,
}

-- What `.get` reads of a plan: the transform, its parameter and the two hashes, with their defaults.
abbrev pub transform_of : Option TransformedPlan → Transform
transform_of t = option_case t identity (λ t. t.transform)

abbrev pub param_of : Option TransformedPlan → ℕ
param_of t = option_case t 0 (λ t. t.transform_param)

abbrev pub transformed_hash_of : Plan → Option TransformedPlan → String
transformed_hash_of p t = option_case t p.sha256 (λ t. t.transformed_sha256)

abbrev pub original_hash_of : Plan → Option TransformedPlan → String
original_hash_of p t = option_case t p.sha256 (λ t. t.original_sha256)

-- A plan with a transform.
abbrev pub IsTransformed : Option TransformedPlan → Type 0
IsTransformed none = ⊥
IsTransformed (some t) = Unit

length-tournament_transforms :
    (cs : List PlannedChunk)
    → All (λ c. IsTransformed c.transformed) cs
    → length (tournament_transforms cs) ≡ length cs
length-tournament_transforms [] a = refl
length-tournament_transforms (c ∷ cs) a = ground (arith, length-tournament_transforms cs)

All-drop : (n : ℕ) (xs : List ℕ) → All IsByte xs → All IsByte (drop n xs)
All-drop zero xs h = h
All-drop (suc n) [] h = tt
All-drop (suc n) (x ∷ xs) h = All-drop n xs h.1

All-take : (n : ℕ) (xs : List ℕ) → All IsByte xs → All IsByte (take n xs)
All-take zero xs h = tt
All-take (suc n) [] h = tt
All-take (suc n) (x ∷ xs) h = (h.0, All-take n xs h.1)

module _ (sha256 : List ℕ → String) where
  -- The plan is sound for some bytes that its transform, undone, turns into the piece.
  pub record IsPlanFor (piece : List ℕ) (p : Plan) (t : Option TransformedPlan) : Type 0 where
    pub out : List ℕ
    pub out_length : length out ≡ length piece
    pub sound : IsSound sha256 out p
    pub restores : invert_transform (some (transform_of t)) out (param_of t) ≡ ok piece
    pub param_small : param_of t ≤ length piece
    pub param_zero : is_bwt_transform (transform_of t) ≡ false → param_of t ≡ 0
    pub transformed_hash : transformed_hash_of p t ≡ sha256 out
    pub original_hash : original_hash_of p t ≡ sha256 piece

  -- A planner that succeeds on every byte string; what it says of the transform is `Kept`.
  abbrev pub IsPlanner : (Option TransformedPlan → Type 0) → Planner → Type 0
  IsPlanner Kept planner =
      (piece : List ℕ)
      → All IsByte piece
      → (p : Plan) × (t : Option TransformedPlan) × (planner piece ≡ ok (p, t))
        × IsPlanFor piece p t
        × Kept t

  plan_chunk-IsPlanner : IsPlanner (λ t. Unit) (plan_chunk sha256)
  unfolding plan_chunk invert_transform
  plan_chunk-IsPlanner piece b =
      let (p, g, e, _, _, _, _, _) = optimize-reconstructs sha256 piece b in
      let v = optimize-IsSound sha256 piece p b e in
      (
        record p { sha256 = sha256 piece },
        none,
        rw (e, optimize-checked sha256 piece p b e) refl,
        record {
          out = piece;
          out_length = refl;
          sound = record {
            length_right = v.length_right;
            hash_right = refl;
            count_right = v.count_right;
            patches_fit = v.patches_fit;
            generated = v.generated;
            generates = v.generates;
            patches_exact = v.patches_exact;
          };
          restores = refl;
          param_small = omega arith;
          param_zero = λ h. refl;
          transformed_hash = refl;
          original_hash = refl;
        },
        tt,
      )

  plan_transformed_chunk-IsPlanner : IsPlanner IsTransformed (plan_transformed_chunk sha256)
  unfolding plan_transformed_chunk
  plan_transformed_chunk-IsPlanner piece b =
      let (t, e, (out, a, p, i, bytes, k, o, l)) = transformed-IsFaithful sha256 piece b in
      let parameter = apply-parameter t.transform piece out t.transform_param a in
      (
        t.plan,
        some t,
        rw e refl,
        record {
          out = out;
          out_length = l;
          sound = optimize-IsSound sha256 out t.plan bytes p;
          restores = i;
          param_small = parameter.0;
          param_zero = parameter.1;
          transformed_hash = k;
          original_hash = o;
        },
        tt,
      )

  module _ (chunk_size : ℕ) (bytes : List ℕ) where
    -- The chunks from an index on, to the end of the data.
    abbrev pub IsPlannedFrom : ℕ → List PlannedChunk → Type 0
    IsPlannedFrom index [] = length bytes ≤ index * chunk_size
    IsPlannedFrom index (c ∷ cs) =
        (c.index ≡ index)
        × (c.offset ≡ index * chunk_size)
        × (index * chunk_size < length bytes)
        × IsPlanFor (chunk_at chunk_size bytes (index * chunk_size)) c.plan c.transformed
        × IsPlannedFrom (index + 1) cs

    total_covers : 0 < chunk_size → length bytes ≤ chunk_total chunk_size bytes * chunk_size
    total_covers h =
        omega (arith, lt-div-mul-add {a = length bytes + chunk_size - 1} {b = chunk_size} h)

    total_inside :
        (index : ℕ)
        → 0 < chunk_size
        → index < chunk_total chunk_size bytes
        → index * chunk_size < length bytes
    total_inside index h i =
        let below : index + 1 ≤ chunk_total chunk_size bytes = omega arith in
        omega (
          arith,
          div-mul-le_self (length bytes + chunk_size - 1) chunk_size,
          mul-le-mul_right chunk_size below,
          add-mul index 1 chunk_size,
        )

    plan_chunks_lem :
        (Kept : Option TransformedPlan → Type 0) (planner : Planner)
        → IsPlanner Kept planner
        → All IsByte bytes
        → 0 < chunk_size
        → (rounds index : ℕ) → index + rounds ≡ chunk_total chunk_size bytes
        → (cs : List PlannedChunk) × (plan_chunks planner chunk_size bytes rounds index ≡ ok cs)
          × (length cs ≡ rounds)
          × IsPlannedFrom index cs
          × All (λ c. Kept c.transformed) cs
    unfolding plan_chunks
    plan_chunks_lem Kept planner f b h zero index e =
        let ends : index ≡ chunk_total chunk_size bytes = omega arith in
        ([], refl, refl, subst (λ i. length bytes ≤ i * chunk_size) (sym ends) (total_covers h), tt)
    plan_chunks_lem Kept planner f b h (suc rounds) index e =
        let (p, t, r, v, q) = f (chunk_at chunk_size bytes (index * chunk_size)) (
          All-take chunk_size (drop (index * chunk_size) bytes)
            (All-drop (index * chunk_size) bytes b)) in
        let (cs, r', l, w, a) =
          plan_chunks_lem Kept planner f b h rounds (index + 1) (omega arith) in
        (
          record { index = index; offset = index * chunk_size; plan = p; transformed = t } ∷ cs,
          rw (r, r') refl,
          ap suc l,
          (refl, refl, total_inside index h (omega arith), v, w),
          (q, a),
        )

    -- A chunked plan of the data: its pieces cover them without gap or overlap, none of them empty,
    -- and each is restored by its plan.
    pub record IsChunkedPlan (p : ChunkedPlan) : Type 0 where
      pub size_right : p.chunk_size ≡ chunk_size
      pub count_right : p.chunk_count ≡ length p.chunks
      pub total_right : p.total_residual_count ≡ total_residuals p.chunks
      pub hash_right : p.whole_sha256 ≡ sha256 bytes
      pub length_right : p.length ≡ length bytes
      pub planned : IsPlannedFrom 0 p.chunks
      pub count_total : p.chunk_count ≡ chunk_total chunk_size bytes

  -- For bytes and a chunk size from 1 to 65535 the chunked plan is returned, with the pieces of the
  -- data in their order, each with a sound plan, and their number, hash and residuals counted right.
  pub optimize_chunked-IsChunkedPlan :
      (bytes : List ℕ) (chunk_size : ℕ)
      → All IsByte bytes
      → 0 < chunk_size
      → chunk_size ≤ 65535
      → (p : ChunkedPlan) × (optimize_chunked_residual_plan sha256 bytes chunk_size ≡ ok p)
        × IsChunkedPlan chunk_size bytes p
        × (p.transform_counts ≡ none)
  unfolding optimize_chunked_residual_plan
  optimize_chunked-IsChunkedPlan bytes n b h k =
      let (cs, e, l, w, _) =
        plan_chunks_lem n bytes (λ t. Unit) (plan_chunk sha256) plan_chunk-IsPlanner b h
          (chunk_total n bytes) 0 (omega arith) in
      let low : ltb 0 n ≡ true = lt→ltb 0 n h in
      let high : leb n 65535 ≡ true = ground arith in
      (
        _,
        rw (low, high, e) refl,
        record {
          size_right = refl;
          count_right = refl;
          total_right = refl;
          hash_right = refl;
          length_right = refl;
          planned = w;
          count_total = l;
        },
        refl,
      )

  -- The same for the chunked plan with the transform tournament; it also counts the
  -- transforms, one for each chunk.
  pub optimize_transformed_chunked-IsChunkedPlan :
      (bytes : List ℕ) (chunk_size : ℕ)
      → All IsByte bytes
      → 0 < chunk_size
      → chunk_size ≤ 65535
      → (p : ChunkedPlan) × (optimize_transformed_chunked_residual_plan sha256 bytes chunk_size
          ≡ ok p)
        × IsChunkedPlan chunk_size bytes p
        × (p.transform_counts ≡ some (count_transforms (tournament_transforms p.chunks) no_counts))
        × (length (tournament_transforms p.chunks) ≡ length p.chunks)
  unfolding optimize_transformed_chunked_residual_plan
  optimize_transformed_chunked-IsChunkedPlan bytes n b h k =
      let (cs, e, l, w, a) =
        plan_chunks_lem n bytes IsTransformed (plan_transformed_chunk sha256)
          plan_transformed_chunk-IsPlanner b h (chunk_total n bytes) 0 (omega arith) in
      let low : ltb 0 n ≡ true = lt→ltb 0 n h in
      let high : leb n 65535 ≡ true = ground arith in
      (
        _,
        rw (low, high, e) refl,
        record {
          size_right = refl;
          count_right = refl;
          total_right = refl;
          hash_right = refl;
          length_right = refl;
          planned = w;
          count_total = l;
        },
        refl,
        length-tournament_transforms cs a,
      )
