-- ===== src/Container/Valid.antt =====
-- bogvm/container.py: `validate_bog_container` on the containers of chunked plans.
use native.Mathlib.Nat.{add-mul}
use bogbin.Common.{
  ℕ, ◌+◌, ◌*◌, ◌<◌, Bool, true, false, Option, none, some, List, [], ◌∷◌, map, drop, length,
  length-take, length-drop, length-map, leb, ltb, ◌==◌, ==_iff, ==_refl, lt→ltb, ok, ◌>>=◌, String,
  str_eq, eq_iff, ◌≡◌, refl, sym, ap, ◌∙◌, subst, arith,
}
use bogbin.Common.ByteStrings.{bytes_eq}
use bogbin.Bases.Shape.{synthesize_inverse}
use bogbin.Residual.{Residual, IsPatchList}
use bogbin.Optimizer.Chunks.{PlannedChunk, ChunkedPlan, chunk_at, total_residuals}
use bogbin.Optimizer.Coverage.{IsPlanFor, IsPlannedFrom, IsChunkedPlan}
use bogbin.Container.Records.{TournamentResult, is_sha256, chunk_name}
use bogbin.Container.Validate.{
  validate_patches, validate_chunk, validate_chunks, validate_tournament_metadata,
  validate_transform_metadata, validate_bog_container, residual_sum, counts_sum,
}
use bogbin.Container.Build.{chunk_of, counts_of, build_bog_container_from_plan}

first_of : Option ℕ → ℕ
first_of none = 0
first_of (some previous) = previous + 1

validate_patches_lem :
    (n : ℕ) (previous : Option ℕ) (ps : List Residual)
    → IsPatchList n (first_of previous) ps
    → validate_patches n previous ps ≡ ok tt
unfolding validate_patches first_of
validate_patches_lem n previous [] h = refl
validate_patches_lem n none (p ∷ ps) (a, b, c, d) =
    let inside : ltb p.offset n ≡ true = lt→ltb p.offset n b in
    let small : leb p.byte 255 ≡ true = ground arith in
    rw (inside, small) (validate_patches_lem n (some p.offset) ps d)
validate_patches_lem n (some q) (p ∷ ps) (a, b, c, d) =
    let inside : ltb p.offset n ≡ true = lt→ltb p.offset n b in
    let later : ltb q p.offset ≡ true = lt→ltb q p.offset (omega arith) in
    let small : leb p.byte 255 ≡ true = ground arith in
    rw (inside, later, small) (validate_patches_lem n (some p.offset) ps d)

pub str_same : (s : String) → str_eq s s ≡ true
str_same s = (eq_iff s s).1 refl

module _ (sha256 : List ℕ → String) (is_digest : (xs : List ℕ) → is_sha256 (sha256 xs) ≡ true)
    (n : ℕ) (bytes : List ℕ) where
  validate_chunk_lem :
      (c : PlannedChunk) (index : ℕ)
      → c.index ≡ index
      → c.offset ≡ index * n
      → index * n < length bytes
      → 0 < n
      → IsPlanFor sha256 (chunk_at n bytes (index * n)) c.plan c.transformed
      → validate_chunk (chunk_of c) index (index * n) n ≡ ok tt
  unfolding validate_chunk chunk_of
  validate_chunk_lem c index i o b h v =
      let piece : List ℕ = chunk_at n bytes (index * n) in
      let size : length piece ≡ _ = length-take n (drop (index * n) bytes) in
      let s = v.sound in
      let long : c.plan.length ≡ length piece = s.length_right ∙ v.out_length in
      let (hs, hd, _, _) =
        synthesize_inverse c.plan.basis c.plan.start_byte (length v.out) c.plan.delta s.generated
          s.generates in
      let e1 : (c.index == index) ≡ true = (==_iff c.index index).1 i in
      let e2 : str_eq (chunk_name c.index) (chunk_name index) ≡ true =
        subst (λ k. str_eq (chunk_name k) (chunk_name index) ≡ true) (sym i)
          (str_same (chunk_name index)) in
      let e3 : (c.offset == index * n) ≡ true = (==_iff c.offset (index * n)).1 o in
      let e4 : leb c.plan.length n ≡ true = ground (arith, size, length-drop (index * n) bytes) in
      let e5 : ltb 0 c.plan.length ≡ true = ground (arith, size, length-drop (index * n) bytes) in
      let e6 : leb c.plan.start_byte 255 ≡ true = ground arith in
      let e7 : leb c.plan.delta 255 ≡ true = ground arith in
      let e8 : (length c.plan.residuals == c.plan.residual_count) ≡ true =
        (==_iff (length c.plan.residuals) c.plan.residual_count).1 (sym s.count_right) in
      let e9 : is_sha256 c.plan.sha256 ≡ true = ap is_sha256 s.hash_right ∙ is_digest v.out in
      let e10 = ap is_sha256 v.transformed_hash ∙ is_digest v.out in
      let e11 = ap is_sha256 v.original_hash ∙ is_digest piece in
      let e12 : validate_patches c.plan.length none c.plan.residuals ≡ ok tt =
        subst (λ k. validate_patches k none c.plan.residuals ≡ ok tt) (sym s.length_right)
          (validate_patches_lem (length v.out) none c.plan.residuals
            (unfold first_of in s.patches_fit)) in
      rw (e1, e2, e3, e4, e5, e6, e7, e8, e9, e10, e11, e12) refl

  validate_chunks_lem :
      (cs : List PlannedChunk) (index offset : ℕ)
      → 0 < n
      → (index * n < length bytes → offset ≡ index * n)
      → IsPlannedFrom sha256 n bytes index cs
      → validate_chunks (map chunk_of cs) index offset n ≡ ok tt
  unfolding validate_chunks
  validate_chunks_lem [] index offset h o p = refl
  validate_chunks_lem (c ∷ cs) index offset h o (i, k, b, v, p) =
      subst
        (λ x.
          (validate_chunk (chunk_of c) index x n >>= λ _.
          validate_chunks (map chunk_of cs) (index + 1) (x + (chunk_of c).length) n)
          ≡ ok tt)
        (sym (o b))
        (rw (validate_chunk_lem c index i k b h v)
          (validate_chunks_lem cs (index + 1) (index * n + (chunk_of c).length) h next p))
    where
      next : (index + 1) * n < length bytes → index * n + (chunk_of c).length ≡ (index + 1) * n
      next m =
          let long : (chunk_of c).length ≡ length (chunk_at n bytes (index * n)) =
            unfold chunk_of in v.sound.length_right ∙ v.out_length in
          omega (
            arith,
            add-mul index 1 n,
            length-take n (drop (index * n) bytes),
            length-drop (index * n) bytes,
          )

  residual_sum-map : (cs : List PlannedChunk) → residual_sum (map chunk_of cs) ≡ total_residuals cs
  unfolding chunk_of
  residual_sum-map [] = refl
  residual_sum-map (c ∷ cs) = ap (λ k. c.plan.residual_count + k) (residual_sum-map cs)

  module _ (round_quotient : ℕ → ℕ → ℕ) where
    metadata_lem :
        (p : ChunkedPlan) (auto_chunk transform_tournament : Bool) (results : List TournamentResult)
        → 0 < p.chunk_size
        → counts_sum (counts_of p) ≡ p.chunk_count
        → (validate_tournament_metadata (
              build_bog_container_from_plan round_quotient p auto_chunk results
                transform_tournament)
            ≡ ok tt)
          × (validate_transform_metadata (
                build_bog_container_from_plan round_quotient p auto_chunk results
                  transform_tournament)
              ≡ ok tt)
    unfolding build_bog_container_from_plan validate_tournament_metadata validate_transform_metadata
        bytes_eq
    metadata_lem p auto tournament results h s = (sizes_right auto, transforms_right tournament)
      where
        total : (counts_sum (counts_of p) == p.chunk_count) ≡ true
        total = (==_iff (counts_sum (counts_of p)) p.chunk_count).1 s

        sizes_right :
            (b : Bool)
            → validate_tournament_metadata
                (build_bog_container_from_plan round_quotient p b results tournament)
              ≡ ok tt
        sizes_right true = rw (==_refl p.chunk_size, ==_refl p.total_residual_count) refl
        sizes_right false =
            rw (lt→ltb 0 p.chunk_size h, ==_refl p.chunk_size, ==_refl p.total_residual_count) refl

        transforms_right :
            (b : Bool)
            → validate_transform_metadata
                (build_bog_container_from_plan round_quotient p auto results b)
              ≡ ok tt
        transforms_right true = rw total refl
        transforms_right false = rw total refl

    -- The container of a chunked plan whose transforms are counted right is valid, whatever the
    -- flags and the results of a tournament.
    pub build-IsValid :
        (p : ChunkedPlan) (auto_chunk transform_tournament : Bool) (results : List TournamentResult)
        → 0 < n
        → IsChunkedPlan sha256 n bytes p
        → counts_sum (counts_of p) ≡ p.chunk_count
        → validate_bog_container
            (build_bog_container_from_plan round_quotient p auto_chunk results transform_tournament)
          ≡ ok tt
    unfolding validate_bog_container build_bog_container_from_plan
    build-IsValid p auto tournament results h v s =
        let positive : 0 < p.chunk_size = omega (arith, v.size_right) in
        let (m, t) = metadata_lem p auto tournament results positive s in
        let e1 : ltb 0 p.chunk_size ≡ true = lt→ltb 0 p.chunk_size positive in
        let e2 : is_sha256 p.whole_sha256 ≡ true = ap is_sha256 v.hash_right ∙ is_digest bytes in
        let e3 : (length (map chunk_of p.chunks) == p.chunk_count) ≡ true =
          (==_iff (length (map chunk_of p.chunks)) p.chunk_count).1
            (length-map chunk_of p.chunks ∙ sym v.count_right) in
        let e4 : validate_chunks (map chunk_of p.chunks) 0 0 p.chunk_size ≡ ok tt =
          subst (λ k. validate_chunks (map chunk_of p.chunks) 0 0 k ≡ ok tt) (sym v.size_right)
            (validate_chunks_lem p.chunks 0 0 h (λ _. omega arith) v.planned) in
        let e5 : (residual_sum (map chunk_of p.chunks) == p.total_residual_count) ≡ true =
          (==_iff (residual_sum (map chunk_of p.chunks)) p.total_residual_count).1
            (residual_sum-map p.chunks ∙ sym v.total_right) in
        rw (e1, e2, e3, e4, e5, m, t) refl
