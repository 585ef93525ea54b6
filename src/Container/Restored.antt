-- ===== src/Container/Restored.antt =====
-- bogvm/container.py: `reconstruct_bog_container_bytes` on the containers of chunked plans.
use native.Mathlib.Nat.{add-mul}
use bogbin.Common.{
  ℕ, zero, suc, ◌+◌, ◌*◌, ◌≤◌, ◌<◌, Bool, true, not, Option, none, some, List, [], ◌∷◌, ◌++◌, map,
  ap₂, take, drop, take-append-drop, take_all, length, length-map, set, ok, String, str_eq, eq_iff,
  ◌≡◌, refl, sym, ap, ◌∙◌, subst, arith,
}
use bogbin.Common.Dict
use bogbin.Common.Dict.{Dict}
use bogbin.Bases.{synthesize_basis}
use bogbin.Residual.{Residual}
use bogbin.Optimizer.Patches.{apply_from, apply_residuals}
use bogbin.Optimizer.Chunks.{PlannedChunk, ChunkedPlan, chunk_at}
use bogbin.Optimizer.Coverage.{
  IsPlanFor, IsPlannedFrom, IsChunkedPlan, transformed_hash_of, original_hash_of,
}
use bogbin.Container.Records.{Chunk, TournamentResult, is_sha256}
use bogbin.Container.Validate.{counts_sum}
use bogbin.Container.Build.{chunk_of, counts_of, build_bog_container_from_plan}
use bogbin.Container.Valid.{build-IsValid}
use bogbin.Container.Reconstruct.{
  index_chunks, all_below, all_keys, apply_patches, restore_chunk, restore_chunks,
  reconstruct_bog_container_bytes,
}

-- The looser loop agrees with `_apply_residuals` where that one succeeds.
pub apply_patches-apply_from :
    (previous : Option ℕ) (ps : List Residual) (bytes out : List ℕ)
    → apply_from previous ps bytes ≡ ok out
    → apply_patches ps bytes ≡ ok out
unfolding apply_from apply_patches
apply_patches-apply_from previous [] bytes out e = cc
apply_patches-apply_from previous (p ∷ ps) bytes out e =
    ground (arith, apply_patches-apply_from (some p.offset) ps (set bytes p.offset p.byte) out)

-- The chunks stand in the dict under the indices from `index` on.
abbrev pub StandsFrom : Dict Chunk → ℕ → List Chunk → Type 0
StandsFrom d index [] = Unit
StandsFrom d index (c ∷ cs) = (Dict.get index d ≡ some c) × StandsFrom d (index + 1) cs

abbrev pub IsIndexed : ℕ → List Chunk → Type 0
IsIndexed index [] = Unit
IsIndexed index (c ∷ cs) = (c.index ≡ index) × IsIndexed (index + 1) cs

all_below-put :
    (m k : ℕ) (c : Chunk) (d : Dict Chunk)
    → k < m
    → all_below m (Dict.keys d) ≡ true
    → all_below m (Dict.keys (Dict.put k c d)) ≡ true
unfolding Dict.put
all_below-put m k c [] h a = ground arith
all_below-put m k c ((j, b) ∷ d) h a = ground (arith, all_below-put m k c d h)

pub all_keys_lem :
    (m : ℕ) (d : Dict Chunk) → ((j : ℕ) → j < m → Dict.contains j d ≡ true) → all_keys m d ≡ true
all_keys_lem zero d h = refl
all_keys_lem (suc m) d h = rw (h m (omega arith)) (all_keys_lem m d (λ j p. h j (omega arith)))

pub index_chunks_lem :
    (cs : List Chunk) (m index : ℕ) (d : Dict Chunk)
    → IsIndexed index cs
    → index + length cs ≤ m
    → ((j : ℕ) → index ≤ j → Dict.get j d ≡ none)
    → ((j : ℕ) → j < index → Dict.contains j d ≡ true)
    → all_below m (Dict.keys d) ≡ true
    → (d' : Dict Chunk) × (index_chunks cs d ≡ ok d')
      × StandsFrom d' index cs
      × ((j : ℕ) → j < index → Dict.get j d' ≡ Dict.get j d)
      × ((j : ℕ) → j < index + length cs → Dict.contains j d' ≡ true)
      × (all_below m (Dict.keys d') ≡ true)
unfolding index_chunks
index_chunks_lem [] m index d i l f k b = (d, refl, tt, λ j h. refl, λ j h. k j (omega arith), b)
index_chunks_lem (c ∷ cs) m index d (i, is) l f k b =
    let fresh : Dict.get c.index d ≡ none = f c.index (omega (arith, i)) in
    let absent : not (Dict.contains c.index d) ≡ true = rw (fresh, Dict.contains) refl in
    let (d', e, s, g, k', b') =
      index_chunks_lem cs m (index + 1) (Dict.put c.index c d) is (omega arith) still_fresh known
        (all_below-put m c.index c d (omega (arith, i)) b) in
    (
      d',
      rw absent e,
      (g index (omega arith) ∙ here, s),
      λ j h. g j (omega arith) ∙ older j h,
      λ j h. k' j (omega arith),
      b',
    )
  where
    still_fresh : (j : ℕ) → index + 1 ≤ j → Dict.get j (Dict.put c.index c d) ≡ none
    still_fresh j h = ground (arith, i, Dict.get-put c.index j c d, f j)

    known : (j : ℕ) → j < index + 1 → Dict.contains j (Dict.put c.index c d) ≡ true
    known j h = ground (arith, i, Dict.get-put c.index j c d, k j)

    here : Dict.get index (Dict.put c.index c d) ≡ some c
    here = subst (λ j. Dict.get j (Dict.put c.index c d) ≡ some c) i (Dict.get-put_self c.index c d)

    older : (j : ℕ) → j < index → Dict.get j (Dict.put c.index c d) ≡ Dict.get j d
    older j h = ground (arith, i, Dict.get-put c.index j c d)

pub drop_all : (n : ℕ) (xs : List ℕ) → length xs ≤ n → drop n xs ≡ []
drop_all zero [] h = refl
drop_all zero (x ∷ xs) h = absurd (omega arith)
drop_all (suc n) [] h = refl
drop_all (suc n) (x ∷ xs) h = drop_all n xs (omega arith)

-- A piece and what comes after it are what comes from its start.
pub take-drop : (i n : ℕ) (xs : List ℕ) → take n (drop i xs) ++ drop (i + n) xs ≡ drop i xs
take-drop zero n xs =
    let e : 0 + n ≡ n = omega arith in ap (λ k. take n xs ++ drop k xs) e ∙ take-append-drop n xs
take-drop (suc i) n [] =
    ap₂ (λ a b. a ++ b) (take_all {A = ℕ} n [] (omega arith))
      (drop_all (suc i + n) [] (omega arith))
take-drop (suc i) n (x ∷ xs) =
    let e : suc i + n ≡ suc (i + n) = omega arith in
    ap (λ k. take n (drop i xs) ++ drop k (x ∷ xs)) e ∙ take-drop i n xs

module _ (sha256 : List ℕ → String) (n : ℕ) (bytes : List ℕ) where
  restore_chunk_lem :
      (c : PlannedChunk) (index : ℕ)
      → IsPlanFor sha256 (chunk_at n bytes (index * n)) c.plan c.transformed
      → restore_chunk sha256 index (chunk_of c) ≡ ok (chunk_at n bytes (index * n))
  unfolding restore_chunk chunk_of apply_residuals
  restore_chunk_lem c index v =
      let piece : List ℕ = chunk_at n bytes (index * n) in
      let s = v.sound in
      let e1 : synthesize_basis (some c.plan.basis) c.plan.start_byte c.plan.length c.plan.delta
          ≡ ok s.generated =
        ap (λ k. synthesize_basis (some c.plan.basis) c.plan.start_byte k c.plan.delta)
          s.length_right
        ∙ s.generates in
      let e2 : apply_patches c.plan.residuals s.generated ≡ ok v.out =
        apply_patches-apply_from none c.plan.residuals s.generated v.out s.patches_exact in
      let e3 : str_eq (sha256 v.out) c.plan.sha256 ≡ true =
        (eq_iff (sha256 v.out) c.plan.sha256).1 (sym s.hash_right) in
      let e4 : str_eq (sha256 v.out) (transformed_hash_of c.plan c.transformed) ≡ true =
        (eq_iff (sha256 v.out) _).1 (sym v.transformed_hash) in
      let e5 : str_eq (sha256 piece) (original_hash_of c.plan c.transformed) ≡ true =
        (eq_iff (sha256 piece) _).1 (sym v.original_hash) in
      rw (e1, e2, e3, e4, v.restores, e5) refl

  restore_chunks_lem :
      (cs : List PlannedChunk) (index : ℕ) (d : Dict Chunk)
      → IsPlannedFrom sha256 n bytes index cs
      → StandsFrom d index (map chunk_of cs)
      → restore_chunks sha256 d (length cs) index ≡ ok (drop (index * n) bytes)
  unfolding restore_chunks
  restore_chunks_lem [] index d p s = ap ok (sym (drop_all (index * n) bytes p))
  restore_chunks_lem (c ∷ cs) index d (i, k, b, v, p) (g, s) =
      rw (g, restore_chunk_lem c index v, restore_chunks_lem cs (index + 1) d p s)
        (ap ok (
          ap (λ k. chunk_at n bytes (index * n) ++ drop k bytes) (add-mul index 1 n ∙ omega arith)
          ∙ take-drop (index * n) n bytes))

  IsPlannedFrom-IsIndexed :
      (cs : List PlannedChunk) (index : ℕ)
      → IsPlannedFrom sha256 n bytes index cs
      → IsIndexed index (map chunk_of cs)
  unfolding chunk_of
  IsPlannedFrom-IsIndexed [] index p = tt
  IsPlannedFrom-IsIndexed (c ∷ cs) index (i, k, b, v, p) =
      (i, IsPlannedFrom-IsIndexed cs (index + 1) p)

  module _ (round_quotient : ℕ → ℕ → ℕ)
      (is_digest : (xs : List ℕ) → is_sha256 (sha256 xs) ≡ true) where
    -- The container of a chunked plan of some bytes whose transforms are counted right is
    -- reconstructed to those bytes, whatever the flags and the results of a tournament.
    pub reconstruct-build :
        (p : ChunkedPlan) (auto_chunk transform_tournament : Bool) (results : List TournamentResult)
        → 0 < n
        → IsChunkedPlan sha256 n bytes p
        → counts_sum (counts_of p) ≡ p.chunk_count
        → reconstruct_bog_container_bytes sha256
            (build_bog_container_from_plan round_quotient p auto_chunk results transform_tournament)
          ≡ ok bytes
    unfolding reconstruct_bog_container_bytes build_bog_container_from_plan
    reconstruct-build p auto tournament results h v s =
        let valid =
          build-IsValid sha256 is_digest n bytes round_quotient p auto tournament results h v s in
        let size : length (map chunk_of p.chunks) ≡ p.chunk_count =
          length-map chunk_of p.chunks ∙ sym v.count_right in
        let (d, e, st, _, k, b) =
          index_chunks_lem (map chunk_of p.chunks) p.chunk_count 0 []
            (IsPlannedFrom-IsIndexed p.chunks 0 v.planned) (omega (arith, size))
            (λ j i. Dict.get-empty j) (λ j i. absurd (omega arith)) refl in
        let every : all_keys p.chunk_count d ≡ true =
          all_keys_lem p.chunk_count d (λ j i. k j (omega (arith, size))) in
        let start : 0 * n ≡ 0 = omega arith in
        let restored : restore_chunks sha256 d p.chunk_count 0 ≡ ok bytes =
          ap (λ m. restore_chunks sha256 d m 0) v.count_right
          ∙ restore_chunks_lem p.chunks 0 d v.planned st
          ∙ ap (λ k. ok (drop k bytes)) start in
        let same : str_eq (sha256 bytes) p.whole_sha256 ≡ true =
          (eq_iff (sha256 bytes) p.whole_sha256).1 (sym v.hash_right) in
        rw (valid, e, b, every, restored, same) refl
