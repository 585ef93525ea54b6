-- ===== src/Container/Header.antt =====
-- bogvm/container.py: the header of a packed container, written and read, and the numbers in it.
use native.Mathlib.Nat.{add-mul}
use bogbin.Common.{
  ℕ, ◌+◌, ◌-◌, ◌*◌, ◌/◌, ◌^◌, ◌≤◌, ◌<◌, bit_and, true, false, ◌⊎◌, inl, inr, some, List, [], ◌∷◌,
  ◌++◌, map, length, length-take, length-drop, drop, get_elem?, leb, ltb, ◌==◌, ==_iff, ok, String,
  ◌≡◌, refl, sym, ap, ap₂, ◌∙◌, arith, Bool-cases,
}
use bogbin.Common.ByteStrings.{bytes_eq}
use bogbin.Optimizer.Chunks.{PlannedChunk, total_residuals, chunk_total}
use bogbin.Optimizer.Coverage.{IsPlannedFrom}
use bogbin.Container.Records.{sizes}
use bogbin.Container.Build.{chunk_of}
use bogbin.Container.Varuint.{encode_varuint, decode-encode_varuint}
use bogbin.Container.Residuals.{read_byte, count_fits}
use bogbin.Container.Masked.{read_bytes-append}
use bogbin.Container.Hex.{to_hex}
use bogbin.Container.Encode.{bogpk_magic, bogpk_version, size_code, length_sum}
use bogbin.Container.Decode.{Header, read_header, check_header, residuals_in}
use bogbin.Container.StreamsRead.{IsFlags}

-- A chunk size that the format has a code for.
abbrev pub IsCandidate : ℕ → Type 0
IsCandidate n = (n ≡ 16) ⊎ ((n ≡ 32) ⊎ ((n ≡ 64) ⊎ (n ≡ 128)))

pub code_lem :
    (n : ℕ)
    → IsCandidate n
    → (code : ℕ) × (size_code n sizes ≡ some code) × (get_elem? sizes code ≡ some n)
unfolding size_code
code_lem n (inl e) = (0, rw e refl, rw e refl)
code_lem n (inr (inl e)) = (1, rw e refl, rw e refl)
code_lem n (inr (inr (inl e))) = (2, rw e refl, rw e refl)
code_lem n (inr (inr (inr e))) = (3, rw e refl, rw e refl)

-- There are at most as many chunks as bytes.
pub few_chunks : (n : ℕ) (bytes : List ℕ) → IsCandidate n → chunk_total n bytes ≤ length bytes
few_chunks n bytes (inl e) = rw e (omega arith)
few_chunks n bytes (inr (inl e)) = rw e (omega arith)
few_chunks n bytes (inr (inr (inl e))) = rw e (omega arith)
few_chunks n bytes (inr (inr (inr e))) = rw e (omega arith)

pub no_chunks_of_nothing :
    (n : ℕ) (bytes : List ℕ)
    → IsCandidate n
    → (length bytes ≡ 0 → chunk_total n bytes ≡ 0) × (0 < length bytes → 0 < chunk_total n bytes)
no_chunks_of_nothing n bytes (inl e) = (λ h. rw e (omega arith), λ h. rw e (omega arith))
no_chunks_of_nothing n bytes (inr (inl e)) = (λ h. rw e (omega arith), λ h. rw e (omega arith))
no_chunks_of_nothing n bytes (inr (inr (inl e))) =
    (λ h. rw e (omega arith), λ h. rw e (omega arith))
no_chunks_of_nothing n bytes (inr (inr (inr e))) =
    (λ h. rw e (omega arith), λ h. rw e (omega arith))

pub candidate_bounds : (n : ℕ) → IsCandidate n → (0 < n) × (n ≤ 65535)
candidate_bounds n (inl e) = omega (arith, e)
candidate_bounds n (inr (inl e)) = omega (arith, e)
candidate_bounds n (inr (inr (inl e))) = omega (arith, e)
candidate_bounds n (inr (inr (inr e))) = omega (arith, e)

-- The reader finds the header that was written.
pub read_header_lem :
    (h : Header) (code : ℕ) (whole more : List ℕ)
    → IsFlags h.flags
    → get_elem? sizes code ≡ some h.chunk_size
    → h.original_length < 128 ^ 10
    → h.chunk_count < 128 ^ 10
    → h.total_residual_count < 128 ^ 10
    → length whole ≡ 32
    → to_hex whole ≡ h.whole_sha256
    → read_header (
        bogpk_magic
        ++ (bogpk_version
            ∷ h.flags
            ∷ code
            ∷ (encode_varuint h.original_length
                ++ (encode_varuint h.chunk_count
                    ++ (encode_varuint h.total_residual_count ++ (whole ++ more))))))
      ≡ ok (h, more)
unfolding read_header read_byte bytes_eq
read_header_lem h code whole more f g a b c l t =
    let rest : List ℕ =
      encode_varuint h.original_length
      ++ (encode_varuint h.chunk_count
          ++ (encode_varuint h.total_residual_count ++ (whole ++ more))) in
    let magic = read_bytes-append bogpk_magic (bogpk_version ∷ h.flags ∷ code ∷ rest) 6 refl in
    let (low, clear) = flags_lem h.flags f in
    rw
      (
        magic,
        low,
        clear,
        g,
        decode-encode_varuint h.original_length _ a,
        decode-encode_varuint h.chunk_count _ b,
        decode-encode_varuint h.total_residual_count _ c,
        read_bytes-append whole more 32 l,
        t,
      )
      refl
  where
    flags_lem : (flags : ℕ) → IsFlags flags → (ltb flags 8 ≡ true) × ((bit_and flags 3 == 0) ≡ true)
    flags_lem flags (inl e) = (rw e refl, rw e refl)
    flags_lem flags (inr e) = (rw e refl, rw e refl)

module _ (sha256 : List ℕ → String) (n : ℕ) (bytes : List ℕ) where
  -- The residuals of the chunks from an index on, and their lengths.
  pub few_residuals :
      (cs : List PlannedChunk) (index : ℕ)
      → IsPlannedFrom sha256 n bytes index cs
      → total_residuals cs ≤ length bytes - index * n
  few_residuals [] index p = omega arith
  few_residuals (c ∷ cs) index (i, k, b, v, p) =
      let fit = count_fits (length v.out) 0 c.plan.residuals (omega arith) v.sound.patches_fit in
      omega (
        arith,
        fit,
        v.sound.count_right,
        v.out_length,
        add-mul index 1 n,
        length-take n (drop (index * n) bytes),
        length-drop (index * n) bytes,
        few_residuals cs (index + 1) p,
      )

  pub length_sum_lem :
      (cs : List PlannedChunk) (index : ℕ)
      → IsPlannedFrom sha256 n bytes index cs
      → length_sum (map chunk_of cs) ≡ length bytes - index * n
  unfolding chunk_of
  length_sum_lem [] index p = omega arith
  length_sum_lem (c ∷ cs) index (i, k, b, v, p) = omega (
    arith,
    v.sound.length_right,
    v.out_length,
    add-mul index 1 n,
    length-take n (drop (index * n) bytes),
    length-drop (index * n) bytes,
    length_sum_lem cs (index + 1) p,
  )

  pub residuals_in_lem :
      (cs : List PlannedChunk) (index : ℕ)
      → IsPlannedFrom sha256 n bytes index cs
      → residuals_in (map chunk_of cs) ≡ total_residuals cs
  unfolding chunk_of
  residuals_in_lem [] index p = refl
  residuals_in_lem (c ∷ cs) index (i, k, b, v, p) =
      ap₂ (λ a b. a + b) (sym v.sound.count_right) (residuals_in_lem cs (index + 1) p)

  -- The numbers of the header pass the tests of the decoder.
  pub check_header_lem :
      (h : Header)
      → IsCandidate h.chunk_size
      → h.original_length ≡ length bytes
      → h.chunk_count ≡ chunk_total h.chunk_size bytes
      → h.total_residual_count ≤ h.original_length
      → check_header h ≡ ok tt
  unfolding check_header
  check_header_lem h s l c t =
      let (nothing, something) = no_chunks_of_nothing h.chunk_size bytes s in
      let total : leb h.total_residual_count h.original_length ≡ true = ground arith in
      let same : chunk_total h.chunk_size bytes
          ≡ (h.original_length + h.chunk_size - 1) / h.chunk_size =
        ap (λ k. (k + h.chunk_size - 1) / h.chunk_size) (sym l) in
      elim (Bool-cases (h.original_length == 0)) [
        | inl empty ↦
            let none_there : h.chunk_count ≡ 0 = c ∙ nothing (sym l ∙ (==_iff _ _).0 empty) in
            let counted : (h.chunk_count == 0) ≡ true = (==_iff _ _).1 none_there in
            let low : ltb 0 h.original_length ≡ false = ground arith in
            rw (empty, counted, low, total) refl
        | inr full ↦
            let low : ltb 0 h.original_length ≡ true = ground arith in
            let positive : 0 < h.original_length = ground arith in
            let some_there : 0 < h.chunk_count =
              omega (arith, c, something (omega (arith, l, positive))) in
            let counted : (h.chunk_count == 0) ≡ false = ground arith in
            let right : (h.chunk_count == (h.original_length + h.chunk_size - 1) / h.chunk_size)
                ≡ true =
              (==_iff _ _).1 (c ∙ same) in
            rw (full, low, counted, right, total) refl
      ]
