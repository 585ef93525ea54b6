-- ===== src/Optimizer/Patches.antt =====
-- bogvm/optimizer.py: the residuals of a plan, and `_apply_residuals`.
use bogbin.Common.{
  ℕ, zero, suc, ◌+◌, ◌<◌, Bool, true, false, Option, none, some, List, [], ◌∷◌, ◌++◌, leb, ltb,
  ◌==◌, ==_iff, Bool-cases, inl, inr, if◌then◌else◌, length, length-append, set, Result, ok, err,
  ◌≡◌, refl, sym, ap, ap₂, ◌∙◌, arith, All, append_assoc, ◌≤◌, subst,
}
use bogbin.Common.Bits.{IsByte}
use bogbin.Residual.{Residual, IsPatchList}

-- The OptimizerErrors of `_apply_residuals`, in the order of its tests.
pub data PatchError : Type 0 where
  not_increasing out_of_range byte_range : PatchError

-- `sum(1 for actual, expected in zip(data, generated) if actual != expected)`
unfoldable pub mismatches : List ℕ → List ℕ → ℕ
mismatches [] generated = 0
mismatches (x ∷ xs) [] = 0
mismatches (x ∷ xs) (g ∷ gs) = (if x == g then 0 else 1) + mismatches xs gs

-- The list of residuals, for `enumerate` from `offset` on.
unfoldable pub residuals_from : ℕ → List ℕ → List ℕ → List Residual
residuals_from offset [] generated = []
residuals_from offset (x ∷ xs) [] = []
residuals_from offset (x ∷ xs) (g ∷ gs) =
    let rest = residuals_from (suc offset) xs gs in
    if x == g then rest else record { offset = offset; byte = x } ∷ rest

-- `offset <= previous_offset`, where `none` is -1
abbrev pub not_after : Option ℕ → ℕ → Bool
not_after none offset = false
not_after (some previous) offset = leb offset previous

-- The loop of `_apply_residuals`.
unfoldable pub apply_from : Option ℕ → List Residual → List ℕ → Result PatchError (List ℕ)
apply_from previous [] bytes = ok bytes
apply_from previous (p ∷ ps) bytes =
    let rest = apply_from (some p.offset) ps (set bytes p.offset p.byte) in
    if not_after previous p.offset
    then err not_increasing
    else if leb (length bytes) p.offset
    then err out_of_range
    else if ltb 255 p.byte
    then err byte_range
    else rest

unfoldable pub apply_residuals : List ℕ → List Residual → Result PatchError (List ℕ)
unfolding apply_from
apply_residuals generated residuals = apply_from none residuals generated

set-append :
    (front : List ℕ) (g x : ℕ) (back : List ℕ) (k : ℕ)
    → k ≡ length front
    → set (front ++ (g ∷ back)) k x ≡ front ++ (x ∷ back)
set-append [] g x back zero h = refl
set-append [] g x back (suc k) h = absurd (omega arith)
set-append (f ∷ front) g x back zero h = absurd (omega arith)
set-append (f ∷ front) g x back (suc k) h =
    ap (λ l. f ∷ l) (set-append front g x back k (omega arith))

-- The previous patch stands in front of the position `k`.
abbrev IsBefore : Option ℕ → ℕ → Type 0
IsBefore none k = Unit
IsBefore (some p) k = p < k

not_after-IsBefore :
    (previous : Option ℕ) (k : ℕ) → IsBefore previous k → not_after previous k ≡ false
not_after-IsBefore none k h = refl
not_after-IsBefore (some p) k h = ground arith

IsBefore-suc : (previous : Option ℕ) (k : ℕ) → IsBefore previous k → IsBefore previous (suc k)
IsBefore-suc none k h = tt
IsBefore-suc (some p) k h = omega arith

-- One patch that passes the tests.
apply_step :
    (previous : Option ℕ) (p : Residual) (ps : List Residual) (bytes : List ℕ)
    → not_after previous p.offset ≡ false
    → p.offset < length bytes
    → IsByte p.byte
    → apply_from previous (p ∷ ps) bytes ≡ apply_from (some p.offset) ps (set bytes p.offset p.byte)
unfolding apply_from
apply_step previous p ps bytes a r b = ground arith

residuals_same :
    (k x g : ℕ) (xs gs : List ℕ)
    → (x == g) ≡ true
    → residuals_from k (x ∷ xs) (g ∷ gs) ≡ residuals_from (suc k) xs gs
unfolding residuals_from
residuals_same k x g xs gs e = rw e

residuals_differ :
    (k x g : ℕ) (xs gs : List ℕ)
    → (x == g) ≡ false
    → residuals_from k (x ∷ xs) (g ∷ gs)
      ≡ record { offset = k; byte = x } ∷ residuals_from (suc k) xs gs
unfolding residuals_from
residuals_differ k x g xs gs e = rw e

apply_from-residuals_from :
    (xs gs front : List ℕ) (k : ℕ) (previous : Option ℕ)
    → k ≡ length front
    → IsBefore previous k
    → length gs ≡ length xs
    → All IsByte xs
    → apply_from previous (residuals_from k xs gs) (front ++ gs) ≡ ok (front ++ xs)
apply_from-residuals_from [] [] front k previous e b n h = unfold residuals_from apply_from in refl
apply_from-residuals_from [] (g ∷ gs) front k previous e b n h = absurd (omega arith)
apply_from-residuals_from (x ∷ xs) [] front k previous e b n h = absurd (omega arith)
apply_from-residuals_from (x ∷ xs) (g ∷ gs) front k previous e b n h = elim (Bool-cases (x == g)) [
  | inl same ↦
      ap₂ (apply_from previous) (residuals_same k x g xs gs same)
        (ap (λ y. front ++ (y ∷ gs)) (sym ((==_iff x g).0 same)) ∙ sym (regroup gs))
      ∙ apply_from-residuals_from xs gs (front ++ (x ∷ [])) (suc k) previous longer
          (IsBefore-suc previous k b) (omega arith) h.1
      ∙ ap ok (regroup xs)
  | inr other ↦
      ap (λ r. apply_from previous r (front ++ (g ∷ gs))) (residuals_differ k x g xs gs other)
      ∙ apply_step previous (record { offset = k; byte = x }) (residuals_from (suc k) xs gs)
          (front ++ (g ∷ gs)) (not_after-IsBefore previous k b)
          (omega (arith, length-append front (g ∷ gs))) h.0
      ∙ ap (apply_from (some k) (residuals_from (suc k) xs gs))
          (set-append front g x gs k e ∙ sym (regroup gs))
      ∙ apply_from-residuals_from xs gs (front ++ (x ∷ [])) (suc k) (some k) longer (omega arith)
          (omega arith) h.1
      ∙ ap ok (regroup xs)
]
  where
    regroup : (ys : List ℕ) → (front ++ (x ∷ [])) ++ ys ≡ front ++ (x ∷ ys)
    regroup ys = append_assoc front (x ∷ []) ys

    longer : suc k ≡ length (front ++ (x ∷ []))
    longer = omega (arith, length-append front (x ∷ []))

-- The residuals of a byte string against generated bytes of its length, applied to these, give the
-- byte string.
pub apply_residuals_exact :
    (xs gs : List ℕ)
    → length gs ≡ length xs
    → All IsByte xs
    → apply_residuals gs (residuals_from 0 xs gs) ≡ ok xs
unfolding apply_residuals
apply_residuals_exact xs gs n h = apply_from-residuals_from xs gs [] 0 none refl tt n h

-- There are as many residuals as bytes that differ.
pub length-residuals_from :
    (k : ℕ) (xs gs : List ℕ) → length (residuals_from k xs gs) ≡ mismatches xs gs
unfolding residuals_from mismatches
length-residuals_from k [] gs = refl
length-residuals_from k (x ∷ xs) [] = refl
length-residuals_from k (x ∷ xs) (g ∷ gs) = ground (arith, length-residuals_from (suc k) xs gs)

weaken_first : (n k j : ℕ) (ps : List Residual) → j ≤ k → IsPatchList n k ps → IsPatchList n j ps
weaken_first n k j [] h l = tt
weaken_first n k j (p ∷ ps) h (a, b, c, d) = (omega arith, b, c, d)

-- The residuals are patches of bytes at increasing offsets inside the data.
pub residuals_from-IsPatchList :
    (n k : ℕ) (xs gs : List ℕ)
    → k + length xs ≤ n
    → All IsByte xs
    → IsPatchList n k (residuals_from k xs gs)
residuals_from-IsPatchList n k [] gs h b = unfold residuals_from in tt
residuals_from-IsPatchList n k (x ∷ xs) [] h b = unfold residuals_from in tt
residuals_from-IsPatchList n k (x ∷ xs) (g ∷ gs) h b =
    let rest : IsPatchList n (suc k) (residuals_from (suc k) xs gs) =
      residuals_from-IsPatchList n (suc k) xs gs (omega arith) b.1 in
    elim (Bool-cases (x == g)) [
      | inl same ↦
          subst (IsPatchList n k) (sym (residuals_same k x g xs gs same))
            (weaken_first n (suc k) k (residuals_from (suc k) xs gs) (omega arith) rest)
      | inr other ↦ subst (IsPatchList n k) (sym (residuals_differ k x g xs gs other)) (
        omega arith,
        omega arith,
        b.0,
        weaken_first n (suc k) (k + 1) (residuals_from (suc k) xs gs) (omega arith) rest,
      )
    ]
