-- ===== src/Transforms/BurrowsWheeler/Table.antt =====
-- bogvm/transforms.py: the table of `_bwt_decode` against the sorted rotations of `_bwt_encode`.
use bogbin.Common.{
  ℕ, zero, suc, ◌+◌, ◌≤◌, ◌<◌, none, some, List, [], ◌∷◌, map, take, replicate, length, All, arith,
  ◌≡◌, ◌≢◌, refl, sym, ap, ap₂, ◌∙◌, length-map, take_all, get_elem?, ok, lt→ltb, Option-cases, inl,
  inr, append-nil, subst,
}
use mathlib.Core.List.{Permᴰ}
use mathlib.Core.List.Permᴰ
use bogbin.Common.Bits.{IsByte}
use bogbin.Common.Sorting.{sort, IsSorted, sort-perm, sort-IsSorted, sort_sorted, sort-eq_of_perm}
use bogbin.Transforms.BurrowsWheeler.{
  lex_le, pair_le, rotation, rotations_from, rank_of_zero, last_byte, sorted_rotations, bwt_encode,
  prepend, bwt_table, bwt_decode,
}
use bogbin.Transforms.BurrowsWheeler.Lexicographic.{
  lex_order, pair_order, IsSorted-rows, IsSorted-take,
}
use bogbin.Transforms.BurrowsWheeler.Rotations.{
  perm-map, All-perm, init, rotate_right, rows, rotate_right-perm, All-length-rows, All-IsByte-rows,
  length-rotations_from, All-rotations_from,
}

length-perm {ℓ} : {A : Type ℓ} {xs ys : List A} → Permᴰ xs ys → length xs ≡ length ys
length-perm Permᴰ.nil = refl
length-perm (Permᴰ.cons e p) = ap suc (length-perm p)
length-perm (Permᴰ.swap e d) = refl
length-perm (Permᴰ.trans p q) = length-perm p ∙ length-perm q

-- The rows of the sorted table, without their indices.
abbrev sorted_rows : List ℕ → List (List ℕ)
sorted_rows xs = map (λ row. row.0) (sorted_rotations xs)

rows-perm : (xs : List ℕ) → Permᴰ (sorted_rows xs) (rows xs 0 (length xs))
rows-perm xs = unfold sorted_rotations in perm-map (λ row. row.0) (sort-perm pair_le _)

length-sorted_rows : (xs : List ℕ) → All (λ r. length r ≡ length xs) (sorted_rows xs)
length-sorted_rows xs =
    All-perm (λ r. length r ≡ length xs) (Permᴰ.symm (rows-perm xs))
      (All-length-rows xs 0 (length xs) (omega arith))

sorted_rows-IsSorted : (xs : List ℕ) → IsSorted lex_le (sorted_rows xs)
sorted_rows-IsSorted xs =
    IsSorted-rows (sorted_rotations xs) (
      unfold sorted_rotations in sort-IsSorted pair_le pair_order (rotations_from xs 0 (length xs)))

-- Rotating every sorted row to the right permutes the sorted rows.
turned-perm : (xs : List ℕ) → Permᴰ (map rotate_right (sorted_rows xs)) (sorted_rows xs)
turned-perm xs =
    Permᴰ.trans (perm-map rotate_right (rows-perm xs))
      (Permᴰ.trans (rotate_right-perm xs) (Permᴰ.symm (rows-perm xs)))

take-init : (k : ℕ) (r : List ℕ) → k < length r → take k (init r) ≡ take k r
unfolding init
take-init zero r h = refl
take-init (suc k) [] h = absurd (omega arith)
take-init (suc k) (x ∷ []) h = absurd (omega arith)
take-init (suc k) (x ∷ y ∷ r) h = ap (λ l. x ∷ l) (take-init k (y ∷ r) (omega arith))

-- One column in front of the prefixes of length k.
prepend-take :
    (n k : ℕ) (l : List (List ℕ))
    → k < n
    → All (λ r. length r ≡ n) l
    → prepend (map last_byte l) (map (take k) l) ≡ map (take (suc k)) (map rotate_right l)
unfolding prepend rotate_right
prepend-take n k [] h a = refl
prepend-take n k (r ∷ l) h a =
    ap₂ (λ y ys. (last_byte r ∷ y) ∷ ys) (sym (take-init k r (omega (arith, a.0))))
      (prepend-take n k l h a.1)

round :
    (xs : List ℕ) (k : ℕ)
    → k < length xs
    → sort lex_le (prepend (map last_byte (sorted_rows xs)) (map (take k) (sorted_rows xs)))
      ≡ map (take (suc k)) (sorted_rows xs)
round xs k h =
    ap (sort lex_le) (prepend-take (length xs) k (sorted_rows xs) h (length-sorted_rows xs))
    ∙ sort-eq_of_perm lex_le lex_order (perm-map (take (suc k)) (turned-perm xs))
    ∙ sort_sorted lex_le lex_order _ (IsSorted-take (suc k) _ (sorted_rows-IsSorted xs))

bwt_table-take :
    (xs : List ℕ) (m k : ℕ)
    → k + m ≤ length xs
    → bwt_table m (map last_byte (sorted_rows xs)) (map (take k) (sorted_rows xs))
      ≡ map (take (k + m)) (sorted_rows xs)
unfolding bwt_table
bwt_table-take xs zero k h = ap (λ j. map (take j) (sorted_rows xs)) (omega arith)
bwt_table-take xs (suc m) k h =
    ap (bwt_table m (map last_byte (sorted_rows xs))) (round xs k (omega arith))
    ∙ bwt_table-take xs m (suc k) (omega arith)
    ∙ ap (λ j. map (take j) (sorted_rows xs)) (omega arith)

length-sorted_rotations : (xs : List ℕ) → length (sorted_rotations xs) ≡ length xs
unfolding sorted_rotations
length-sorted_rotations xs =
    length-perm (sort-perm pair_le (rotations_from xs 0 (length xs)))
    ∙ length-rotations_from xs 0 (length xs)

-- The table that the decoder ends with is the table of the encoder.
full_table :
    (xs : List ℕ)
    → bwt_table (length xs) (map last_byte (sorted_rows xs)) (replicate (length xs) [])
      ≡ sorted_rows xs
full_table xs =
    ap (bwt_table (length xs) (map last_byte (sorted_rows xs))) (
      empty_columns (length xs) (sorted_rows xs)
        (length-map (λ row. row.0) (sorted_rotations xs) ∙ length-sorted_rotations xs))
    ∙ bwt_table-take xs (length xs) 0 (omega arith)
    ∙ whole (sorted_rows xs) (length-sorted_rows xs)
  where
    empty_columns : (n : ℕ) (l : List (List ℕ)) → length l ≡ n → replicate n [] ≡ map (take 0) l
    empty_columns zero [] e = refl
    empty_columns zero (r ∷ l) e = absurd (omega arith)
    empty_columns (suc n) [] e = absurd (omega arith)
    empty_columns (suc n) (r ∷ l) e = ap (λ t. [] ∷ t) (empty_columns n l (omega arith))

    whole :
        (l : List (List ℕ)) → All (λ r. length r ≡ length xs) l → map (take (0 + length xs)) l ≡ l
    whole [] h = refl
    whole (r ∷ l) h =
        ap₂ (λ y ys. y ∷ ys) (take_all (0 + length xs) r (omega (arith, h.0))) (whole l h.1)

no_zero : (l : List (List ℕ × ℕ)) → rank_of_zero l ≡ none → All (λ row. row.1 ≢ 0) l
unfolding rank_of_zero
no_zero [] e = tt
no_zero ((r, i) ∷ l) e = elim (Option-cases (rank_of_zero l)) [
  | inl n ↦ (λ h. ground arith, no_zero l n)
  | inr (k, s) ↦ absurd (ground arith)
]

rank_finds :
    (l : List (List ℕ × ℕ)) (i : ℕ)
    → rank_of_zero l ≡ some i
    → (r : List ℕ) × (get_elem? l i ≡ some (r, 0))
unfolding rank_of_zero
rank_finds [] i e = cc
rank_finds ((r, j) ∷ l) zero e = elim (Option-cases (rank_of_zero l)) [
  | inl n ↦ (r, ground arith)
  | inr (k, s) ↦ (r, ground arith)
]
rank_finds ((r, j) ∷ l) (suc i) e = elim (Option-cases (rank_of_zero l)) [
  | inl n ↦ absurd (ground arith)
  | inr (k, s) ↦ rank_finds l i (ground arith)
]

All-get_elem? {ℓ κ} :
    {A : Type ℓ} (P : A → Type κ) (l : List A) (i : ℕ) (x : A)
    → All P l
    → get_elem? l i ≡ some x
    → P x
All-get_elem? P [] i x h e = absurd (ground arith)
All-get_elem? P (y ∷ l) zero x h e = subst P some_eq h.0
  where
    some_eq : y ≡ x
    some_eq = cc
All-get_elem? P (y ∷ l) (suc i) x h e = All-get_elem? P l i x h.1 e

get_elem?-map {ℓ κ} :
    {A : Type ℓ} {B : Type κ} (f : A → B) (l : List A) (i : ℕ) (x : A)
    → get_elem? l i ≡ some x
    → get_elem? (map f l) i ≡ some (f x)
get_elem?-map f [] i x e = absurd (ground arith)
get_elem?-map f (y ∷ l) zero x e = cc
get_elem?-map f (y ∷ l) (suc i) x e = get_elem?-map f l i x e

get_elem?-lt {ℓ} : {A : Type ℓ} (l : List A) (i : ℕ) (x : A) → get_elem? l i ≡ some x → i < length l
get_elem?-lt [] i x e = absurd (ground arith)
get_elem?-lt (y ∷ l) zero x e = omega arith
get_elem?-lt (y ∷ l) (suc i) x e = omega (arith, get_elem?-lt l i x e)

sorted_rotations-perm :
    (xs : List ℕ) → Permᴰ (sorted_rotations xs) (rotations_from xs 0 (length xs))
unfolding sorted_rotations
sorted_rotations-perm xs = sort-perm pair_le (rotations_from xs 0 (length xs))

-- The rotation by 0 stands in the sorted table, so its rank is found, and it is the input.
primary_row :
    (x : ℕ) (xs : List ℕ)
    → (p : ℕ) × (rank_of_zero (sorted_rotations (x ∷ xs)) ≡ some p)
      × (get_elem? (sorted_rows (x ∷ xs)) p ≡ some (x ∷ xs))
primary_row x xs = elim (Option-cases (rank_of_zero (sorted_rotations (x ∷ xs)))) [
  | inl n ↦ absurd (missing n)
  | inr (p, e) ↦
      let (r, g) = rank_finds (sorted_rotations (x ∷ xs)) p e in
      (p, e, get_elem?-map (λ row. row.0) _ p (r, 0) g ∙ ap some (is_input p r g))
]
  where
    first_zero : All (λ row. row.1 ≢ 0) (rotations_from (x ∷ xs) 0 (length (x ∷ xs))) → ⊥
    first_zero h = unfold rotations_from in h.0 refl

    missing : rank_of_zero (sorted_rotations (x ∷ xs)) ≡ none → ⊥
    missing n =
        first_zero (All-perm (λ row. row.1 ≢ 0) (sorted_rotations-perm (x ∷ xs)) (no_zero _ n))

    is_input :
        (p : ℕ) (r : List ℕ) → get_elem? (sorted_rotations (x ∷ xs)) p ≡ some (r, 0) → r ≡ x ∷ xs
    is_input p r g =
        All-get_elem? (λ row. row.0 ≡ rotation (x ∷ xs) row.1) _ p (r, 0)
          (All-perm (λ row. row.0 ≡ rotation (x ∷ xs) row.1)
            (Permᴰ.symm (sorted_rotations-perm (x ∷ xs)))
            (All-rotations_from (x ∷ xs) 0 (length (x ∷ xs))))
          g
        ∙ append-nil (x ∷ xs)

decode_row :
    (bytes : List ℕ) (p : ℕ) (row : List ℕ)
    → p < length bytes
    → get_elem? (bwt_table (length bytes) bytes (replicate (length bytes) [])) p ≡ some row
    → bwt_decode bytes p ≡ ok row
unfolding bwt_decode
decode_row [] p row h e = absurd (omega arith)
decode_row (b ∷ bytes) p row h e = rw (lt→ltb _ _ h) (rw e)

map-rows :
    (l : List (List ℕ × ℕ)) → map (λ row. last_byte row.0) l ≡ map last_byte (map (λ row. row.0) l)
map-rows [] = refl
map-rows (row ∷ l) = ap (λ t. last_byte row.0 ∷ t) (map-rows l)

encode_row :
    (x : ℕ) (xs : List ℕ) (p : ℕ)
    → rank_of_zero (sorted_rotations (x ∷ xs)) ≡ some p
    → bwt_encode (x ∷ xs) ≡ ok (map last_byte (sorted_rows (x ∷ xs)), p)
unfolding bwt_encode
encode_row x xs p e =
    rw (e, bwt_encode) (ap (λ t. ok (t, p)) (map-rows (sorted_rotations (x ∷ xs))))

length-out : (xs : List ℕ) → length (map last_byte (sorted_rows xs)) ≡ length xs
length-out xs =
    length-map last_byte (sorted_rows xs)
    ∙ length-map (λ row. row.0) (sorted_rotations xs)
    ∙ length-sorted_rotations xs

last_byte-IsByte : (r : List ℕ) → All IsByte r → IsByte (last_byte r)
unfolding last_byte
last_byte-IsByte [] h = omega arith
last_byte-IsByte (x ∷ []) h = h.0
last_byte-IsByte (x ∷ y ∷ r) h = last_byte-IsByte (y ∷ r) h.1

last_bytes : (l : List (List ℕ)) → All (All IsByte) l → All IsByte (map last_byte l)
last_bytes [] h = tt
last_bytes (r ∷ l) h = (last_byte-IsByte r h.0, last_bytes l h.1)

out-IsByte : (xs : List ℕ) → All IsByte xs → All IsByte (map last_byte (sorted_rows xs))
out-IsByte xs h =
    last_bytes (sorted_rows xs)
      (All-perm (All IsByte) (Permᴰ.symm (rows-perm xs)) (All-IsByte-rows xs 0 (length xs) h))

-- Every byte string is transformed, into as many bytes and a primary index, and the decoder gives
-- it back from these.
pub bwt_decode-bwt_encode :
    (xs : List ℕ)
    → (out : List ℕ) × (p : ℕ) × (bwt_encode xs ≡ ok (out, p))
      × (length out ≡ length xs)
      × (All IsByte xs → All IsByte out)
      × (bwt_decode out p ≡ ok xs)
bwt_decode-bwt_encode [] =
    ([], 0, unfold bwt_encode in refl, refl, λ h. h, unfold bwt_decode in refl)
bwt_decode-bwt_encode (x ∷ xs) =
    let (p, e, g) = primary_row x xs in
    let out : List ℕ = map last_byte (sorted_rows (x ∷ xs)) in
    let n : length out ≡ length (x ∷ xs) = length-out (x ∷ xs) in
    (
      out,
      p,
      encode_row x xs p e,
      n,
      out-IsByte (x ∷ xs),
      decode_row out p (x ∷ xs)
          (omega (
            arith,
            get_elem?-lt (sorted_rows (x ∷ xs)) p (x ∷ xs) g,
            length-map last_byte (sorted_rows (x ∷ xs)),
          ))
          (rw n (rw full_table g)),
    )
