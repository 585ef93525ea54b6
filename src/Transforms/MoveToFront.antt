-- ===== src/Transforms/MoveToFront.antt =====
-- bogvm/transforms.py: `_mtf_encode` and `_mtf_decode`, over the alphabet of all bytes.
use bogbin.Common.{
  ℕ, zero, suc, ◌+◌, ◌-◌, Option, none, some, List, [], ◌∷◌, ◌==◌, if◌then◌else◌, length, get_elem?,
  Result, ok, err, ◌>>=◌, ◌≡◌, refl, ap, ◌≢◌, inl, inr, arith, All, ◌<◌, ◌≤◌, Bool-cases,
  Option-cases, >>=-eq-ok,
}
use bogbin.Common.Bits.{IsByte}
use bogbin.Transforms.Names.{TransformError, not_in_list, index_error}

-- `list(range(k, k + n))`
unfoldable pub range_from : ℕ → ℕ → List ℕ
range_from k zero = []
range_from k (suc n) = k ∷ range_from (k + 1) n

-- `alphabet.index(value)`, `none` for its ValueError
unfoldable pub index_of : ℕ → List ℕ → Option ℕ
index_of value [] = none
index_of value (a ∷ rest) =
    if a == value
    then some 0
    else elim (index_of value rest) [ none ↦ none | some i ↦ some (suc i) ]

-- `alphabet.pop(index)`
unfoldable pub remove_at : ℕ → List ℕ → List ℕ
remove_at i [] = []
remove_at zero (a ∷ rest) = rest
remove_at (suc i) (a ∷ rest) = a ∷ remove_at i rest

-- `if index: alphabet.pop(index); alphabet.insert(0, value)`
unfoldable pub move_front : ℕ → ℕ → List ℕ → List ℕ
unfolding remove_at
move_front index value alphabet = if index == 0 then alphabet else value ∷ remove_at index alphabet

unfoldable pub mtf_encode_from : List ℕ → List ℕ → Result TransformError (List ℕ)
mtf_encode_from alphabet [] = ok []
mtf_encode_from alphabet (value ∷ data') = elim (index_of value alphabet) [
  | none ↦ err not_in_list
  | some index ↦ do
    rest ← mtf_encode_from (move_front index value alphabet) data'
    ok (index ∷ rest)
]

unfoldable pub mtf_encode : List ℕ → Result TransformError (List ℕ)
unfolding mtf_encode_from range_from move_front index_of
mtf_encode bytes = mtf_encode_from (range_from 0 256) bytes

unfoldable pub mtf_decode_from : List ℕ → List ℕ → Result TransformError (List ℕ)
mtf_decode_from alphabet [] = ok []
mtf_decode_from alphabet (index ∷ data') = elim (get_elem? alphabet index) [
  | none ↦ err index_error
  | some value ↦ do
    rest ← mtf_decode_from (move_front index value alphabet) data'
    ok (value ∷ rest)
]

unfoldable pub mtf_decode : List ℕ → Result TransformError (List ℕ)
unfolding mtf_decode_from range_from move_front
mtf_decode bytes = mtf_decode_from (range_from 0 256) bytes

get_elem?-index_of : (v : ℕ) (l : List ℕ) (i : ℕ) → index_of v l ≡ some i → get_elem? l i ≡ some v
unfolding index_of
get_elem?-index_of v [] i e = cc
get_elem?-index_of v (a ∷ l) zero e = elim (Option-cases (index_of v l)) [
  | inl n ↦ ground arith
  | inr (j, s) ↦ ground arith
]
get_elem?-index_of v (a ∷ l) (suc i) e = elim (Option-cases (index_of v l)) [
  | inl n ↦ ground arith
  | inr (j, s) ↦ ground (arith, get_elem?-index_of v l i)
]

-- Decoding inverts an encoding that returned, whatever the alphabet.
decode-encode_from :
    (alphabet xs out : List ℕ)
    → mtf_encode_from alphabet xs ≡ ok out
    → mtf_decode_from alphabet out ≡ ok xs
unfolding mtf_encode_from mtf_decode_from
decode-encode_from alphabet [] out e = ground arith
decode-encode_from alphabet (v ∷ xs) out e = elim (Option-cases (index_of v alphabet)) [
  | inl n ↦ ground arith
  | inr (i, s) ↦
      let (rest, q, r) =
        >>=-eq-ok (mtf_encode_from (move_front i v alphabet) xs) (λ t. ok (i ∷ t))
          (rw (s, mtf_encode_from) at e) in
      ground (
        arith,
        get_elem?-index_of v alphabet i s,
        decode-encode_from (move_front i v alphabet) xs rest q,
      )
]

index_of-lt : (v : ℕ) (l : List ℕ) (i : ℕ) → index_of v l ≡ some i → i < length l
unfolding index_of
index_of-lt v [] i e = cc
index_of-lt v (a ∷ l) zero e = omega arith
index_of-lt v (a ∷ l) (suc i) e = elim (Option-cases (index_of v l)) [
  | inl n ↦ ground arith
  | inr (j, s) ↦ ground (arith, index_of-lt v l i)
]

length-remove_at : (i : ℕ) (l : List ℕ) → i < length l → suc (length (remove_at i l)) ≡ length l
unfolding remove_at
length-remove_at i [] h = absurd (omega arith)
length-remove_at zero (a ∷ l) h = refl
length-remove_at (suc i) (a ∷ l) h = ap suc (length-remove_at i l (omega arith))

-- Removing an element keeps every other value in the list.
index_of-remove_at :
    (u v : ℕ) (l : List ℕ) (i j : ℕ)
    → u ≢ v
    → get_elem? l i ≡ some v
    → index_of u l ≡ some j
    → (k : ℕ) × (index_of u (remove_at i l) ≡ some k)
unfolding index_of remove_at
index_of-remove_at u v [] i j d g e = cc
index_of-remove_at u v (a ∷ l) zero j d g e = elim (Option-cases (index_of u l)) [
  | inl n ↦ ground arith
  | inr (k, s) ↦ (k, s)
]
index_of-remove_at u v (a ∷ l) (suc i) zero d g e = elim (Option-cases (index_of u l)) [
  | inl n ↦ (0, ground arith)
  | inr (k, s) ↦ (0, ground arith)
]
index_of-remove_at u v (a ∷ l) (suc i) (suc j) d g e = elim (Option-cases (index_of u l)) [
  | inl n ↦ ground arith
  | inr (k, s) ↦ let (m, t) = index_of-remove_at u v l i k d g s in (suc m, ground arith)
]

-- An alphabet of 256 places that holds every byte.
pub record IsFull (alphabet : List ℕ) : Type 0 where
  pub size : length alphabet ≡ 256
  pub holds : (v : ℕ) → IsByte v → (i : ℕ) × (index_of v alphabet ≡ some i)

move_front-IsFull :
    (i v : ℕ) (alphabet : List ℕ)
    → index_of v alphabet ≡ some i
    → IsFull alphabet
    → IsFull (move_front i v alphabet)
unfolding move_front
move_front-IsFull i v alphabet e full = elim (Bool-cases (i == 0)) [
  | inl t ↦ rw t full
  | inr t ↦ rw t moved
]
  where
    kept : (u : ℕ) → IsByte u → (k : ℕ) × (index_of u (v ∷ remove_at i alphabet) ≡ some k)
    kept u hu = elim (Bool-cases (v == u)) [
      | inl same ↦ (0, unfold index_of in rw same)
      | inr other ↦
          let (j, s) = full.holds u hu in
          let (k, t) =
            index_of-remove_at u v alphabet i j (λ p. ground arith)
              (get_elem?-index_of v alphabet i e) s in
          (suc k, unfold index_of in rw other (rw t))
    ]

    moved : IsFull (v ∷ remove_at i alphabet)
    moved = record {
      size = omega (arith, full.size, length-remove_at i alphabet (index_of-lt v alphabet i e));
      holds = kept;
    }

encode_from_total :
    (alphabet xs : List ℕ)
    → IsFull alphabet
    → All IsByte xs
    → (out : List ℕ) × (mtf_encode_from alphabet xs ≡ ok out)
      × All IsByte out
      × (length out ≡ length xs)
unfolding mtf_encode_from
encode_from_total alphabet [] full h = ([], refl, tt, refl)
encode_from_total alphabet (v ∷ xs) full h =
    let (i, s) = full.holds v h.0 in
    let (out, e, b, n) =
      encode_from_total (move_front i v alphabet) xs (move_front-IsFull i v alphabet s full) h.1 in
    (
      i ∷ out,
      rw (s, mtf_encode_from) (rw e),
      (omega (arith, full.size, index_of-lt v alphabet i s), b),
      ap suc n,
    )

length-range_from : (k n : ℕ) → length (range_from k n) ≡ n
unfolding range_from
length-range_from k zero = refl
length-range_from k (suc n) = ap suc (length-range_from (k + 1) n)

index_of-range_from : (k n v : ℕ) → k ≤ v → v < k + n → index_of v (range_from k n) ≡ some (v - k)
unfolding range_from index_of
index_of-range_from k zero v p q = absurd (omega arith)
index_of-range_from k (suc n) v p q = ground (arith, index_of-range_from (k + 1) n v)

range-IsFull : IsFull (range_from 0 256)
range-IsFull = record {
  size = length-range_from 0 256;
  holds = λ v h. (v - 0, index_of-range_from 0 256 v (omega arith) h);
}

-- Every byte string is encoded, into as many bytes, and decoding gives it back.
pub mtf_decode-mtf_encode :
    (xs : List ℕ)
    → All IsByte xs
    → (out : List ℕ) × (mtf_encode xs ≡ ok out)
      × All IsByte out
      × (length out ≡ length xs)
      × (mtf_decode out ≡ ok xs)
mtf_decode-mtf_encode xs h =
    let (out, e, b, n) = encode_from_total (range_from 0 256) xs range-IsFull h in
    (
      out,
      unfold mtf_encode in e,
      b,
      n,
      unfold mtf_decode in decode-encode_from (range_from 0 256) xs out e,
    )
