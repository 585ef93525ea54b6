-- ===== src/Container/Masked.antt =====
-- bogvm/container.py: the bitmask encoding of residuals, written and read.
use bogbin.Common.{
  ℕ, zero, suc, ◌+◌, ◌*◌, ◌/◌, ◌%◌, ◌≤◌, ◌<◌, Bool, true, false, ◌||◌, some, List, [], ◌∷◌, ◌++◌,
  append_assoc, append-nil, map, length, length-replicate, length-append, length-map, take, drop,
  get_or, All, leb, ◌==◌, ==_iff, ==_refl, Bool-cases, inl, inr, ok, ◌≡◌, refl, sym, ap, ap₂, ◌∙◌,
  subst, arith,
}
use bogbin.Common.Bits.{IsByte}
use bogbin.Common.Marks.{has_bit, high_clear}
use bogbin.Common.Dict
use bogbin.Common.Dict.{Dict}
use bogbin.Common.Sorting.{sort_sorted, IsSorted, IsTotalOrder, Bounds}
use bogbin.Residual.{Residual, IsPatchList}
use bogbin.Container.Residuals.{read_byte, count_fits}
use bogbin.Container.Bitmask.{
  by_offset, bytes_at, mask_size, append_bitmask_residuals, read_bytes, is_marked, marked_offsets,
  is_outside, read_each, read_bitmask_residuals,
}
use bogbin.Container.Masks.{
  offsets_of, entries_of, is_in, mark_all_lem, get_or-IsByte, none_marked, zero_bytes,
  replicate-IsByte,
}

abbrev AllBelow : ℕ → Dict ℕ → Type 0
AllBelow k [] = Unit
AllBelow k ((j, v) ∷ d) = (j < k) × AllBelow k d

put_fresh : (k v : ℕ) (d : Dict ℕ) → AllBelow k d → Dict.put k v d ≡ d ++ ((k, v) ∷ [])
unfolding Dict.put
put_fresh k v [] h = refl
put_fresh k v ((j, w) ∷ d) h = ground (arith, put_fresh k v d)

AllBelow-snoc : (k m v : ℕ) (d : Dict ℕ) → k < m → AllBelow k d → AllBelow m (d ++ ((k, v) ∷ []))
AllBelow-snoc k m v [] h a = (h, tt)
AllBelow-snoc k m v ((j, w) ∷ d) h (a, s) = (omega arith, AllBelow-snoc k m v d h s)

AllBelow-weaken : (k m : ℕ) (d : Dict ℕ) → k ≤ m → AllBelow k d → AllBelow m d
AllBelow-weaken k m [] h a = tt
AllBelow-weaken k m ((j, w) ∷ d) h (a, s) = (omega arith, AllBelow-weaken k m d h s)

by_offset_lem :
    (n first : ℕ) (ps : List Residual) (d : Dict ℕ)
    → IsPatchList n first ps
    → AllBelow first d
    → by_offset ps d ≡ d ++ entries_of ps
unfolding by_offset
by_offset_lem n first [] d h a = sym (append-nil d)
by_offset_lem n first (p ∷ ps) d (f, i, b, h) a =
    let below = AllBelow-weaken first p.offset d f a in
    ap (λ d. by_offset ps d) (put_fresh p.offset p.byte d below)
    ∙ by_offset_lem n (p.offset + 1) ps (d ++ ((p.offset, p.byte) ∷ [])) h
        (AllBelow-snoc p.offset (p.offset + 1) p.byte d (omega arith) below)
    ∙ append_assoc d ((p.offset, p.byte) ∷ []) (entries_of ps)

keys-entries_of : (ps : List Residual) → Dict.keys (entries_of ps) ≡ offsets_of ps
keys-entries_of [] = refl
keys-entries_of (p ∷ ps) = ap (λ l. p.offset ∷ l) (keys-entries_of ps)

leb_order : IsTotalOrder leb
leb_order = record {
  total = λ a b h. ground arith;
  trans = λ a b c h k. ground arith;
  antisym = λ a b h k. ground arith;
}

offsets_Bounds :
    (n first x : ℕ) (ps : List Residual)
    → x ≤ first
    → IsPatchList n first ps
    → Bounds leb x (offsets_of ps)
offsets_Bounds n first x [] h a = tt
offsets_Bounds n first x (p ∷ ps) h (f, i, b, a) =
    (ground arith, offsets_Bounds n (p.offset + 1) x ps (omega arith) a)

offsets_IsSorted :
    (n first : ℕ) (ps : List Residual) → IsPatchList n first ps → IsSorted leb (offsets_of ps)
offsets_IsSorted n first [] a = tt
offsets_IsSorted n first (p ∷ ps) (f, i, b, a) = (
  offsets_Bounds n (p.offset + 1) p.offset ps (omega arith) a,
  offsets_IsSorted n (p.offset + 1) ps a,
)

get-append : (k v : ℕ) (d e : Dict ℕ) → AllBelow k d → Dict.get k (d ++ ((k, v) ∷ e)) ≡ some v
unfolding Dict.get
get-append k v [] e a = rw (==_refl k) refl
get-append k v ((j, w) ∷ d) e (a, s) = ground (arith, get-append k v d e s)

bytes_at_lem :
    (n first : ℕ) (ps : List Residual) (d : Dict ℕ)
    → IsPatchList n first ps
    → AllBelow first d
    → bytes_at (d ++ entries_of ps) (offsets_of ps) ≡ ok (map (λ p. p.byte) ps)
unfolding bytes_at
bytes_at_lem n first [] d h a = refl
bytes_at_lem n first (p ∷ ps) d (f, i, b, h) a =
    let below = AllBelow-weaken first p.offset d f a in
    let found = get-append p.offset p.byte d (entries_of ps) below in
    let small : leb p.byte 255 ≡ true = ground arith in
    let rest =
      bytes_at_lem n (p.offset + 1) ps (d ++ ((p.offset, p.byte) ∷ [])) h
        (AllBelow-snoc p.offset (p.offset + 1) p.byte d (omega arith) below) in
    let moved : bytes_at (d ++ entries_of (p ∷ ps)) (offsets_of ps) ≡ ok (map (λ p. p.byte) ps) =
      ap (λ d. bytes_at d (offsets_of ps))
        (sym (append_assoc d ((p.offset, p.byte) ∷ []) (entries_of ps)))
      ∙ rest in
    rw (found, Dict.get_or, small, moved) refl

not_below :
    (n first x : ℕ) (ps : List Residual)
    → x < first
    → IsPatchList n first ps
    → is_in x (offsets_of ps) ≡ false
not_below n first x [] h a = refl
not_below n first x (p ∷ ps) h (f, i, b, a) =
    let rest = not_below n (p.offset + 1) x ps (omega arith) a in ground arith

not_above :
    (n first x : ℕ) (ps : List Residual)
    → n ≤ x
    → IsPatchList n first ps
    → is_in x (offsets_of ps) ≡ false
not_above n first x [] h a = refl
not_above n first x (p ∷ ps) h (f, i, b, a) =
    let rest = not_above n (p.offset + 1) x ps h a in ground arith

marked_offsets_lem :
    (n rounds start : ℕ) (mask : List ℕ) (ps : List Residual)
    → start + rounds ≡ n
    → IsPatchList n start ps
    → ((x : ℕ) → start ≤ x → is_marked mask x ≡ is_in x (offsets_of ps))
    → marked_offsets mask rounds start ≡ offsets_of ps
unfolding marked_offsets
marked_offsets_lem n zero start mask [] e a m = refl
marked_offsets_lem n zero start mask (p ∷ ps) e (f, i, b, a) m = absurd (omega arith)
marked_offsets_lem n (suc rounds) start mask [] e a m =
    rw (m start (omega arith))
      (marked_offsets_lem n rounds (start + 1) mask [] (omega arith) tt (λ x h. m x (omega arith)))
marked_offsets_lem n (suc rounds) start mask (p ∷ ps) e (f, i, b, a) m =
    elim (Bool-cases (start == p.offset)) [
      | inl here ↦
          let place : start ≡ p.offset = (==_iff _ _).0 here in
          let found : is_marked mask start ≡ true = m start (omega arith) ∙ rw here refl in
          let rest : marked_offsets mask rounds (start + 1) ≡ offsets_of ps =
            marked_offsets_lem n rounds (start + 1) mask ps (omega arith)
              (subst (λ k. IsPatchList n (k + 1) ps) (sym place) a) (later place) in
          rw (found, rest) (ap (λ k. k ∷ offsets_of ps) place)
      | inr before ↦
          let low : start < p.offset = ground arith in
          let absent : is_marked mask start ≡ false =
            m start (omega arith)
            ∙ not_below n (start + 1) start (p ∷ ps) (omega arith) (omega arith, i, b, a) in
          rw absent (
            marked_offsets_lem n rounds (start + 1) mask (p ∷ ps) (omega arith)
              (omega arith, i, b, a) (λ x h. m x (omega arith)))
    ]
  where
    later : start ≡ p.offset → (x : ℕ) → start + 1 ≤ x → is_marked mask x ≡ is_in x (offsets_of ps)
    later place x h =
        let other : (x == p.offset) ≡ false = ground arith in m x (omega arith) ∙ rw other refl

read_each_lem :
    (ps : List Residual) (tail : List ℕ)
    → read_each (offsets_of ps) (map (λ p. p.byte) ps ++ tail) ≡ ok (ps, tail)
unfolding read_each read_byte
read_each_lem [] tail = refl
read_each_lem (p ∷ ps) tail = rw (read_each_lem ps tail) refl

is_outside_lem :
    (n : ℕ) (mask : List ℕ) (ps : List Residual)
    → length mask ≡ mask_size n
    → All IsByte mask
    → IsPatchList n 0 ps
    → ((x : ℕ) → is_marked mask x ≡ is_in x (offsets_of ps))
    → is_outside mask n ≡ false
unfolding is_outside
is_outside_lem n [] ps l b a m = refl
is_outside_lem n (byte ∷ mask) ps l b a m = elim (Bool-cases (n % 8 == 0)) [
  | inl even ↦ rw even refl
  | inr odd ↦
      let some_bits : 0 < n % 8 = ground arith in
      let last : length mask ≡ n / 8 = omega arith in
      let high =
        high_clear (get_or (byte ∷ mask) (length mask) 0) (n % 8)
          (get_or-IsByte (byte ∷ mask) (length mask) b) (omega arith) (λ j h k. clear last j h k) in
      rw (odd, high) refl
]
  where
    clear :
        length mask ≡ n / 8
        → (j : ℕ) → n % 8 ≤ j
        → j < 8
        → has_bit (get_or (byte ∷ mask) (length mask) 0) j ≡ false
    clear last j h k =
        let x : ℕ = n / 8 * 8 + j in
        let e1 : x / 8 ≡ length mask = omega arith in
        let e2 : x % 8 ≡ j = omega arith in
        ap₂ (λ i j. has_bit (get_or (byte ∷ mask) i 0) j) (sym e1) (sym e2)
        ∙ m x
        ∙ not_above n 0 x ps (omega arith) a

offsets_inside :
    (n first : ℕ) (ps : List Residual)
    → IsPatchList n first ps
    → All (λ o. o / 8 < length (zero_bytes (mask_size n))) (offsets_of ps)
offsets_inside n first [] a = tt
offsets_inside n first (p ∷ ps) (f, i, b, a) =
    (omega (arith, length-replicate (mask_size n) zero), offsets_inside n (p.offset + 1) ps a)

take-append : (xs ys : List ℕ) → take (length xs) (xs ++ ys) ≡ xs
take-append [] ys = refl
take-append (x ∷ xs) ys = ap (λ l. x ∷ l) (take-append xs ys)

drop-append : (xs ys : List ℕ) → drop (length xs) (xs ++ ys) ≡ ys
drop-append [] ys = refl
drop-append (x ∷ xs) ys = drop-append xs ys

-- The reader takes what was written off, and stops behind it.
pub read_bytes-append :
    (xs ys : List ℕ) (k : ℕ) → length xs ≡ k → read_bytes (xs ++ ys) k ≡ ok (xs, ys)
unfolding read_bytes
read_bytes-append xs ys k e =
    let enough : leb k (length (xs ++ ys)) ≡ true = ground (arith, length-append xs ys) in
    rw enough (
      ap₂ (λ a b. ok (a, b)) (ap (λ k. take k (xs ++ ys)) (sym e) ∙ take-append xs ys)
        (ap (λ k. drop k (xs ++ ys)) (sym e) ∙ drop-append xs ys))

-- Patches with byte values at increasing offsets below the length of a chunk are written as a
-- bitmask, and the reader returns them and stops behind them, whatever follows.
pub read-append_bitmask_residuals :
    (n : ℕ) (ps : List Residual) (tail : List ℕ)
    → IsPatchList n 0 ps
    → (bytes : List ℕ) × (append_bitmask_residuals n ps ≡ ok bytes)
      × (read_bitmask_residuals (bytes ++ tail) (length ps) n ≡ ok (ps, tail))
unfolding append_bitmask_residuals read_bitmask_residuals
read-append_bitmask_residuals n ps tail a =
    let zeros : List ℕ = zero_bytes (mask_size n) in
    let d : by_offset ps [] ≡ entries_of ps = by_offset_lem n 0 ps [] a tt in
    let (mask, e, l, b, m) =
      mark_all_lem (offsets_of ps) zeros (replicate-IsByte (mask_size n))
        (offsets_inside n 0 ps a) in
    let size : length mask ≡ mask_size n = l ∙ length-replicate (mask_size n) zero in
    let marked : (x : ℕ) → is_marked mask x ≡ is_in x (offsets_of ps) = λ x.
      m x ∙ or_false (is_in x (offsets_of ps)) (is_marked zeros x) (none_marked (mask_size n) x) in
    let bytes : List ℕ = map (λ p. p.byte) ps in
    let sorted = sort_sorted leb leb_order (offsets_of ps) (offsets_IsSorted n 0 ps a) in
    let values : bytes_at (entries_of ps) (offsets_of ps) ≡ ok bytes =
      bytes_at_lem n 0 ps [] a tt in
    let fits : leb (length ps) n ≡ true = ground (arith, count_fits n 0 ps (omega arith) a) in
    let here : read_bytes ((mask ++ bytes) ++ tail) (mask_size n) ≡ ok (mask, bytes ++ tail) =
      ap (λ l. read_bytes l (mask_size n)) (append_assoc mask bytes tail)
      ∙ read_bytes-append mask (bytes ++ tail) (mask_size n) size in
    let outside = is_outside_lem n mask ps size b a marked in
    let offsets : marked_offsets mask n 0 ≡ offsets_of ps =
      marked_offsets_lem n n 0 mask ps (omega arith) a (λ x h. marked x) in
    let count : (length (offsets_of ps) == length ps) ≡ true =
      (==_iff _ _).1 (length-map (λ p. p.offset) ps) in
    (
      mask ++ bytes,
      rw (d, keys-entries_of ps, e, sorted, values) refl,
      rw (fits, here, outside, offsets, count) (read_each_lem ps tail),
    )
  where
    or_false : (a b : Bool) → b ≡ false → (a || b) ≡ a
    or_false true b e = refl
    or_false false b e = e
