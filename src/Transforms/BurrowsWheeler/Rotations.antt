-- ===== src/Transforms/BurrowsWheeler/Rotations.antt =====
-- bogvm/transforms.py: the rotations of `_bwt_encode`, and the same rows rotated once more.
use bogbin.Common.{
  ℕ, zero, suc, ◌+◌, ◌≤◌, ◌<◌, List, [], ◌∷◌, ◌++◌, map, take, drop, length, All, arith, ◌≡◌, refl,
  sym, ap, ap₂, ◌∙◌, append-nil, append_assoc, length-append, length-take, length-drop, take_all,
  subst, All-append,
}
use bogbin.Common.Bits.{IsByte}
use mathlib.Core.List.{Permᴰ}
use mathlib.Core.List.Permᴰ
use bogbin.Transforms.BurrowsWheeler.{rotation, rotations_from, last_byte}

module _ {ℓ κ} {A : Type ℓ} {B : Type κ} where
  pub perm-map : (f : A → B) {xs ys : List A} → Permᴰ xs ys → Permᴰ (map f xs) (map f ys)
  perm-map f Permᴰ.nil = Permᴰ.nil
  perm-map f (Permᴰ.cons e p) = Permᴰ.cons (ap f e) (perm-map f p)
  perm-map f (Permᴰ.swap e d) = Permᴰ.swap (ap f e) (ap f d)
  perm-map f (Permᴰ.trans p q) = Permᴰ.trans (perm-map f p) (perm-map f q)

pub All-perm {ℓ κ} :
    {A : Type ℓ} (P : A → Type κ) {xs ys : List A} → Permᴰ xs ys → All P xs → All P ys
All-perm P Permᴰ.nil h = h
All-perm P (Permᴰ.cons e p) h = (subst P e h.0, All-perm P p h.1)
All-perm P (Permᴰ.swap e d) h = (subst P d h.1.0, (subst P e h.0, h.1.1))
All-perm P (Permᴰ.trans p q) h = All-perm P q (All-perm P p h)

unfoldable pub init : List ℕ → List ℕ
init [] = []
init (x ∷ []) = []
init (x ∷ y ∷ xs) = x ∷ init (y ∷ xs)

-- The last byte moved to the front.
unfoldable pub rotate_right : List ℕ → List ℕ
rotate_right r = last_byte r ∷ init r

last_byte-append : (xs : List ℕ) (a : ℕ) → last_byte (xs ++ (a ∷ [])) ≡ a
unfolding last_byte
last_byte-append [] a = refl
last_byte-append (x ∷ []) a = refl
last_byte-append (x ∷ y ∷ xs) a = last_byte-append (y ∷ xs) a

init-append : (xs : List ℕ) (a : ℕ) → init (xs ++ (a ∷ [])) ≡ xs
unfolding init
init-append [] a = refl
init-append (x ∷ []) a = refl
init-append (x ∷ y ∷ xs) a = ap (λ l. x ∷ l) (init-append (y ∷ xs) a)

rotate_right-append : (xs : List ℕ) (a : ℕ) → rotate_right (xs ++ (a ∷ [])) ≡ a ∷ xs
rotate_right-append xs a =
    unfold rotate_right in ap₂ (λ y ys. y ∷ ys) (last_byte-append xs a) (init-append xs a)

-- `take (k + 1)` is `take k` with one element behind it.
take-suc :
    (xs : List ℕ) (k : ℕ)
    → k < length xs
    → (a : ℕ) × (take (suc k) xs ≡ take k xs ++ (a ∷ [])) × (drop k xs ≡ a ∷ drop (suc k) xs)
take-suc [] k h = absurd (omega arith)
take-suc (x ∷ xs) zero h = (x, refl, refl)
take-suc (x ∷ xs) (suc k) h =
    let (a, t, d) = take-suc xs k (omega arith) in (a, ap (λ l. x ∷ l) t, d)

rotate_right-rotation :
    (xs : List ℕ) (k : ℕ) → k < length xs → rotate_right (rotation xs (suc k)) ≡ rotation xs k
rotate_right-rotation xs k h =
    let (a, t, d) = take-suc xs k h in
    rw (t, d, ← append_assoc) (rotate_right-append (drop (suc k) xs ++ take k xs) a)

drop_all : (xs : List ℕ) → drop (length xs) xs ≡ []
drop_all [] = refl
drop_all (x ∷ xs) = drop_all xs

rotation_full : (xs : List ℕ) → rotation xs (length xs) ≡ xs
rotation_full xs = ap₂ (λ a b. a ++ b) (drop_all xs) (take_all (length xs) xs (omega arith))

rotation-zero : (xs : List ℕ) → rotation xs 0 ≡ xs
rotation-zero xs = append-nil xs

-- The rows `rotation xs k`, ..., `rotation xs (k + n - 1)`.
abbrev pub rows : List ℕ → ℕ → ℕ → List (List ℕ)
rows xs k n = map (λ row. row.0) (rotations_from xs k n)

rotate_right-rows :
    (xs : List ℕ) (k n : ℕ) → k + n ≤ length xs → map rotate_right (rows xs (k + 1) n) ≡ rows xs k n
unfolding rotations_from
rotate_right-rows xs k zero h = refl
rotate_right-rows xs k (suc n) h =
    let next : k + 1 ≡ suc k = omega arith in
    ap₂ (λ r rs. r ∷ rs)
      (ap (λ j. rotate_right (rotation xs j)) next ∙ rotate_right-rotation xs k (omega arith))
      (rotate_right-rows xs (k + 1) n (omega arith))

rows-suc : (xs : List ℕ) (k n : ℕ) → rows xs k (suc n) ≡ rows xs k n ++ (rotation xs (k + n) ∷ [])
unfolding rotations_from
rows-suc xs k zero = ap (λ j. rotation xs j ∷ []) (omega arith)
rows-suc xs k (suc n) =
    ap (λ l. rotation xs k ∷ l)
      (rows-suc xs (k + 1) n ∙ ap (λ j. rows xs (k + 1) n ++ (rotation xs j ∷ [])) (omega arith))

perm-snoc {ℓ} : {A : Type ℓ} (a : A) (l : List A) → Permᴰ (a ∷ l) (l ++ (a ∷ []))
perm-snoc a [] = Permᴰ.refl _
perm-snoc a (b ∷ l) = Permᴰ.trans (Permᴰ.swap refl refl) (Permᴰ.cons refl (perm-snoc a l))

pub rotate_right-perm :
    (xs : List ℕ) → Permᴰ (map rotate_right (rows xs 0 (length xs))) (rows xs 0 (length xs))
rotate_right-perm [] = unfold rotations_from in Permᴰ.nil
rotate_right-perm (x ∷ xs) =
    subst (λ l. Permᴰ l (rows d 0 (suc m))) (sym turned)
      (subst (λ l. Permᴰ (rotation d m ∷ rows d 0 m) l)
        (sym (rows-suc d 0 m ∙ ap (λ j. rows d 0 m ++ (rotation d j ∷ [])) (omega arith)))
        (perm-snoc (rotation d m) (rows d 0 m)))
  where
    d : List ℕ
    d = x ∷ xs

    m : ℕ
    m = length xs

    first : rotate_right (rotation d 0) ≡ rotation d m
    first =
        ap rotate_right (rotation-zero d ∙ sym (rotation_full d))
        ∙ rotate_right-rotation d m (omega arith)

    turned : map rotate_right (rows d 0 (suc m)) ≡ rotation d m ∷ rows d 0 m
    turned =
        unfold rotations_from in ap₂ (λ r rs. r ∷ rs) first (rotate_right-rows d 0 m (omega arith))

length-rotation : (xs : List ℕ) (k : ℕ) → k ≤ length xs → length (rotation xs k) ≡ length xs
length-rotation xs k h =
    omega (arith, length-append (drop k xs) (take k xs), length-take k xs, length-drop k xs)

pub All-length-rows :
    (xs : List ℕ) (k n : ℕ) → k + n ≤ length xs → All (λ r. length r ≡ length xs) (rows xs k n)
unfolding rotations_from
All-length-rows xs k zero h = tt
All-length-rows xs k (suc n) h =
    (length-rotation xs k (omega arith), All-length-rows xs (k + 1) n (omega arith))

pub length-rotations_from : (xs : List ℕ) (k n : ℕ) → length (rotations_from xs k n) ≡ n
unfolding rotations_from
length-rotations_from xs k zero = refl
length-rotations_from xs k (suc n) = ap suc (length-rotations_from xs (k + 1) n)

-- Each row stands beside the index that it was rotated by.
pub All-rotations_from :
    (xs : List ℕ) (k n : ℕ) → All (λ row. row.0 ≡ rotation xs row.1) (rotations_from xs k n)
unfolding rotations_from
All-rotations_from xs k zero = tt
All-rotations_from xs k (suc n) = (refl, All-rotations_from xs (k + 1) n)

All-take : (xs : List ℕ) (k : ℕ) → All IsByte xs → All IsByte (take k xs)
All-take xs zero h = tt
All-take [] (suc k) h = tt
All-take (x ∷ xs) (suc k) h = (h.0, All-take xs k h.1)

All-drop : (xs : List ℕ) (k : ℕ) → All IsByte xs → All IsByte (drop k xs)
All-drop xs zero h = h
All-drop [] (suc k) h = tt
All-drop (x ∷ xs) (suc k) h = All-drop xs k h.1

pub All-IsByte-rows : (xs : List ℕ) (k n : ℕ) → All IsByte xs → All (All IsByte) (rows xs k n)
unfolding rotations_from
All-IsByte-rows xs k zero h = tt
All-IsByte-rows xs k (suc n) h = (
  All-append IsByte (drop k xs) (take k xs) (All-drop xs k h) (All-take xs k h),
  All-IsByte-rows xs (k + 1) n h,
)
