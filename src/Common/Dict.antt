-- ===== src/Common/Dict.antt =====
-- Python's `dict` with keys that are natural numbers. The program reads a dict by key, or by its
-- sorted keys, so the order of the entries is not observed.
use Prim.Native.Nat.{ℕ}
use mathlib.Core.Path.{◌≡◌, refl}
use mathlib.Core.Bool.{Bool, true, false}
use mathlib.Core.Option.{Option, none, some}
use mathlib.Core.List.{List, [], ◌∷◌, map}
use native.Mathlib.Omega.{arith}
use bogbin.Common.Tests.{◌==◌, if◌then◌else◌}

abbrev pub Dict {ℓ} : Type ℓ → Type ℓ
Dict V = List (ℕ × V)

module _ {ℓ} {V : Type ℓ} where
  -- `d.get(k)`
  unfoldable pub get : ℕ → Dict V → Option V
  get k [] = none
  get k ((j, v) ∷ d) = if j == k then some v else get k d

  -- `d[k] = v`
  unfoldable pub put : ℕ → V → Dict V → Dict V
  put k v [] = (k, v) ∷ []
  put k v ((j, w) ∷ d) = if j == k then (k, v) ∷ d else (j, w) ∷ put k v d

  -- `d.get(k, default)`
  abbrev pub get_or : ℕ → V → Dict V → V
  get_or k default d = elim (get k d) [ none ↦ default | some v ↦ v ]

  -- `k in d`
  abbrev pub contains : ℕ → Dict V → Bool
  contains k d = elim (get k d) [ none ↦ false | some v ↦ true ]

  abbrev pub keys : Dict V → List ℕ
  keys d = map (λ entry. entry.0) d

  pub get-put :
      (k j : ℕ) (v : V) (d : Dict V) → get j (put k v d) ≡ (if k == j then some v else get j d)
  unfolding get put
  get-put k j v [] = refl
  get-put k j v ((i, w) ∷ d) = ground (arith, get-put k j v d)

  pub get-put_self : (k : ℕ) (v : V) (d : Dict V) → get k (put k v d) ≡ some v
  get-put_self k v d = ground (arith, get-put k k v d)

  pub get-empty : (k : ℕ) → get k [] ≡ none
  unfolding get
  get-empty k = refl

  -- A key that is there stays there.
  pub contains-put :
      (k j : ℕ) (v : V) (d : Dict V) → contains j d ≡ true → contains j (put k v d) ≡ true
  contains-put k j v d h = ground (arith, get-put k j v d)
