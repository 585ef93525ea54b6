-- ===== src/Residual.antt =====
-- A patch of one byte, the dict with the keys "offset" and "byte" of bogvm/vm.py, bogvm/optimizer.py
-- and bogvm/container.py.
use bogbin.Common.{ℕ, ◌+◌, ◌≤◌, ◌<◌, List, [], ◌∷◌}
use bogbin.Common.Bits.{IsByte}

pub record Residual : Type 0 where
  pub offset : ℕ
  pub byte : ℕ

-- The patches are bytes at increasing offsets below the length, from `first` on.
abbrev pub IsPatchList : ℕ → ℕ → List Residual → Type 0
IsPatchList n first [] = Unit
IsPatchList n first (p ∷ ps) =
    (first ≤ p.offset) × (p.offset < n) × IsByte p.byte × IsPatchList n (p.offset + 1) ps
