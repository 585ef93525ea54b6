-- ===== src/Container/Residuals.antt =====
-- bogvm/container.py: `_append_residuals` and `_read_residuals`, which store the offset of each
-- patch against the one before it.
use bogbin.Common.{
  ℕ, zero, suc, ◌+◌, ◌-◌, ◌≤◌, ◌^◌, true, Option, none, some, List, [], ◌∷◌, ◌++◌, append_assoc,
  leb, ltb, lt→ltb, length, Result, ok, err, ◌>>=◌, ◌>>◌, guard, ◌≡◌, refl, arith,
}
use bogbin.Residual.{Residual, IsPatchList}
use bogbin.Container.Errors.{
  ContainerError, unexpected_end, negative, residual_count, residual_offset, byte_value,
}
use bogbin.Container.Varuint.{encode_varuint, decode_varuint, decode-encode_varuint}

-- The first offset that may follow the previous one, where `none` is -1.
abbrev pub next_offset : Option ℕ → ℕ
next_offset none = 0
next_offset (some previous) = previous + 1

-- The loop of `_append_residuals`: the bytes that it appends. `_encode_varuint` raises for a
-- difference below 0.
unfoldable pub append_from : Option ℕ → List Residual → Result ContainerError (List ℕ)
append_from previous [] = ok []
append_from previous (p ∷ ps) = do
  guard (leb (next_offset previous) p.offset) negative
  guard (leb p.byte 255) byte_value
  rest ← append_from (some p.offset) ps
  ok (encode_varuint (p.offset - next_offset previous) ++ (p.byte ∷ rest))

-- `_append_residuals`
unfoldable pub append_residuals : List Residual → Result ContainerError (List ℕ)
unfolding append_from
append_residuals residuals = append_from none residuals

-- `_ByteReader.read_byte`
unfoldable pub read_byte : List ℕ → Result ContainerError (ℕ × List ℕ)
read_byte [] = err unexpected_end
read_byte (byte ∷ bytes) = ok (byte, bytes)

-- The loop of `_read_residuals`.
unfoldable pub read_from :
    ℕ → ℕ → Option ℕ → List ℕ → Result ContainerError (List Residual × List ℕ)
unfolding read_byte
read_from zero length previous bytes = ok ([], bytes)
read_from (suc count) length previous bytes = do
  (offset_delta, at_byte) ← decode_varuint bytes
  let offset : ℕ = next_offset previous + offset_delta
  guard (ltb offset length) residual_offset
  (byte, at_next) ← read_byte at_byte
  (rest, at_end) ← read_from count length (some offset) at_next
  ok (record { offset = offset; byte = byte } ∷ rest, at_end)

-- `_read_residuals`
unfoldable pub read_residuals : List ℕ → ℕ → ℕ → Result ContainerError (List Residual × List ℕ)
unfolding read_from
read_residuals bytes count length = do
  guard (leb count length) residual_count
  read_from count length none bytes

pub count_fits :
    (n first : ℕ) (ps : List Residual) → first ≤ n → IsPatchList n first ps → first + length ps ≤ n
count_fits n first [] h l = omega arith
count_fits n first (p ∷ ps) h (a, b, _, l) =
    omega (arith, count_fits n (p.offset + 1) ps (omega arith) l)

round_from :
    (n : ℕ) (previous : Option ℕ) (ps : List Residual) (tail : List ℕ)
    → n ≤ 128 ^ 10
    → IsPatchList n (next_offset previous) ps
    → (bytes : List ℕ) × (append_from previous ps ≡ ok bytes)
      × (read_from (length ps) n previous (bytes ++ tail) ≡ ok (ps, tail))
unfolding append_from read_from read_byte
round_from n previous [] tail h l = ([], refl, refl)
round_from n previous (p ∷ ps) tail h (a, b, c, l) =
    let (bytes, e, r) = round_from n (some p.offset) ps tail h l in
    let low : leb (next_offset previous) p.offset ≡ true = ground arith in
    let small : leb p.byte 255 ≡ true = ground arith in
    let delta : ℕ = p.offset - next_offset previous in
    let back : next_offset previous + delta ≡ p.offset = omega arith in
    let inside : ltb p.offset n ≡ true = lt→ltb p.offset n b in
    let joined : (encode_varuint delta ++ (p.byte ∷ bytes)) ++ tail
        ≡ encode_varuint delta ++ (p.byte ∷ (bytes ++ tail)) =
      append_assoc (encode_varuint delta) (p.byte ∷ bytes) tail in
    let read = decode-encode_varuint delta (p.byte ∷ (bytes ++ tail)) (omega arith) in
    (
      encode_varuint delta ++ (p.byte ∷ bytes),
      rw (low, small, e) refl,
      rw (joined, read, back, inside, r) refl,
    )

-- Patches with byte values at increasing offsets below a length of at most 128 ^ 10 are written, and
-- the reader returns them and stops behind them, whatever follows.
pub read-append_residuals :
    (n : ℕ) (ps : List Residual) (tail : List ℕ)
    → n ≤ 128 ^ 10
    → IsPatchList n 0 ps
    → (bytes : List ℕ) × (append_residuals ps ≡ ok bytes)
      × (read_residuals (bytes ++ tail) (length ps) n ≡ ok (ps, tail))
unfolding append_residuals read_residuals
read-append_residuals n ps tail h l =
    let (bytes, e, r) = round_from n none ps tail h l in
    let fits : leb (length ps) n ≡ true = ground (arith, count_fits n 0 ps (omega arith) l) in
    (bytes, e, rw (fits, r) refl)
