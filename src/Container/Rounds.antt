-- ===== src/Container/Rounds.antt =====
-- bogvm/container.py: the loop of `decode_bogpk_container` over the descriptors.
use bogbin.Common.{
  ℕ, zero, suc, ◌-◌, ◌≤◌, not, List, [], ◌∷◌, ◌++◌, length, length-append, length-replicate,
  replicate, leb, leb→le, ◌==◌, Bool-cases, inl, inr, Result, ok, >>=-eq-ok, ◌≡◌, sym, ap, ◌∙◌,
  arith, bit_and,
}
use bogbin.Container.Errors.{ContainerError}
use bogbin.Container.Varuint.{decode_varuint}
use bogbin.Container.Residuals.{read_byte}
use bogbin.Container.Descriptor.{Descriptor, decode_descriptor}
use bogbin.Container.Encode.{descriptor_sentinel, zero_residual_runs}
use bogbin.Container.Decode.{read_entry, read_descriptors}
use bogbin.Container.Accepted.{guard-eq-ok}

first_length :
    {a b : List Descriptor} {c d : List ℕ}
    → Path (Result ContainerError (List Descriptor × List ℕ)) (ok (a, c)) (ok (b, d))
    → length a ≡ length b
first_length e = ap length (same e)
  where
    same :
        {a b : List Descriptor} {c d : List ℕ}
        → Path (Result ContainerError (List Descriptor × List ℕ)) (ok (a, c)) (ok (b, d))
        → a ≡ b
    same e = cc

run_then_more :
    (one : Descriptor) (more : List Descriptor) (run_length left : ℕ)
    → run_length ≤ suc left
    → length more ≡ suc left - run_length
    → length (replicate run_length one ++ more) ≡ suc left
run_then_more one more run_length left fits e =
    omega (arith, length-append (replicate run_length one) more, length-replicate run_length one)

fewer : (fuel left : ℕ) → suc left ≤ suc fuel → left ≤ fuel
fewer fuel left h = omega arith

fewer_left :
    (fuel run_length left : ℕ) → suc left ≤ suc fuel → 2 ≤ run_length → suc left - run_length ≤ fuel
fewer_left fuel run_length left h two = omega arith

-- With as much fuel as descriptors are missing, the loop over the descriptors of a packed container
-- ends, where it raises no exception, with exactly that many.
pub length-read_descriptors :
    (fuel flags left : ℕ) (bytes rest : List ℕ) (ds : List Descriptor)
    → left ≤ fuel
    → read_descriptors fuel flags left bytes ≡ ok (ds, rest)
    → length ds ≡ left
unfolding read_descriptors
length-read_descriptors zero flags zero bytes rest ds h e = sym (first_length e)
length-read_descriptors (suc fuel) flags zero bytes rest ds h e = sym (first_length e)
length-read_descriptors zero flags (suc left) bytes rest ds h e = absurd (omega arith)
length-read_descriptors (suc fuel) flags (suc left) [] rest ds h e = cc
length-read_descriptors (suc fuel) flags (suc left) (marker ∷ input) rest ds h e =
    elim (Bool-cases (marker == descriptor_sentinel)) [
      | inl run ↦
          let e0 = rw (run, read_descriptors) at e in
          let (_, e1) = guard-eq-ok (not (bit_and flags zero_residual_runs == 0)) _ _ e0 in
          let ((run_length, at_descriptor), _, e2) = >>=-eq-ok (decode_varuint input) _ e1 in
          let (low, e3) = guard-eq-ok (leb 2 run_length) _ _ e2 in
          let ((descriptor, at_start), _, e4) = >>=-eq-ok (read_byte at_descriptor) _ e3 in
          let ((start, delta, param, next), _, e5) =
            >>=-eq-ok (read_entry at_start descriptor) _ e4 in
          let (high, e6) = guard-eq-ok (leb run_length (suc left)) _ _ e5 in
          let (one, _, e7) = >>=-eq-ok (decode_descriptor descriptor start delta param 0) _ e6 in
          let ((more, end), r, e8) =
            >>=-eq-ok (read_descriptors fuel flags (suc left - run_length) next) _ e7 in
          let two : 2 ≤ run_length = leb→le 2 run_length low in
          let fits : run_length ≤ suc left = leb→le run_length (suc left) high in
          let later =
            length-read_descriptors fuel flags (suc left - run_length) next end more
              (fewer_left fuel run_length left h two) r in
          sym (first_length e8) ∙ run_then_more one more run_length left fits later
      | inr single ↦
          let e0 = rw (single, read_descriptors) at e in
          let ((start, delta, param, next), _, e1) = >>=-eq-ok (read_entry input marker) _ e0 in
          let ((count, at_next), _, e2) = >>=-eq-ok (decode_varuint next) _ e1 in
          let (one, _, e3) = >>=-eq-ok (decode_descriptor marker start delta param count) _ e2 in
          let ((more, end), r, e4) = >>=-eq-ok (read_descriptors fuel flags left at_next) _ e3 in
          let later =
            length-read_descriptors fuel flags left at_next end more (fewer fuel left h) r in
          sym (first_length e4) ∙ ap suc later
    ]
