-- ===== src/Container/Accepted.antt =====
-- bogvm/container.py: what `decode_bogpk_container` accepts, whoever wrote it.
use bogbin.Common.{
  ℕ, ◌+◌, Bool, true, false, some, List, [], ◌∷◌, ◌++◌, length, ltb, ◌==◌, ==_iff, set, Result, ok,
  err, ◌>>◌, >>=-eq-ok, guard, String, str_eq, eq_iff, ◌≡◌, refl, sym, ap, ◌∙◌, subst, arith,
}
use bogbin.Common.Dict
use bogbin.Common.Dict.{Dict}
use bogbin.Bases.{Basis, synthesize_basis}
use bogbin.Transforms.{invert_transform}
use bogbin.Residual.{Residual}
use bogbin.Container.Errors.{ContainerError, from_basis, inversion_failed}
use bogbin.Container.Records.{Chunk, Container, bog_format, bogbin_format, is_sha256}
use bogbin.Container.Validate.{validate_bog_container}
use bogbin.Container.Descriptor.{Descriptor}
use bogbin.Container.Decode.{
  decode_chunks, decode_bogpk_container, decoded_container, decoded_chunk_length,
  read_chunk_residuals, synthesize_residual_chunk, patch_all, read_header, check_header,
  read_descriptors, residuals_in,
}
use bogbin.Container.Reconstruct.{
  lift_error, apply_patches, restore_chunk, restore_chunks, all_keys,
  reconstruct_bog_container_bytes,
}
use bogbin.Container.Restored.{IsIndexed, StandsFrom, index_chunks_lem, all_keys_lem}

pub guard-eq-ok {ℓ} :
    {A : Type ℓ} (b : Bool) (e : ContainerError) (rest : Result ContainerError A) {out : A}
    → (guard b e >> rest) ≡ ok out
    → (b ≡ true) × (rest ≡ ok out)
guard-eq-ok true e rest h = (refl, h)
guard-eq-ok false e rest h = cc

ok_injective {ℓ} : {A : Type ℓ} {a b : A} → Path (Result ContainerError A) (ok a) (ok b) → a ≡ b
ok_injective h = cc

lift_error-eq-ok {ℓ} :
    {E : Type ℓ} {A : Type ℓ} (f : E → ContainerError) (r : Result E A) {out : A}
    → lift_error f r ≡ ok out
    → r ≡ ok out
lift_error-eq-ok f (ok a) h = cc
lift_error-eq-ok f (err e) h = cc

patch_all-same : (ps : List Residual) (xs : List ℕ) → patch_all ps xs ≡ apply_patches ps xs
unfolding patch_all apply_patches
patch_all-same [] xs = refl
patch_all-same (p ∷ ps) xs = rw (patch_all-same ps (set xs p.offset p.byte)) refl

module _ (sha256 : List ℕ → String) where
  -- Each chunk is restored to its piece of the bytes.
  abbrev RestoresTo : ℕ → List Chunk → List ℕ → Type 0
  RestoresTo index [] out = out ≡ []
  RestoresTo index (c ∷ cs) out =
      (piece : List ℕ) × (rest : List ℕ) × (out ≡ piece ++ rest)
      × (restore_chunk sha256 index c ≡ ok piece)
      × RestoresTo (index + 1) cs rest

  restore_chunks-eq-ok :
      (cs : List Chunk) (index : ℕ) (out : List ℕ) (d : Dict Chunk)
      → RestoresTo index cs out
      → StandsFrom d index cs
      → restore_chunks sha256 d (length cs) index ≡ ok out
  unfolding restore_chunks
  restore_chunks-eq-ok [] index out d r s = ap ok (sym r)
  restore_chunks-eq-ok (c ∷ cs) index out d (piece, rest, e, h, r) (g, s) =
      rw (g, h, restore_chunks-eq-ok cs (index + 1) rest d r s) (ap ok (sym e))

  -- A chunk with the hashes of what its entries give is restored.
  restored_lem :
      (c : Chunk) (index : ℕ) (b : Basis) (transformed original : List ℕ)
      → c.basis ≡ some b
      → synthesize_residual_chunk b c.start_byte c.delta c.length c.residuals ≡ ok transformed
      → invert_transform c.transform transformed c.transform_param ≡ ok original
      → c.chunk_sha256 ≡ sha256 transformed
      → c.transformed_sha256 ≡ sha256 transformed
      → c.original_chunk_sha256 ≡ sha256 original
      → restore_chunk sha256 index c ≡ ok original
  unfolding restore_chunk synthesize_residual_chunk
  restored_lem c index b transformed original basis made inverted h1 h2 h3 =
      let (generated, g, p) =
        >>=-eq-ok (lift_error from_basis (synthesize_basis (some b) c.start_byte c.length c.delta))
          (patch_all c.residuals) made in
      let g' =
        lift_error-eq-ok from_basis (synthesize_basis (some b) c.start_byte c.length c.delta) g in
      let p' : apply_patches c.residuals generated ≡ ok transformed =
        sym (patch_all-same c.residuals generated) ∙ p in
      let e1 : str_eq (sha256 transformed) c.chunk_sha256 ≡ true = (eq_iff _ _).1 (sym h1) in
      let e2 : str_eq (sha256 transformed) c.transformed_sha256 ≡ true = (eq_iff _ _).1 (sym h2) in
      let e3 : str_eq (sha256 original) c.original_chunk_sha256 ≡ true = (eq_iff _ _).1 (sym h3) in
      rw (basis, g', p', e1, e2, inverted, e3) refl

  decoded_lem :
      (total n size : ℕ) (ds : List Descriptor) (index : ℕ) (input tail out : List ℕ)
      (cs : List Chunk)
      → decode_chunks sha256 total n size ds index input ≡ ok (cs, out, tail)
      → IsIndexed index cs × RestoresTo index cs out
  unfolding decode_chunks
  decoded_lem total n size [] index input tail out cs e =
      subst (λ t. IsIndexed index t.0 × RestoresTo index t.0 t.1) (ok_injective e) (tt, refl)
  decoded_lem total n size (d ∷ ds) index input tail out cs e =
      let (long, _, e1) = >>=-eq-ok (decoded_chunk_length index total n size) _ e in
      let ((residuals, next), _, e2) = >>=-eq-ok (read_chunk_residuals input d long) _ e1 in
      let (transformed, t, e3) =
        >>=-eq-ok (synthesize_residual_chunk d.basis d.start_byte d.delta long residuals) _ e2 in
      let (original, o, e4) =
        >>=-eq-ok
          (lift_error inversion_failed
            (invert_transform (some d.transform) transformed d.transform_param))
          _ e3 in
      let ((later, originals, rest), r, e5) =
        >>=-eq-ok (decode_chunks sha256 total n size ds (index + 1) next) _ e4 in
      let (i, v) = decoded_lem total n size ds (index + 1) next rest originals later r in
      subst (λ t. IsIndexed index t.0 × RestoresTo index t.0 t.1) (ok_injective e5)
        (
          (refl, i),
          (
            original,
            originals,
            refl,
            restored_lem _ index d.basis transformed original refl t
                (lift_error-eq-ok inversion_failed
                  (invert_transform (some d.transform) transformed d.transform_param) o)
                refl refl refl,
            v,
          ),
        )

module _ (sha256 : List ℕ → String) (round_quotient : ℕ → ℕ → ℕ)
    (fits_schema : Container → Bool) where
  -- A valid container whose chunks are restored to bytes with its hash is reconstructed.
  reconstruct_lem :
      (c : Container) (out : List ℕ)
      → validate_bog_container c ≡ ok tt
      → length c.chunks ≡ c.chunk_count
      → IsIndexed 0 c.chunks
      → RestoresTo sha256 0 c.chunks out
      → sha256 out ≡ c.whole_sha256
      → reconstruct_bog_container_bytes sha256 c ≡ ok out
  unfolding reconstruct_bog_container_bytes
  reconstruct_lem c out valid size i r h =
      let (d, e, st, _, k, b) =
        index_chunks_lem c.chunks c.chunk_count 0 [] i (omega (arith, size))
          (λ j i. Dict.get-empty j) (λ j i. absurd (omega arith)) refl in
      let every : all_keys c.chunk_count d ≡ true =
        all_keys_lem c.chunk_count d (λ j i. k j (omega (arith, size))) in
      let restored : restore_chunks sha256 d c.chunk_count 0 ≡ ok out =
        ap (λ m. restore_chunks sha256 d m 0) (sym size)
        ∙ restore_chunks-eq-ok sha256 c.chunks 0 out d r st in
      let same : str_eq (sha256 out) c.whole_sha256 ≡ true = (eq_iff _ _).1 h in
      rw (valid, e, b, every, restored, same) refl

  count_lem : (c : Container) → validate_bog_container c ≡ ok tt → length c.chunks ≡ c.chunk_count
  unfolding validate_bog_container
  count_lem c h =
      let (_, h1) = guard-eq-ok (str_eq c.format bog_format) _ _ h in
      let (_, h2) = guard-eq-ok (str_eq c.vm_format bogbin_format) _ _ h1 in
      let (_, h3) = guard-eq-ok (str_eq c.pack_mode "chunked") _ _ h2 in
      let (_, h4) = guard-eq-ok (ltb 0 c.chunk_size) _ _ h3 in
      let (_, h5) = guard-eq-ok (is_sha256 c.whole_sha256) _ _ h4 in
      let (e, _) = guard-eq-ok (length c.chunks == c.chunk_count) _ _ h5 in (==_iff _ _).0 e

  -- Whatever bytes the decoder accepts, whoever made them, the container that it returns is valid,
  -- and it is reconstructed to data that have its hash.
  pub decode-reconstructs :
      (packed : List ℕ) (c : Container)
      → decode_bogpk_container round_quotient sha256 fits_schema packed ≡ ok c
      → (out : List ℕ) × (validate_bog_container c ≡ ok tt)
        × (reconstruct_bog_container_bytes sha256 c ≡ ok out)
        × (sha256 out ≡ c.whole_sha256)
  unfolding decode_bogpk_container decoded_container
  decode-reconstructs packed c e =
      let ((h, at_descriptors), _, e1) = >>=-eq-ok (read_header packed) _ e in
      let (_, _, e2) = >>=-eq-ok (check_header h) _ e1 in
      let ((descriptors, at_residuals), _, e3) =
        >>=-eq-ok (read_descriptors h.chunk_count h.flags h.chunk_count at_descriptors) _ e2 in
      let ((chunks, out, at_end), d, e4) =
        >>=-eq-ok
          (decode_chunks sha256 h.chunk_count h.chunk_size h.original_length descriptors 0
            at_residuals)
          _ e3 in
      let (_, e5) = guard-eq-ok (residuals_in chunks == h.total_residual_count) _ _ e4 in
      let (_, e6) = guard-eq-ok (length at_end == 0) _ _ e5 in
      let (_, e7) = guard-eq-ok (length out == h.original_length) _ _ e6 in
      let (s, e8) = guard-eq-ok (str_eq (sha256 out) h.whole_sha256) _ _ e7 in
      let (_, valid, e9) =
        >>=-eq-ok (validate_bog_container (decoded_container round_quotient h chunks)) _ e8 in
      let (_, e10) = guard-eq-ok (fits_schema (decoded_container round_quotient h chunks)) _ _ e9 in
      let same : decoded_container round_quotient h chunks ≡ c = ok_injective e10 in
      let (i, r) =
        decoded_lem sha256 h.chunk_count h.chunk_size h.original_length descriptors 0 at_residuals
          at_end out chunks d in
      let hash : sha256 out ≡ h.whole_sha256 = (eq_iff _ _).0 s in
      let size = count_lem (decoded_container round_quotient h chunks) valid in
      let whole =
        reconstruct_lem (decoded_container round_quotient h chunks) out valid size i r hash in
      (
        out,
        subst (λ c. validate_bog_container c ≡ ok tt) same valid,
        subst (λ c. reconstruct_bog_container_bytes sha256 c ≡ ok out) same whole,
        subst (λ c. sha256 out ≡ c.whole_sha256) same hash,
      )
