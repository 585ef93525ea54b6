-- ===== src/Container/Entries.antt =====
-- bogvm/container.py: what the reader finds of one chunk.
use bogbin.Common.{
  ℕ, ◌+◌, ◌/◌, ◌^◌, ◌≤◌, ◌<◌, bit_and, Bool, true, false, &&-true, some, List, [], ◌∷◌, ◌++◌,
  length, get_elem?, leb, ltb, ◌==◌, ==_iff, Bool-cases, inl, inr, Result, ok, option_case, ◌≡◌,
  refl, sym, ap, ap₂, ◌∙◌, arith,
}
use bogbin.Bases.{Basis}
use bogbin.Residual.{Residual, IsPatchList}
use bogbin.Transforms.Names.{Transform, transform_order, is_bwt_transform}
use bogbin.Optimizer.Chunks.{transform_id}
use bogbin.Container.Errors.{ContainerError}
use bogbin.Container.Records.{Chunk}
use bogbin.Container.Varuint.{decode-encode_varuint}
use bogbin.Container.Residuals.{
  read_byte, append_residuals, read_residuals, read_from, read-append_residuals,
}
use bogbin.Container.Bitmask.{
  append_bitmask_residuals, best_is_bitmask, mask_size, read_bitmask_residuals,
}
use bogbin.Container.Masked.{read-append_bitmask_residuals}
use bogbin.Container.Descriptor.{
  Descriptor, basis_id, decode_descriptor, append_transform_param, read_transform_param, is_alike,
}
use bogbin.Container.Descriptors.{
  decode-encode_descriptor, transform_id-injective, basis_id-injective,
}
use bogbin.Container.Encode.{entry_bytes, residual_entry, descriptor_sentinel}
use bogbin.Container.Decode.{read_entry, read_chunk_residuals}

-- What the encoding keeps of a chunk: its fields fit, and a transform without a parameter has 0.
pub record IsPackable (c : Chunk) : Type 0 where
  pub transform : Transform
  pub basis : Basis
  pub transform_right : c.transform ≡ some transform
  pub basis_right : c.basis ≡ some basis
  pub start_small : c.start_byte ≤ 255
  pub delta_small : c.delta ≤ 255
  pub param_small : c.transform_param < 128 ^ 10
  pub param_zero : is_bwt_transform transform ≡ false → c.transform_param ≡ 0
  pub count_right : c.residual_count ≡ length c.residuals
  pub patches_fit : IsPatchList c.length 0 c.residuals
  pub length_small : c.length ≤ 65535

-- The descriptor has the coefficients and the transform of the chunk.
abbrev pub IsDescriptorOf : Descriptor → Chunk → Type 0
IsDescriptorOf d c =
    (c.transform ≡ some d.transform)
    × (c.basis ≡ some d.basis)
    × (c.start_byte ≡ d.start_byte)
    × (c.delta ≡ d.delta)
    × (c.transform_param ≡ d.transform_param)

abbrev pub descriptor_of : (c : Chunk) → IsPackable c → Bool → Descriptor
descriptor_of c v is_bitmask = record {
  transform = v.transform;
  basis = v.basis;
  start_byte = c.start_byte;
  delta = c.delta;
  transform_param = c.transform_param;
  residual_count = c.residual_count;
  is_bitmask = is_bitmask;
}

pub descriptor_of-IsDescriptorOf :
    (c : Chunk) (v : IsPackable c) (b : Bool) → IsDescriptorOf (descriptor_of c v b) c
descriptor_of-IsDescriptorOf c v b = (v.transform_right, v.basis_right, refl, refl, refl)

-- The parameter is read back; one that is not written is 0.
param_lem :
    (c : Chunk) (v : IsPackable c) (value : ℕ) (tail : List ℕ)
    → get_elem? transform_order (bit_and (value / 2 ^ 5) 7) ≡ some v.transform
    → read_transform_param (append_transform_param c ++ tail) value ≡ ok (c.transform_param, tail)
unfolding read_transform_param append_transform_param
param_lem c v value tail g = elim (Bool-cases (is_bwt_transform v.transform)) [
  | inl written ↦
      rw (v.transform_right, g, written)
        (decode-encode_varuint c.transform_param tail v.param_small)
  | inr absent ↦
      rw (v.transform_right, g, absent) (ap (λ k. ok (k, tail)) (sym (v.param_zero absent)))
]

-- The bytes of an entry, behind which the reader finds what follows.
pub entry_lem :
    (c : Chunk) (v : IsPackable c) (is_bitmask : Bool)
    → (value : ℕ) × (rest : List ℕ) × (entry_bytes c is_bitmask ≡ ok (value ∷ rest))
      × ((value == descriptor_sentinel) ≡ false)
      × ((tail : List ℕ)
          → read_entry (rest ++ tail) value ≡ ok (c.start_byte, c.delta, c.transform_param, tail))
      × (decode_descriptor value c.start_byte c.delta c.transform_param c.residual_count
          ≡ ok (descriptor_of c v is_bitmask))
unfolding entry_bytes read_entry read_byte
entry_lem c v is_bitmask =
    let (value, e, small, g, d) =
      decode-encode_descriptor c v.transform v.basis is_bitmask c.start_byte c.delta
        c.transform_param c.residual_count v.transform_right v.basis_right in
    let a : leb c.start_byte 255 ≡ true = ground (arith, v.start_small) in
    let b : leb c.delta 255 ≡ true = ground (arith, v.delta_small) in
    (
      value,
      c.start_byte ∷ c.delta ∷ append_transform_param c,
      rw (e, a, b) refl,
      ground arith,
      λ tail. rw (param_lem c v value tail g) refl,
      d,
    )

-- The residuals of a chunk are written in the encoding that is chosen, and read back.
pub residual_entry_lem :
    (c : Chunk) (v : IsPackable c)
    → (is_bitmask : Bool) × (bytes : List ℕ) × (best_is_bitmask c.residual_count c.length
          c.residuals
        ≡ ok is_bitmask)
      × (residual_entry c is_bitmask ≡ ok bytes)
      × ((tail : List ℕ)
          → read_chunk_residuals (bytes ++ tail) (descriptor_of c v is_bitmask) c.length
            ≡ ok (c.residuals, tail))
unfolding best_is_bitmask residual_entry read_chunk_residuals
residual_entry_lem c v =
    let (delta_bytes, e, _) = read-append_residuals c.length c.residuals [] small v.patches_fit in
    elim (Bool-cases (c.residual_count == 0)) [
      | inl none_left ↦ (false, delta_bytes, rw none_left refl, e, read_delta delta_bytes e)
      | inr positive ↦
          elim (Bool-cases (ltb (mask_size c.length + c.residual_count) (length delta_bytes))) [
            | inl smaller ↦
                let (mask_bytes, e', _) =
                  read-append_bitmask_residuals c.length c.residuals [] v.patches_fit in
                (true, mask_bytes, rw (positive, e, smaller) refl, e', read_mask mask_bytes e')
            | inr larger ↦
                (false, delta_bytes, rw (positive, e, larger) refl, e, read_delta delta_bytes e)
          ]
    ]
  where
    small : c.length ≤ 128 ^ 10
    small = omega (arith, v.length_small)

    same_bytes : {r : Result ContainerError (List ℕ)} {a b : List ℕ} → r ≡ ok a → r ≡ ok b → a ≡ b
    same_bytes p q = cc

    read_delta :
        (bytes : List ℕ)
        → append_residuals c.residuals ≡ ok bytes
        → (tail : List ℕ)
        → read_residuals (bytes ++ tail) c.residual_count c.length ≡ ok (c.residuals, tail)
    read_delta bytes e tail =
        let (b, e', r) = read-append_residuals c.length c.residuals tail small v.patches_fit in
        ap₂ (λ l k. read_residuals (l ++ tail) k c.length) (same_bytes e e') v.count_right ∙ r

    read_mask :
        (bytes : List ℕ)
        → append_bitmask_residuals c.length c.residuals ≡ ok bytes
        → (tail : List ℕ)
        → read_bitmask_residuals (bytes ++ tail) c.residual_count c.length ≡ ok (c.residuals, tail)
    read_mask bytes e tail =
        let (b, e', r) = read-append_bitmask_residuals c.length c.residuals tail v.patches_fit in
        ap₂ (λ l k. read_bitmask_residuals (l ++ tail) k c.length) (same_bytes e e') v.count_right
        ∙ r

nothing_left : (ps : List Residual) → length ps ≡ 0 → ps ≡ []
nothing_left [] e = refl
nothing_left (p ∷ ps) e = absurd (omega arith)

-- A chunk without residuals has nothing in their stream.
pub nothing_lem :
    (c : Chunk) (v : IsPackable c) (d : Descriptor)
    → c.residual_count ≡ 0
    → d.residual_count ≡ 0
    → d.is_bitmask ≡ false
    → (tail : List ℕ) → read_chunk_residuals tail d c.length ≡ ok (c.residuals, tail)
unfolding read_chunk_residuals read_residuals read_from
nothing_lem c v d e f b tail =
    let fits : leb 0 c.length ≡ true = ground arith in
    let delta : read_residuals tail d.residual_count c.length ≡ ok (c.residuals, tail) =
      ap (λ k. read_residuals tail k c.length) f
      ∙ rw fits (
          ap (λ ps. ok (ps, tail))
            (sym (nothing_left c.residuals (omega (arith, v.count_right, e))))) in
    rw b delta

-- A chunk of a run has the descriptor of the first one.
pub is_alike_lem :
    (c x : Chunk) (v : IsPackable c) (w : IsPackable x)
    → is_alike c x ≡ true
    → (x.residual_count ≡ 0) × IsDescriptorOf (descriptor_of c v false) x
unfolding is_alike
is_alike_lem c x v w h =
    let (h1, g) = &&-true _ (x.delta == c.delta) h in
    let (h2, f) = &&-true _ (x.start_byte == c.start_byte) h1 in
    let (h3, e) = &&-true _ (option_case x.basis 9 basis_id == option_case c.basis 9 basis_id) h2 in
    let (h4, d) = &&-true _ (x.transform_param == c.transform_param) h3 in
    let (a, b) =
      &&-true (x.residual_count == 0)
        (option_case x.transform 7 transform_id == option_case c.transform 7 transform_id) h4 in
    let same_transform : w.transform ≡ v.transform =
      transform_id-injective w.transform v.transform (
        ap (λ t. option_case t 7 transform_id) (sym w.transform_right)
        ∙ (==_iff _ _).0 b
        ∙ ap (λ t. option_case t 7 transform_id) v.transform_right) in
    let same_basis : w.basis ≡ v.basis = basis_id-injective w.basis v.basis (
      ap (λ t. option_case t 9 basis_id) (sym w.basis_right)
      ∙ (==_iff _ _).0 e
      ∙ ap (λ t. option_case t 9 basis_id) v.basis_right) in
    (
      (==_iff _ _).0 a,
      (
        w.transform_right ∙ ap some same_transform,
        w.basis_right ∙ ap some same_basis,
        (==_iff _ _).0 f,
        (==_iff _ _).0 g,
        (==_iff _ _).0 d,
      ),
    )
