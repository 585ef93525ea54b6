-- ===== src/Container/Packed.antt =====
-- bogvm/container.py: `encode_bogpk_container` and then `decode_bogpk_container`, on containers that
-- were built from bytes.
use bogbin.Common.{
  ℕ, suc, ◌*◌, ◌^◌, ◌≤◌, ◌<◌, Bool, true, false, &&-true, some, List, [], ◌∷◌, ◌++◌, append_assoc,
  append-nil, map, length, length-map, drop, ◌==◌, ==_iff, ==_refl, ok, String, str_eq, eq_iff, ◌≡◌,
  refl, sym, ap, ◌∙◌, arith, inl,
}
use bogbin.Optimizer.Chunks.{ChunkedPlan, PlannedChunk, count_transforms, no_counts}
use bogbin.Optimizer.Coverage.{IsChunkedPlan}
use bogbin.Container.Records.{
  Chunk, Container, TournamentResult, is_sha256, all_hex, sizes, bog_format, bogbin_format,
}
use bogbin.Container.Validate.{validate_bog_container, counts_sum}
use bogbin.Container.Counts.{counts_sum-transforms}
use bogbin.Container.Build.{chunk_of, counts_of, build_bog_container_from_plan}
use bogbin.Container.Valid.{build-IsValid}
use bogbin.Container.Restored.{reconstruct-build}
use bogbin.Container.Reconstruct.{reconstruct_bog_container_bytes}
use bogbin.Container.Varuint.{encode_varuint}
use bogbin.Container.Hex.{from_hex, to_hex}
use bogbin.Container.HexTexts.{to_hex-from_hex}
use bogbin.Container.Encode.{
  Streams, encode_chunks, encode_bogpk_container, bogpk_magic, bogpk_version, length_sum, size_code,
}
use bogbin.Container.Decode.{
  Header, decode_bogpk_container, decoded_container, transforms_in, decode_chunks, read_descriptors,
  read_header, residuals_in,
}
use bogbin.Container.Descriptor.{Descriptor}
use bogbin.Container.StreamsWhole.{streams_lem}
use bogbin.Container.Unpacked.{chunks_of-IsPackable, unpacked_lem}
use bogbin.Container.Header.{
  IsCandidate, code_lem, few_chunks, candidate_bounds, read_header_lem, few_residuals,
  length_sum_lem, residuals_in_lem, check_header_lem,
}

-- What bogpk-metadata.schema.json asks for.
abbrev pub MatchesSchema : Container → Type 0
MatchesSchema c =
    (c.format ≡ bog_format)
    × (c.vm_format ≡ bogbin_format)
    × (c.pack_mode ≡ "chunked")
    × (1 ≤ c.chunk_size)
    × (is_sha256 c.whole_sha256 ≡ true)

-- A digest is read as 32 bytes, and printed again.
digest_lem :
    (text : String)
    → is_sha256 text ≡ true
    → (bytes : List ℕ) × (from_hex text ≡ ok bytes) × (length bytes ≡ 32) × (to_hex bytes ≡ text)
unfolding is_sha256
digest_lem text h =
    let (size, hex) = &&-true _ (all_hex text) h in
    let (bytes, e, l, _, t) = to_hex-from_hex text 32 ((==_iff _ _).0 size) hex in (bytes, e, l, t)

length-transforms_in :
    (cs : List PlannedChunk) → length (transforms_in (map chunk_of cs)) ≡ length cs
unfolding chunk_of
length-transforms_in [] = refl
length-transforms_in (c ∷ cs) = ap suc (length-transforms_in cs)

regroup :
    (m a b c w d r : List ℕ)
    → (((((m ++ a) ++ b) ++ c) ++ w) ++ d) ++ r ≡ m ++ (a ++ (b ++ (c ++ (w ++ (d ++ r)))))
regroup m a b c w d r =
    append_assoc ((((m ++ a) ++ b) ++ c) ++ w) d r
    ∙ append_assoc (((m ++ a) ++ b) ++ c) w (d ++ r)
    ∙ append_assoc ((m ++ a) ++ b) c (w ++ (d ++ r))
    ∙ append_assoc (m ++ a) b (c ++ (w ++ (d ++ r)))
    ∙ append_assoc m a (b ++ (c ++ (w ++ (d ++ r))))

module _ (sha256 : List ℕ → String) (is_digest : (xs : List ℕ) → is_sha256 (sha256 xs) ≡ true)
    (round_quotient : ℕ → ℕ → ℕ) (fits_schema : Container → Bool)
    (accepts : (c : Container) → MatchesSchema c → fits_schema c ≡ true) (bytes : List ℕ)
    (p : ChunkedPlan) (v : IsChunkedPlan sha256 p.chunk_size bytes p)
    (candidate : IsCandidate p.chunk_size) (short : length bytes < 128 ^ 9) (auto tournament : Bool)
    (results : List TournamentResult) (counted : counts_sum (counts_of p) ≡ p.chunk_count) where
  abbrev built : Container
  built = build_bog_container_from_plan round_quotient p auto results tournament

  positive : 0 < p.chunk_size
  positive = (candidate_bounds p.chunk_size candidate).0

  abbrev chunks : List Chunk
  chunks = map chunk_of p.chunks

  -- The plan whose container the decoder makes.
  abbrev unpacked : ChunkedPlan
  unpacked = record p {
    length = length bytes;
    transform_counts = some (count_transforms (transforms_in chunks) no_counts);
  }

  unpacked-IsChunkedPlan : IsChunkedPlan sha256 p.chunk_size bytes unpacked
  unpacked-IsChunkedPlan = record {
    size_right = refl;
    count_right = v.count_right;
    total_right = v.total_right;
    hash_right = v.hash_right;
    length_right = refl;
    planned = v.planned;
    count_total = v.count_total;
  }

  unpacked-counted : counts_sum (counts_of unpacked) ≡ p.chunk_count
  unpacked-counted =
      counts_sum-transforms (transforms_in chunks)
      ∙ length-transforms_in p.chunks
      ∙ sym v.count_right

  abbrev header_of : ℕ → Header
  header_of flags = record {
    flags = flags;
    chunk_size = p.chunk_size;
    original_length = length bytes;
    chunk_count = p.chunk_count;
    total_residual_count = p.total_residual_count;
    whole_sha256 = p.whole_sha256;
  }

  built-MatchesSchema : MatchesSchema built
  unfolding build_bog_container_from_plan
  built-MatchesSchema = (refl, refl, refl, positive, ap is_sha256 v.hash_right ∙ is_digest bytes)

  size : length chunks ≡ p.chunk_count
  size = length-map chunk_of p.chunks ∙ sym v.count_right

  few : p.chunk_count ≤ length bytes
  few = omega (arith, v.count_total, few_chunks p.chunk_size bytes candidate)

  total_fits : p.total_residual_count ≤ length bytes
  total_fits =
      omega (arith, v.total_right, few_residuals sha256 p.chunk_size bytes p.chunks 0 v.planned)

  -- The bytes of the packed container.
  packed_lem :
      (code : ℕ) (streams : Streams) (whole : List ℕ)
      → size_code p.chunk_size sizes ≡ some code
      → encode_chunks 0 0 chunks ≡ ok streams
      → from_hex p.whole_sha256 ≡ ok whole
      → encode_bogpk_container fits_schema built
        ≡ ok (
            (((((bogpk_magic
                      ++ (bogpk_version ∷ streams.flags ∷ code ∷ encode_varuint (length bytes)))
                    ++ encode_varuint p.chunk_count)
                  ++ encode_varuint p.total_residual_count)
                ++ whole)
              ++ streams.descriptor_bytes)
            ++ streams.residual_bytes)
  unfolding encode_bogpk_container build_bog_container_from_plan
  packed_lem code streams whole c e w =
      let valid =
        build-IsValid sha256 is_digest p.chunk_size bytes round_quotient p auto tournament results
          positive v counted in
      let schema = accepts built built-MatchesSchema in
      let lengths : length_sum chunks ≡ length bytes =
        omega (arith, length_sum_lem sha256 p.chunk_size bytes p.chunks 0 v.planned) in
      rw (valid, schema, c, e, w, lengths) refl

  abbrev rebuilt : Container
  rebuilt = build_bog_container_from_plan round_quotient unpacked false [] true

  decoded-rebuilt :
      (flags : ℕ) → decoded_container round_quotient (header_of flags) chunks ≡ rebuilt
  unfolding decoded_container build_bog_container_from_plan
  decoded-rebuilt flags = refl

  rebuilt-MatchesSchema : MatchesSchema rebuilt
  unfolding build_bog_container_from_plan
  rebuilt-MatchesSchema = (refl, refl, refl, positive, ap is_sha256 v.hash_right ∙ is_digest bytes)

  -- The decoder, where the parts of its input are read as they should.
  decode_lem :
      (input after rest : List ℕ) (flags : ℕ) (ds : List Descriptor)
      → read_header input ≡ ok (header_of flags, after)
      → read_descriptors p.chunk_count flags p.chunk_count after ≡ ok (ds, rest)
      → decode_chunks sha256 p.chunk_count p.chunk_size (length bytes) ds 0 rest
        ≡ ok (chunks, bytes, [])
      → decode_bogpk_container round_quotient sha256 fits_schema input ≡ ok rebuilt
  unfolding decode_bogpk_container build_bog_container_from_plan
  decode_lem input after rest flags ds h d c =
      let header =
        check_header_lem sha256 p.chunk_size bytes (header_of flags) candidate refl v.count_total
          total_fits in
      let residuals : (residuals_in chunks == p.total_residual_count) ≡ true =
        (==_iff _ _).1
          (residuals_in_lem sha256 p.chunk_size bytes p.chunks 0 v.planned ∙ sym v.total_right) in
      let hash : str_eq (sha256 bytes) p.whole_sha256 ≡ true = (eq_iff _ _).1 (sym v.hash_right) in
      let valid : validate_bog_container rebuilt ≡ ok tt =
        build-IsValid sha256 is_digest p.chunk_size bytes round_quotient unpacked false true []
          positive unpacked-IsChunkedPlan unpacked-counted in
      let schema : fits_schema rebuilt ≡ true = accepts rebuilt rebuilt-MatchesSchema in
      rw
        (
          h,
          header,
          d,
          c,
          residuals,
          ==_refl (length bytes),
          hash,
          decoded-rebuilt flags,
          valid,
          schema,
        )
        refl

  -- The container of a chunked plan is packed, unpacked and reconstructed to the data.
  pub decode-encode_bogpk :
      (packed : List ℕ) × (c : Container) × (encode_bogpk_container fits_schema built ≡ ok packed)
      × (decode_bogpk_container round_quotient sha256 fits_schema packed ≡ ok c)
      × (c.chunks ≡ built.chunks)
      × (reconstruct_bog_container_bytes sha256 c ≡ ok bytes)
  unfolding build_bog_container_from_plan
  decode-encode_bogpk =
      let (code, e1, e2) = code_lem p.chunk_size candidate in
      let packable =
        chunks_of-IsPackable sha256 p.chunk_size bytes p.chunks 0 v.planned
          (candidate_bounds p.chunk_size candidate).1 in
      let (streams, e, f, _, (ds, r, d)) =
        streams_lem chunks 0 0 packable (omega arith) (omega (arith, size, few, short))
          (inl refl) in
      let (whole, w, l, t) =
        digest_lem p.whole_sha256 (ap is_sha256 v.hash_right ∙ is_digest bytes) in
      let packed : List ℕ =
        (((((bogpk_magic ++ (bogpk_version ∷ streams.flags ∷ code ∷ encode_varuint (length bytes)))
                ++ encode_varuint p.chunk_count)
              ++ encode_varuint p.total_residual_count)
            ++ whole)
          ++ streams.descriptor_bytes)
        ++ streams.residual_bytes in
      let after : List ℕ = streams.descriptor_bytes ++ streams.residual_bytes in
      let header : read_header packed ≡ ok (header_of streams.flags, after) =
        ap read_header (
          regroup bogpk_magic (bogpk_version ∷ streams.flags ∷ code ∷ encode_varuint (length bytes))
            (encode_varuint p.chunk_count) (encode_varuint p.total_residual_count) whole
            streams.descriptor_bytes streams.residual_bytes)
        ∙ read_header_lem (header_of streams.flags) code whole after f e2 (omega (arith, short))
            (omega (arith, few, short)) (omega (arith, total_fits, short)) l t in
      let descriptors : read_descriptors p.chunk_count streams.flags p.chunk_count after
          ≡ ok (ds, streams.residual_bytes) =
        ap (λ k. read_descriptors p.chunk_count streams.flags k after) (sym size)
        ∙ d p.chunk_count streams.residual_bytes (omega (arith, size)) in
      let start : 0 * p.chunk_size ≡ 0 = omega arith in
      let decoded : decode_chunks sha256 p.chunk_count p.chunk_size (length bytes) ds 0
            streams.residual_bytes
          ≡ ok (chunks, bytes, []) =
        ap (λ l. decode_chunks sha256 p.chunk_count p.chunk_size (length bytes) ds 0 l)
          (sym (append-nil streams.residual_bytes))
        ∙ unpacked_lem sha256 p.chunk_size bytes p.chunks 0 p.chunk_count ds streams.residual_bytes
            [] positive v.planned (omega (arith, v.count_right)) r
        ∙ ap (λ k. ok (chunks, drop k bytes, [])) start in
      (
        packed,
        rebuilt,
        packed_lem code streams whole e1 e w,
        decode_lem packed after streams.residual_bytes streams.flags ds header descriptors decoded,
        refl,
        reconstruct-build sha256 p.chunk_size bytes round_quotient is_digest unpacked false true []
            positive unpacked-IsChunkedPlan unpacked-counted,
      )
