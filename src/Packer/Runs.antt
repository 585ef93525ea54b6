-- ===== src/Packer/Runs.antt =====
-- The packer on examples.
use bogbin.Common.{
  ◌≤◌, ◌<◌, false, List, [], ◌∷◌, ◌++◌, length, ok, err, String, ◌≡◌, refl, arith, ◌⊎◌, ℕ, some,
}
use bogbin.Common.Decimals.{decimal, text_of}
use bogbin.Optimizer.Chunks.{ChunkedPlan}
use bogbin.Container.Records.{Container}
use bogbin.Container.Build.{build_bog_container_v1}
use bogbin.Container.Assembly.{compile_bog_container_to_bogasm, container_comments}
use bogbin.Container.Rebuilt.{digest, is_digest, quotient, five, five_are_bytes}
use bogbin.Residual.{Residual}
use bogbin.Packer.{
  too_long, bad_data_name, is_empty, any_space, residual_lines, words, plan_comments, plan_lines,
  last_lines, validate_data_name, pack_bytes_to_bogasm, pack_chunked_bytes_to_bogasm,
}
use bogbin.Packer.Compiled.{pack-compile}
use bogbin.Packer.Outcome.{IsToken, HasSpace, pack_bytes-outcome}
use bogbin.Bases.{synthesize_basis}
use bogbin.Optimizer.Plan.{Plan}
use bogbin.Optimizer.Patches.{apply_residuals}

abbrev one_patch : List Residual
one_patch = record { offset = 104; byte = 7 } ∷ []

written : residual_lines "payload" one_patch ≡ "STORE_RESIDUAL payload 104 7" ∷ []
unfolding residual_lines words decimal
written = refl

pack-compile_example :
    (p : ChunkedPlan) × (c : Container) × (body : List String) × (pack_chunked_bytes_to_bogasm
        digest five "payload" 2
      ≡ ok (text_of (plan_comments p ++ body)))
    × (build_bog_container_v1 quotient digest five 2 false false ≡ ok c)
    × (compile_bog_container_to_bogasm c ≡ ok (text_of (container_comments c ++ body)))
    × (length (plan_comments p) ≡ 4)
    × (length (container_comments c) ≡ 6)
pack-compile_example =
    pack-compile digest is_digest quotient five 2 five_are_bytes (omega arith) (omega arith)

spaced_name : pack_bytes_to_bogasm digest five "my data" ≡ err bad_data_name
unfolding pack_bytes_to_bogasm validate_data_name is_empty any_space
spaced_name = refl

abbrev payload_name : String
payload_name = "payload"

pack_bytes-outcome_example :
    ((pack_bytes_to_bogasm digest five payload_name ≡ err bad_data_name)
      × ((payload_name ≡ "") ⊎ HasSpace payload_name))
    ⊎ ((pack_bytes_to_bogasm digest five payload_name ≡ err too_long)
        × IsToken payload_name
        × (65535 < length five))
    ⊎ ((p : Plan) × (generated : List ℕ) × (pack_bytes_to_bogasm digest five payload_name
          ≡ ok (text_of (plan_lines payload_name p ++ last_lines)))
        × IsToken payload_name
        × (length five ≤ 65535)
        × (p.sha256 ≡ digest five)
        × (synthesize_basis (some p.basis) p.start_byte (length five) p.delta ≡ ok generated)
        × (apply_residuals generated p.residuals ≡ ok five))
pack_bytes-outcome_example = pack_bytes-outcome digest five payload_name five_are_bytes
