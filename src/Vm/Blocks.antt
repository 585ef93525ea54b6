-- ===== src/Vm/Blocks.antt =====
-- bogvm/vm.py: the instructions on data blocks. `hashlib.sha256(data).hexdigest()` is the parameter
-- `sha256`.
use bogbin.Common.{
  ℕ, Bool, true, false, Option, none, some, List, [], ◌∷◌, ◌++◌, String, leb, ltb, ◌==◌,
  if◌then◌else◌, option_case, result_case, length, set, Result, ok, err, str_eq,
}
use bogbin.Common.Dict
use bogbin.Common.Dict.{Dict}
use bogbin.Common.Sorting.{sort}
use bogbin.Bases.{find_basis, synthesize_basis}
use bogbin.Residual.{Residual}
use bogbin.Instruction.{Instruction}
use bogbin.Vm.State.{
  VmState, DataBlock, Status, verified, rejected, abstained, Outcome, next, raised, vm_error,
  VmError, log, Event, add_sorted,
}

-- DECLARE_BASIS
unfoldable pub declare_basis : ℕ → Instruction → VmState → Outcome
declare_basis pc i s =
    option_case (Dict.get i.target s.manifest.constants)
      (raised (vm_error (VmError.missing_basis_constant i.target)) s)
      (λ text.
        option_case (find_basis text) (raised (vm_error (VmError.unsupported_basis text)) s)
          (λ basis.
            next (log pc (Event.declare_basis basis) (record s { active_basis = some basis }))))

-- LOAD_COEFFICIENTS
unfoldable pub load_coefficients : ℕ → Instruction → VmState → Outcome
load_coefficients pc i s =
    option_case (Dict.get i.target s.manifest.data_blocks)
      (raised (vm_error (VmError.missing_data_block i.target)) s)
      (λ name.
        if leb i.source 255
        then (if leb i.flags 255
            then next (
                log pc (Event.load_coefficients name i.source i.flags i.param) (record s {
                  data_blocks =
                      Dict.put i.target
                        (record {
                          name = name;
                          basis = s.active_basis;
                          byte = i.source;
                          delta = i.flags;
                          length = i.param;
                          bytes = [];
                          residuals = [];
                        })
                        s.data_blocks;
                }))
            else raised (vm_error VmError.delta_range) s)
        else raised (vm_error VmError.byte_range) s)

-- `block[...] = ...` writes to the block that the table holds.
abbrev pub put_block : ℕ → DataBlock → VmState → VmState
put_block id block s = record s { data_blocks = Dict.put id block s.data_blocks }

-- SYNTHESIZE
unfoldable pub synthesize : ℕ → Instruction → VmState → Outcome
synthesize pc i s =
    option_case (Dict.get i.target s.data_blocks)
      (raised (vm_error (VmError.synthesize_missing i.target)) s)
      (λ block.
        result_case (synthesize_basis block.basis block.byte block.length block.delta)
          (λ e. raised (vm_error (VmError.unsupported_synth_basis block.basis)) s)
          (λ bytes. next (
            log pc (Event.synthesize block.name (length bytes))
              (put_block i.target (record block { bytes = bytes }) s))))

module _ (sha256 : List ℕ → String) where
  -- VERIFY_HASH
  unfoldable pub verify_hash : ℕ → Instruction → VmState → Outcome
  verify_hash pc i s =
      option_case (Dict.get i.target s.data_blocks)
        (raised (vm_error (VmError.verify_hash_missing i.target)) s)
        (λ block.
          option_case (Dict.get i.source s.manifest.constants)
            (raised (vm_error (VmError.missing_hash_constant i.source)) s)
            (λ expected_hash.
              let actual_hash = sha256 block.bytes in
              let result : Status =
                if str_eq actual_hash expected_hash then verified else rejected in
              next (
                log pc (Event.verify_hash block.name expected_hash actual_hash result)
                  (record s { data_hash_results = Dict.put i.target result s.data_hash_results }))))

abbrev pub is_verified : Option Status → Bool
is_verified none = false
is_verified (some verified) = true
is_verified (some rejected) = false
is_verified (some abstained) = false

abbrev pub is_rejected : Option Status → Bool
is_rejected none = false
is_rejected (some verified) = false
is_rejected (some rejected) = true
is_rejected (some abstained) = false

-- ACCEPT_DATA
unfoldable pub accept_data : ℕ → Instruction → VmState → Outcome
unfolding add_sorted
accept_data pc i s =
    option_case (Dict.get i.target s.data_blocks)
      (raised (vm_error (VmError.accept_data_missing i.target)) s)
      (λ block.
        if is_verified (Dict.get i.target s.data_hash_results)
        then next (
            log pc (Event.accept_data block.name)
              (record s { accepted_data_blocks = add_sorted i.target s.accepted_data_blocks }))
        else raised (vm_error (VmError.accept_data_unverified block.name)) s)

-- REJECT_DATA
unfoldable pub reject_data : ℕ → Instruction → VmState → Outcome
unfolding add_sorted
reject_data pc i s =
    option_case (Dict.get i.target s.data_blocks)
      (raised (vm_error (VmError.reject_data_missing i.target)) s)
      (λ block.
        if is_rejected (Dict.get i.target s.data_hash_results)
        then next (
            log pc (Event.reject_data block.name)
              (record s { rejected_data_blocks = add_sorted i.target s.rejected_data_blocks }))
        else raised (vm_error (VmError.reject_data_unfailed block.name)) s)

-- The order of the sort key `(offset, byte)`.
abbrev pub residual_le : Residual → Residual → Bool
residual_le p q =
    if ltb p.offset q.offset
    then true
    else if p.offset == q.offset
    then leb p.byte q.byte
    else false

-- STORE_RESIDUAL
unfoldable pub store_residual : ℕ → Instruction → VmState → Outcome
unfolding sort
store_residual pc i s =
    option_case (Dict.get i.target s.data_blocks)
      (raised (vm_error (VmError.store_residual_missing i.target)) s)
      (λ block.
        if leb block.length i.source
        then raised (vm_error (VmError.residual_out_of_range i.source block.name)) s
        else if leb i.param 255
        then (let patch : Residual = record { offset = i.source; byte = i.param } in
            next (
              log pc (Event.store_residual block.name i.source i.param) (
                put_block i.target
                  (record block { residuals = sort residual_le (block.residuals ++ (patch ∷ [])) })
                  s)))
        else raised (vm_error VmError.residual_byte_range) s)

-- The loop of APPLY_RESIDUAL; the error is the offset that is out of range.
unfoldable pub patch_bytes : List Residual → List ℕ → Result ℕ (List ℕ)
patch_bytes [] bytes = ok bytes
patch_bytes (p ∷ ps) bytes =
    let patched = patch_bytes ps (set bytes p.offset p.byte) in
    if leb (length bytes) p.offset then err p.offset else patched

-- APPLY_RESIDUAL
unfoldable pub apply_residual : ℕ → Instruction → VmState → Outcome
unfolding patch_bytes
apply_residual pc i s =
    option_case (Dict.get i.target s.data_blocks)
      (raised (vm_error (VmError.apply_residual_missing i.target)) s)
      (λ block.
        result_case (patch_bytes block.residuals block.bytes)
          (λ offset. raised (vm_error (VmError.residual_out_of_bytes offset block.name)) s)
          (λ bytes. next (
            log pc (Event.apply_residual block.name (length block.residuals) (length bytes))
              (put_block i.target (record block { bytes = bytes }) s))))
