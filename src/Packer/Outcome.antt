-- ===== src/Packer/Outcome.antt =====
-- bogvm/packer.py: when `pack_bytes_to_bogasm` succeeds.
use Prim.Native.Char.{Char, code}
use bogbin.Common.{
  ℕ, ◌≤◌, ◌<◌, true, false, ◌||◌, List, ◌++◌, length, leb, All, ok, err, String, ◌≡◌, refl, arith,
  ◌↔◌, ◌⊎◌, inl, inr, ◌≢◌, Bool-cases, ap, some, subst,
}
use bogbin.Common.Bits.{IsByte}
use bogbin.Common.Decimals.{text_of}
use bogbin.Bases.{synthesize_basis}
use bogbin.Optimizer.Plan.{Plan}
use bogbin.Optimizer.Patches.{apply_residuals}
use bogbin.Optimizer.Exact.{optimize-reconstructs}
use bogbin.Packer.{
  too_long, bad_data_name, is_empty, any_space, is_space, validate_data_name, plan_lines,
  last_lines, pack_bytes_to_bogasm,
}

-- The codes of the characters that Unicode counts as white space, with the separators 28 to 31.
abbrev pub IsSpaceCode : ℕ → Type 0
IsSpaceCode n =
    ((9 ≤ n) × (n ≤ 13))
    ⊎ ((28 ≤ n) × (n ≤ 32))
    ⊎ (n ≡ 133)
    ⊎ (n ≡ 160)
    ⊎ (n ≡ 5760)
    ⊎ ((8192 ≤ n) × (n ≤ 8202))
    ⊎ (n ≡ 8232)
    ⊎ (n ≡ 8233)
    ⊎ (n ≡ 8239)
    ⊎ (n ≡ 8287)
    ⊎ (n ≡ 12288)

-- A character stands somewhere in a text.
abbrev pub OccursIn : Char → String → Type 0
OccursIn c String.[] = ⊥
OccursIn c (String.◌∷◌ d text) = (d ≡ c) ⊎ OccursIn c text

abbrev pub HasSpace : String → Type 0
HasSpace text = (c : Char) × OccursIn c text × IsSpaceCode (code c)

-- A text of one or more characters, with no white space.
abbrev pub IsToken : String → Type 0
IsToken text = (text ≢ "") × ¬ HasSpace text

is_space_iff : (c : Char) → (is_space c ≡ true) ↔ IsSpaceCode (code c)
unfolding is_space
is_space_iff c = (λ h. ground arith, λ h. ground arith)

any_space-HasSpace : (text : String) → any_space text ≡ true → HasSpace text
unfolding any_space
any_space-HasSpace String.[] h = absurd (cc)
any_space-HasSpace (String.◌∷◌ c text) h = elim (Bool-cases (is_space c)) [
  | inl here ↦ (c, inl refl, (is_space_iff c).0 here)
  | inr other ↦ let (d, o, k) = any_space-HasSpace text (ground arith) in (d, inr o, k)
]

HasSpace-any_space :
    (text : String) (c : Char) → OccursIn c text → is_space c ≡ true → any_space text ≡ true
unfolding any_space
HasSpace-any_space String.[] c o h = absurd o
HasSpace-any_space (String.◌∷◌ d text) c (inl e) h = rw (e, h) refl
HasSpace-any_space (String.◌∷◌ d text) c (inr o) h = ground (arith, HasSpace-any_space text c o h)

is_empty-false : (text : String) → is_empty text ≡ false → text ≢ ""
unfolding is_empty
is_empty-false String.[] h = absurd cc
is_empty-false (String.◌∷◌ c text) h = λ e. let q : false ≡ true = ap is_empty e in cc

is_empty-true : (text : String) → is_empty text ≡ true → text ≡ ""
unfolding is_empty
is_empty-true String.[] h = refl
is_empty-true (String.◌∷◌ c text) h = absurd cc

-- A data name is refused exactly if it is no token.
refused_name :
    (name : String)
    → (((is_empty name || any_space name) ≡ true) × ((name ≡ "") ⊎ HasSpace name))
      ⊎ (((is_empty name || any_space name) ≡ false) × IsToken name)
refused_name name = elim (Bool-cases (is_empty name)) [
  | inl empty ↦ inl (rw empty refl, inl (is_empty-true name empty))
  | inr full ↦ elim (Bool-cases (any_space name)) [
    | inl space ↦ inl (rw (full, space) refl, inr (any_space-HasSpace name space))
    | inr solid ↦ inr (
      rw (full, solid) refl,
      (
        is_empty-false name full,
        λ (c, o, k).
            let q : any_space name ≡ true = HasSpace-any_space name c o ((is_space_iff c).1 k) in
            cc,
      ),
    )
  ]
]

-- For bytes and a data name, `pack_bytes_to_bogasm` has one of three outcomes: an error that the name
-- is bad, if it is empty or a white space character occurs in it; otherwise, if there are more than
-- 65535 bytes, the error that there are too many; otherwise the assembler text of a plan whose basis,
-- patched with its residuals, is the bytes.
pub pack_bytes-outcome :
    (sha256 : List ℕ → String) (bytes : List ℕ) (data_name : String)
    → All IsByte bytes
    → ((pack_bytes_to_bogasm sha256 bytes data_name ≡ err bad_data_name)
        × ((data_name ≡ "") ⊎ HasSpace data_name))
      ⊎ ((pack_bytes_to_bogasm sha256 bytes data_name ≡ err too_long)
          × IsToken data_name
          × (65535 < length bytes))
      ⊎ ((p : Plan) × (generated : List ℕ) × (pack_bytes_to_bogasm sha256 bytes data_name
            ≡ ok (text_of (plan_lines data_name p ++ last_lines)))
          × IsToken data_name
          × (length bytes ≤ 65535)
          × (p.sha256 ≡ sha256 bytes)
          × (synthesize_basis (some p.basis) p.start_byte (length bytes) p.delta ≡ ok generated)
          × (apply_residuals generated p.residuals ≡ ok bytes))
unfolding pack_bytes_to_bogasm validate_data_name
pack_bytes-outcome sha256 bytes data_name b = elim (refused_name data_name) [
  | inl (bad, why) ↦ inl (rw bad refl, why)
  | inr (good, token) ↦ elim (Bool-cases (leb (length bytes) 65535)) [
    | inr long ↦ inr (inl (rw (good, long) refl, token, ground arith))
    | inl short ↦
        let (p, g, e, l, h, _, s, a) = optimize-reconstructs sha256 bytes b in
        inr (
          inr (
            p,
            g,
            rw (good, short, e) refl,
            token,
            ground arith,
            h,
            subst (λ n. synthesize_basis (some p.basis) p.start_byte n p.delta ≡ ok g) l s,
            a,
          ))
  ]
]
