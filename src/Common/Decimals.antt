-- ===== src/Common/Decimals.antt =====
-- Numbers as decimal text.
use Prim.Native.String.{String, ◌++◌ as append, count}
use Prim.Native.Nat.{ℕ, zero, suc, ◌-◌, ◌/◌, ◌%◌}
use mathlib.Core.List.{List, [], ◌∷◌}
use bogbin.Common.Tests.{◌==◌, if◌then◌else◌}
use bogbin.Common.Lists.{get_or}

abbrev digit_texts : List String
digit_texts = "0" ∷ "1" ∷ "2" ∷ "3" ∷ "4" ∷ "5" ∷ "6" ∷ "7" ∷ "8" ∷ "9" ∷ []

-- The decimal digits of a number, with fuel; a number has no more digits than its successor.
decimal_loop : ℕ → ℕ → String
decimal_loop zero n = ""
decimal_loop (suc fuel) n =
    let front = decimal_loop fuel (n / 10) in
    let last : String = get_or digit_texts (n % 10) "" in
    if n / 10 == 0 then last else append front last

zeros : ℕ → String
zeros zero = ""
zeros (suc n) = append "0" (zeros n)

-- `str(n)`
unfoldable pub decimal : ℕ → String
unfolding decimal_loop
decimal n = decimal_loop (suc n) n

-- `f"{n:04d}"`
unfoldable pub four_digits : ℕ → String
unfolding decimal zeros
four_digits n = let digits = decimal n in append (zeros (4 - count digits)) digits

-- `"\n".join(lines) + "\n"`
unfoldable pub text_of : List String → String
text_of [] = "\n"
text_of (line ∷ []) = append line "\n"
text_of (line ∷ next ∷ lines) = append line (append "\n" (text_of (next ∷ lines)))
