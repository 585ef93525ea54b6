-- ===== src/Container/Hex.antt =====
-- bogvm/container.py: `bytes.fromhex` and `bytes.hex`, on digests of lower case digits.
use Prim.Native.Char.{Char, code}
use Prim.Native.String.{String}
use bogbin.Common.{
  ℕ, ◌+◌, ◌-◌, ◌*◌, ◌/◌, ◌%◌, List, [], ◌∷◌, leb, if◌then◌else◌, Result, ok, err, ◌>>=◌, ◌>>◌,
  guard, get_or,
}
use bogbin.Container.Errors.{ContainerError, bad_hex}
use bogbin.Container.Records.{is_hex_digit}

-- The value of a digit.
unfoldable pub digit_value : Char → ℕ
digit_value c = if leb (code c) 57 then code c - 48 else code c - 87

abbrev digits : List Char
digits =
    "0" ∷ "1" ∷ "2" ∷ "3" ∷ "4" ∷ "5" ∷ "6" ∷ "7" ∷ "8" ∷ "9" ∷ "a" ∷ "b" ∷ "c" ∷ "d" ∷ "e" ∷ "f"
    ∷ []

-- The digit of a value below 16.
unfoldable pub hex_digit : ℕ → Char
hex_digit n = get_or digits n "0"

-- `bytes.fromhex` of a text of hex digits. It also takes capitals and spaces between the bytes,
-- which a validated digest does not have.
unfoldable pub from_hex : String → Result ContainerError (List ℕ)
unfolding digit_value is_hex_digit
from_hex String.[] = ok []
from_hex (String.◌∷◌ c String.[]) = err bad_hex
from_hex (String.◌∷◌ c (String.◌∷◌ d text)) = do
  guard (is_hex_digit c) bad_hex
  guard (is_hex_digit d) bad_hex
  rest ← from_hex text
  ok ((digit_value c * 16 + digit_value d) ∷ rest)

-- `bytes.hex`
unfoldable pub to_hex : List ℕ → String
unfolding hex_digit
to_hex [] = String.[]
to_hex (byte ∷ bytes) =
    String.◌∷◌ (hex_digit (byte / 16)) (String.◌∷◌ (hex_digit (byte % 16)) (to_hex bytes))
