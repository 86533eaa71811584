-- ===== src/Common/Texts.antt =====
-- Texts as UTF-8 bytes, and numbers in decimal digits.
use Prim.Native.Char.{code}
use shard_token.Common.{ℕ, zero, suc, ◌+◌, ◌/◌, ◌%◌, String, ltb, if◌then◌else◌, [], ◌∷◌, ◌++◌}
use shard_token.Common.Words.{Bytes}

-- the bytes of a character in UTF-8
abbrev pub utf8_bytes : ℕ → Bytes
utf8_bytes c =
    if ltb c 0x80
    then c ∷ []
    else if ltb c 0x800
    then (0xC0 + c / 0x40) ∷ (0x80 + c % 0x40) ∷ []
    else if ltb c 0x10000
    then (0xE0 + c / 0x1000) ∷ (0x80 + c / 0x40 % 0x40) ∷ (0x80 + c % 0x40) ∷ []
    else (0xF0 + c / 0x40000)
      ∷ (0x80 + c / 0x1000 % 0x40)
      ∷ (0x80 + c / 0x40 % 0x40)
      ∷ (0x80 + c % 0x40)
      ∷ []

-- `as_bytes` of a text
abbrev pub as_bytes : String → Bytes
as_bytes String.[] = []
as_bytes (String.◌∷◌ c s) = utf8_bytes (code c) ++ as_bytes s

-- The decimal digits of a number, the highest first, with fuel for the digits.
unfoldable pub digits : ℕ → ℕ → Bytes
digits zero n = []
digits (suc fuel) n =
    let rest = digits fuel (n / 10) in
    if ltb n 10 then (48 + n) ∷ [] else rest ++ (48 + n % 10) ∷ []

-- A `u128` has at most 39 digits.
abbrev pub most_digits : ℕ
most_digits = 39

-- `to_string` of a `Uint128`
unfoldable pub to_string : ℕ → Bytes
to_string amount = digits most_digits amount
