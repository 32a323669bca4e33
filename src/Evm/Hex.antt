-- ===== src/Evm/Hex.antt =====
-- Hexadecimal text, as strconv, fmt and encoding/hex of Go read and print it. A text is the list of
-- its bytes.
pub mod Words
use Prim.Native.Char.{code}
use mathlib.Core.List.{map}
use go_fula.Prelude.{
  ℕ, zero, suc, ◌+◌, ◌-◌, ◌*◌, ◌/◌, ◌%◌, ◌^◌, String, Bool, true, false, ◌&&◌, ◌||◌, Option, none,
  some, List, [], ◌∷◌, ◌++◌, ltb, leb, eqb, if◌then◌else◌, length, take, drop,
}

abbrev pub Text : Type 0
Text = List ℕ

-- The bytes of an ASCII literal.
abbrev pub codes : String → Text
codes String.[] = []
codes (String.◌∷◌ c s) = code c ∷ codes s

-- strings.HasPrefix(s, p)
unfoldable pub has_prefix : Text → Text → Bool
has_prefix s [] = true
has_prefix [] (b ∷ p) = false
has_prefix (a ∷ s) (b ∷ p) = eqb a b && has_prefix s p

-- strings.Contains(s, p)
unfoldable pub has_infix : Text → Text → Bool
unfolding has_prefix
has_infix [] p = has_prefix [] p
has_infix (a ∷ s) p = has_prefix (a ∷ s) p || has_infix s p

unfoldable pub hex_value : ℕ → Option ℕ
hex_value c =
    if leb b'0' c && leb c b'9'
    then some (c - b'0')
    else if leb b'a' c && leb c b'f'
    then some (c - b'a' + 10)
    else if leb b'A' c && leb c b'F'
    then some (c - b'A' + 10)
    else none

unfoldable pub parse_from : ℕ → Text → Option ℕ
parse_from n [] = some n
parse_from n (c ∷ s) = elim (hex_value c) [ none ↦ none | some d ↦ parse_from (n * 16 + d) s ]

below : ℕ → Option ℕ → Option ℕ
below bits none = none
below bits (some n) = if ltb n (2 ^ bits) then some n else none

-- strconv.ParseUint(s, 16, bits)
unfoldable pub parse_uint : ℕ → Text → Option ℕ
unfolding below
parse_uint bits [] = none
parse_uint bits (c ∷ s) = below bits (parse_from 0 (c ∷ s))

unfoldable pub hex_digit : ℕ → ℕ
hex_digit d = if ltb d 10 then d + b'0' else d - 10 + b'a'

-- "%0<width>x" of a number below 16 ^ width.
unfoldable pub hex_fixed : ℕ → ℕ → Text
hex_fixed zero n = []
hex_fixed (suc width) n = hex_fixed width (n / 16) ++ hex_digit (n % 16) ∷ []

byte_of : Option ℕ → Option ℕ → Option Text → Option Text
byte_of (some a) (some b) (some rest) = some ((a * 16 + b) ∷ rest)
byte_of _ _ _ = none

-- hex.DecodeString
unfoldable pub decode_hex : Text → Option Text
unfolding byte_of
decode_hex [] = some []
decode_hex (a ∷ []) = none
decode_hex (a ∷ b ∷ s) = byte_of (hex_value a) (hex_value b) (decode_hex s)

-- hex.EncodeToString
unfoldable pub encode_hex : Text → Text
encode_hex [] = []
encode_hex (b ∷ s) = hex_digit (b / 16) ∷ hex_digit (b % 16) ∷ encode_hex s

starts_0x : ℕ → ℕ → Bool
starts_0x a b = eqb a b'0' && eqb b b'x'

-- strings.TrimPrefix(s, "0x")
unfoldable pub trim_0x : Text → Text
unfolding starts_0x
trim_0x [] = []
trim_0x (a ∷ []) = a ∷ []
trim_0x (a ∷ b ∷ s) = if starts_0x a b then s else a ∷ b ∷ s

-- s[from:to], for from ≤ to ≤ len(s)
abbrev pub slice : ℕ → ℕ → Text → Text
slice from to s = take (to - from) (drop from s)

-- Not every character is '0'.
unfoldable pub nonzero : Text → Bool
nonzero [] = false
nonzero (c ∷ s) = if eqb c b'0' then nonzero s else true
