-- ===== src/Evm/Hex/Words.antt =====
-- Printed numbers and bytes read back.
use native.Mathlib.Nat.{pow-suc}
use go_fula.Prelude.{
  ℕ, zero, suc, ◌+◌, ◌*◌, ◌/◌, ◌%◌, ◌^◌, ◌<◌, ◌≡◌, refl, ap, some, [], ◌∷◌, ◌++◌, arith, length,
  length-append, All, Option, none, if◌then◌else◌, ltb,
}
use go_fula.Evm.Hex.{
  Text, hex_value, hex_digit, parse_from, below, parse_uint, hex_fixed, decode_hex, encode_hex,
}

pub length-hex_fixed : (w n : ℕ) → length (hex_fixed w n) ≡ w
unfolding hex_fixed
length-hex_fixed zero n = refl
length-hex_fixed (suc w) n = omega (
  arith,
  length-append (hex_fixed w (n / 16)) (hex_digit (n % 16) ∷ []),
  length-hex_fixed w (n / 16),
)

pub hex_value-hex_digit : (d : ℕ) → d < 16 → hex_value (hex_digit d) ≡ some d
unfolding hex_value hex_digit
hex_value-hex_digit d h = ground arith

abbrev then_parse : Option ℕ → Text → Option ℕ
then_parse none s = none
then_parse (some n) s = parse_from n s

parse_from-append : (n : ℕ) (s t : Text) → parse_from n (s ++ t) ≡ then_parse (parse_from n s) t
unfolding parse_from
parse_from-append n [] t = refl
parse_from-append n (c ∷ s) t =
    elim (hex_value c)
      as (λ o.
        (elim o [ none ↦ none | some d ↦ parse_from (n * 16 + d) (s ++ t) ])
        ≡ then_parse (elim o [ none ↦ none | some d ↦ parse_from (n * 16 + d) s ]) t) [
          | none ↦ refl
          | some d ↦ parse_from-append (n * 16 + d) s t
        ]

parse_from-digit : (n d : ℕ) → d < 16 → parse_from n (hex_digit d ∷ []) ≡ some (n * 16 + d)
unfolding parse_from
parse_from-digit n d h = rw (hex_value-hex_digit d h, parse_from)

-- A number below 16 ^ w, printed with w digits, is read after any digits with the value `acc`.
pub parse_from-hex_fixed :
    (acc w n : ℕ) → n < 16 ^ w → parse_from acc (hex_fixed w n) ≡ some (acc * 16 ^ w + n)
unfolding hex_fixed
parse_from-hex_fixed acc zero n h = unfold parse_from in ground arith
parse_from-hex_fixed acc (suc w) n h = rw parse_from-append (
    rw (parse_from-hex_fixed acc w (n / 16) (omega (arith, pow-suc 16 w))) (
      rw (parse_from-digit (acc * 16 ^ w + n / 16) (n % 16) (omega arith))
        (ap some (omega (arith, ap (λ (k : ℕ). acc * k) (pow-suc 16 w))))))

parse_uint_nonempty :
    (bits : ℕ) (s : Text) → 0 < length s → parse_uint bits s ≡ below bits (parse_from 0 s)
unfolding parse_uint
parse_uint_nonempty bits [] h = absurd (omega arith)
parse_uint_nonempty bits (c ∷ s) h = refl

-- strconv.ParseUint reads a printed number back exactly if it has the bits for it.
pub parse_uint-hex_fixed :
    (bits w n : ℕ)
    → n < 16 ^ suc w
    → parse_uint bits (hex_fixed (suc w) n) ≡ (if ltb n (2 ^ bits) then some n else none)
parse_uint-hex_fixed bits w n h =
    rw (parse_uint_nonempty bits (hex_fixed (suc w) n) (omega (arith, length-hex_fixed (suc w) n)))
      (rw (parse_from-hex_fixed 0 (suc w) n h) (unfold below in ground arith))

-- hex.DecodeString reads encoded bytes back.
pub decode_hex-encode_hex : (s : Text) → All (λ b. b < 256) s → decode_hex (encode_hex s) ≡ some s
unfolding decode_hex encode_hex
decode_hex-encode_hex [] h = refl
decode_hex-encode_hex (b ∷ s) h =
    rw
      (
        hex_value-hex_digit (b / 16) (omega (arith, h.0)),
        hex_value-hex_digit (b % 16) (omega arith),
      )
      (rw (decode_hex-encode_hex s h.1) (ap (λ x. some (x ∷ s)) (omega arith)))
