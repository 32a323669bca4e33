-- ===== src/Evm/Abi/Calls.antt =====
-- What the simple decoders read from a word that the contract's encoding prints.
use native.Mathlib.Nat.{pow-suc}
use go_fula.Prelude.{
  ℕ, zero, suc, ◌/◌, ◌%◌, ◌^◌, ◌<◌, ◌≡◌, refl, some, [], ◌∷◌, ◌++◌, arith, length, length-append,
  none, take-append, drop-append, take_all, eqb, ltb, not, ◌||◌, if◌then◌else◌,
}
use go_fula.Evm.Hex.{Text, codes, hex_fixed, trim_0x, nonzero, hex_digit}
use go_fula.Evm.Hex.Words.{length-hex_fixed, parse_uint-hex_fixed}
use go_fula.Evm.Abi.{decode_pool_id, decode_is_member, decode_join_status}

trim_0x_prefixed : (s : Text) → trim_0x (codes "0x" ++ s) ≡ s
unfolding trim_0x
trim_0x_prefixed s = refl

-- A number below 2^64, printed as a word, is read as a pool id modulo 2^32.
pub decode_pool_id-hex_fixed :
    (n : ℕ) → n < 2 ^ 64 → decode_pool_id (codes "0x" ++ hex_fixed 64 n) ≡ some (n % 2 ^ 32)
unfolding decode_pool_id
decode_pool_id-hex_fixed n h =
    rw trim_0x_prefixed
      (rw (length-hex_fixed 64 n, parse_uint-hex_fixed 64 63 n (omega arith)) (ground arith))

nonzero-append : (s t : Text) → nonzero (s ++ t) ≡ (nonzero s || nonzero t)
unfolding nonzero
nonzero-append [] t = refl
nonzero-append (c ∷ s) t = ground (arith, nonzero-append s t)

nonzero-digit : (d : ℕ) → d < 16 → nonzero (hex_digit d ∷ []) ≡ not (eqb d 0)
unfolding nonzero hex_digit
nonzero-digit d h = ground arith

nonzero-hex_fixed : (w n : ℕ) → n < 16 ^ w → nonzero (hex_fixed w n) ≡ not (eqb n 0)
unfolding hex_fixed
nonzero-hex_fixed zero n h = unfold nonzero in ground arith
nonzero-hex_fixed (suc w) n h = rw nonzero-append (
    rw (nonzero-hex_fixed w (n / 16) (omega (arith, pow-suc 16 w)))
      (rw (nonzero-digit (n % 16) (omega arith)) (ground arith)))

-- The two words of an isPeerIdMemberOfPool result, a bool and an address behind 24 digits of
-- padding, are read as that bool and that address.
pub decode_is_member-words :
    (m : ℕ) (padding address : Text)
    → m < 2 ^ 256
    → length padding ≡ 24
    → length address ≡ 40
    → decode_is_member (codes "0x" ++ (hex_fixed 64 m ++ (padding ++ address)))
      ≡ some (record { is_member = not (eqb m 0); member_address = codes "0x" ++ address })
unfolding decode_is_member
decode_is_member-words m padding address h k l =
    let word = hex_fixed 64 m in
    let tail = padding ++ address in
    let word_length : length word ≡ 64 = length-hex_fixed 64 m in
    let tail_length : length tail ≡ 64 = omega (arith, length-append padding address) in
    rw trim_0x_prefixed (
      rw (length-append word tail) (
        rw (take-append 64 word tail word_length, drop-append 64 word tail word_length)
          (rw
            (take_all 64 tail tail_length, drop-append 24 padding address k, take_all 40 address l)
            (rw (nonzero-hex_fixed 64 m (omega arith)) (ground arith)))))

-- The seventh word of a joinRequests result is its status, and a status of more than 8 bits is an
-- error.
pub decode_join_status-words :
    (before after : Text) (status : ℕ)
    → length before ≡ 384
    → length after ≡ 64
    → status < 2 ^ 256
    → decode_join_status (codes "0x" ++ (before ++ (hex_fixed 64 status ++ after)))
      ≡ (if ltb status 256 then some status else none)
unfolding decode_join_status
decode_join_status-words before after status h k l =
    let word = hex_fixed 64 status in
    let word_length : length word ≡ 64 = length-hex_fixed 64 status in
    rw trim_0x_prefixed (
      rw (length-append before (word ++ after), length-append word after, h, k, word_length)
        (rw (drop-append 384 before (word ++ after) h, take-append 64 word after word_length)
          (parse_uint-hex_fixed 8 63 status (omega arith))))
