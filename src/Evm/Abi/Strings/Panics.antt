-- ===== src/Evm/Abi/Strings/Panics.antt =====
-- Which answers of the chain make the decoders panic.
use go_fula.Prelude.{
  ℕ, ◌+◌, ◌*◌, ◌/◌, ◌%◌, ◌^◌, ◌≤◌, ◌≡◌, ◌↔◌, some, List, arith, length, get_elem?, take, ◌++◌,
}
use go_fula.Evm.Hex.{Text, parse_uint, codes, trim_0x}
use go_fula.Evm.Abi.Decoded.{panic}
use go_fula.Evm.Abi.Strings.{decode_string, decode_member_peer_ids}

module _ (slots : List Text) (offset byte_count : ℕ) (size word : Text) where
  -- Where the length word and the word behind it are there, the string panics exactly if its length
  -- modulo 2^63 is at least 2^62 bytes: twice that is a negative `int`, and so passes the test that
  -- guards the slice.
  pub decode_string_panic_iff :
      get_elem? slots (offset / 32) ≡ some size
      → parse_uint 64 size ≡ some byte_count
      → get_elem? slots (offset / 32 + 1) ≡ some word
      → (decode_string slots offset ≡ panic) ↔ (2 ^ 62 ≤ byte_count % 2 ^ 63)
  unfolding decode_string
  decode_string_panic_iff at read next = rw (at, read, next) (λ e. ground arith, λ e. ground arith)

-- The ids of an array answer panic where the doubled offset is a negative `int`.
module _ (max_cap offset count : ℕ) (digits : Text) where
  pub decode_member_peer_ids_panic :
      64 ≤ length digits
      → parse_uint 64 (take 64 digits) ≡ some offset
      → 2 ^ 63 ≤ offset * 2 % 2 ^ 64
      → decode_member_peer_ids max_cap (codes "0x" ++ digits) ≡ panic
  unfolding decode_member_peer_ids trim_0x
  decode_member_peer_ids_panic long read negative = rw read (ground arith)
