-- ===== src/Evm/Examples.antt =====
-- Concrete answers of the chains for the theorems on their decoding.
use go_fula.Prelude.{
  ◌<◌, All, ◌+◌, ◌*◌, ◌%◌, ◌^◌, ◌≤◌, ◌↔◌, false, not, none, some, List, [], ◌∷◌, ◌++◌, map, eqb,
  ltb, if◌then◌else◌, ◌≡◌, refl, arith, Bool, true, ◌&&◌,
}
use go_fula.Evm.Hex.{
  Text, codes, parse_uint, parse_from, hex_value, hex_digit, hex_fixed, decode_hex, encode_hex,
  trim_0x,
}
use go_fula.Evm.Hex.Words.{parse_uint-hex_fixed, decode_hex-encode_hex}
use go_fula.Evm.Abi.{text_eq, decode_pool_id, decode_is_member, decode_join_status}
use go_fula.Evm.Abi.Decoded.{value, panic}
use go_fula.Evm.Abi.Calls.{
  decode_pool_id-hex_fixed, decode_is_member-words, decode_join_status-words,
}
use go_fula.Evm.Abi.Strings.{decode_string, decode_member_peer_ids}
use go_fula.Evm.Abi.Strings.Panics.{decode_string_panic_iff}
use go_fula.Evm.Abi.Strings.PeerIds.{joined, decode_member_peer_ids-joined}
use go_fula.Evm.Rpc.{
  Network, answered, failed, rpc_error, call_with_retry, call_evm_chain, chain_config, read_post,
}
use go_fula.Evm.Rpc.Attempts.{Genuine, call_with_retry_ticks, call_with_retry-Genuine}
use go_fula.Evm.PeerIds.{
  Multibase, peer_id_to_bytes32, bytes32_to_peer_id, digest_of, trim_z, with_z,
}
use go_fula.Evm.PeerIds.Keys.{peer_id_to_bytes32-encode_hex}
use go_fula.Evm.PeerIds.Reversible.{bytes32_to_peer_id-peer_id_to_bytes32}

parse_uint-hex_fixed_example :
    parse_uint 8 (hex_fixed 4 300) ≡ (if ltb 300 (2 ^ 8) then some 300 else none)
parse_uint-hex_fixed_example = parse_uint-hex_fixed 8 3 300 (omega arith)

decode_hex-encode_hex_example : decode_hex (encode_hex (0 ∷ 255 ∷ [])) ≡ some (0 ∷ 255 ∷ [])
decode_hex-encode_hex_example =
    decode_hex-encode_hex (0 ∷ 255 ∷ []) (omega arith, (omega arith, tt))

decode_pool_id_test :
    decode_pool_id (codes "0x" ++ hex_fixed 64 4294967303) ≡ some (4294967303 % 2 ^ 32)
decode_pool_id_test = decode_pool_id-hex_fixed 4294967303 (omega arith)

decode_is_member-words_test :
    decode_is_member (codes "0x" ++ (hex_fixed 64 1 ++ (hex_fixed 24 0 ++ hex_fixed 40 9)))
    ≡ some (record { is_member = not (eqb 1 0); member_address = codes "0x" ++ hex_fixed 40 9 })
unfolding hex_fixed
decode_is_member-words_test =
    decode_is_member-words 1 (hex_fixed 24 0) (hex_fixed 40 9) (omega arith) refl refl

decode_join_status-words_test :
    decode_join_status (codes "0x" ++ (hex_fixed 384 0 ++ (hex_fixed 64 1 ++ hex_fixed 64 0)))
    ≡ (if ltb 1 256 then some 1 else none)
unfolding hex_fixed
decode_join_status-words_test =
    decode_join_status-words (hex_fixed 384 0) (hex_fixed 64 0) 1 refl refl (omega arith)

-- A string whose length is 2^62.
abbrev huge : List Text
huge = codes "4000000000000000" ∷ codes "00" ∷ []

decode_string_panic_iff_example :
    (decode_string huge 0 ≡ panic) ↔ (2 ^ 62 ≤ 4611686018427387904 % 2 ^ 63)
unfolding parse_uint parse_from hex_value
decode_string_panic_iff_example =
    decode_string_panic_iff huge 0 4611686018427387904 (codes "4000000000000000") (codes "00") refl
      refl refl

decode_member_peer_ids-joined_test :
    decode_member_peer_ids 10
      (codes "0x" ++ (hex_fixed 64 32 ++ (hex_fixed 64 1 ++ joined (hex_fixed 64 5 ∷ []))))
    ≡ value (map (λ w. codes "0x" ++ w) (hex_fixed 64 5 ∷ []))
unfolding hex_fixed
decode_member_peer_ids-joined_test =
    decode_member_peer_ids-joined 10 (hex_fixed 64 5 ∷ []) (refl, tt) (omega arith) (omega arith)

-- The first endpoint of "base" cannot be reached, and its backup answers.
abbrev backup_network : Network
backup_network = record {
  post = λ t url contract call_data. if eqb t 0 then failed else answered "ok" 200;
  done = λ t. false;
  parse_rpc = λ body. some rpc_error;
}

call_with_retry_ticks_test :
    (0 ≤ (call_with_retry backup_network 3 0 "base" []).1)
    × ((call_with_retry backup_network 3 0 "base" []).1 ≤ 0 + 2 * 3)
call_with_retry_ticks_test = call_with_retry_ticks backup_network "base" [] 3 0

call_with_retry-Genuine_test :
    Genuine backup_network "base" [] 0 (call_with_retry backup_network 3 0 "base" []).1 "ok" 200
unfolding call_with_retry call_evm_chain chain_config read_post
call_with_retry-Genuine_test = call_with_retry-Genuine backup_network "base" [] 3 0 refl

abbrev some_key : Text
some_key =
    0 ∷ 1 ∷ 2 ∷ 3 ∷ 0 ∷ 0 ∷ 0 ∷ 0 ∷ 0 ∷ 0 ∷ 0 ∷ 0 ∷ 0 ∷ 0 ∷ 0 ∷ 0 ∷ 0 ∷ 0 ∷ 0 ∷ 0 ∷ 0 ∷ 0 ∷ 0 ∷ 0
    ∷ 0 ∷ 0 ∷ 0 ∷ 0 ∷ 0 ∷ 0 ∷ 0 ∷ 0 ∷ []

abbrev one_key : Multibase
one_key = record {
  decode = λ s. some (0x00 ∷ 0x24 ∷ 0x08 ∷ 0x01 ∷ 0x12 ∷ 0x20 ∷ some_key);
  encode = λ bytes. some (codes "zK");
}

bytes32_to_peer_id-peer_id_to_bytes32_test :
    bytes32_to_peer_id one_key (codes "0x" ++ encode_hex some_key)
    ≡ some (trim_z (with_z (codes "K")))
unfolding peer_id_to_bytes32 with_z digest_of encode_hex hex_digit text_eq bytes32_to_peer_id
    decode_hex trim_0x hex_value trim_z
bytes32_to_peer_id-peer_id_to_bytes32_test =
    bytes32_to_peer_id-peer_id_to_bytes32 one_key (codes "K") refl

all_bytes : Text → Bool
all_bytes [] = true
all_bytes (b ∷ s) = let rest = all_bytes s in ltb b 256 && rest

all_bytes-All : (s : Text) → all_bytes s ≡ true → All (λ b. b < 256) s
unfolding all_bytes
all_bytes-All [] h = tt
all_bytes-All (b ∷ s) h = (ground arith, all_bytes-All s (ground arith))

some_key_bytes : All (λ b. b < 256) some_key
unfolding all_bytes
some_key_bytes = all_bytes-All some_key refl

peer_id_to_bytes32-encode_hex_example :
    (peer_id_to_bytes32 one_key (codes "K") ≡ some (codes "0x" ++ encode_hex some_key))
    × (bytes32_to_peer_id one_key (codes "0x" ++ encode_hex some_key)
        ≡ some (trim_z (with_z (codes "K"))))
unfolding with_z
peer_id_to_bytes32-encode_hex_example =
    peer_id_to_bytes32-encode_hex one_key (codes "K") some_key some_key_bytes refl refl refl
