-- ===== src/Pool/Creator/Examples.antt =====
-- A concrete creator.
use go_fula.Prelude.{ℕ, ◌≡◌, ◌≢◌, refl, ◌==◌, false, some, ◌++◌, take, if◌then◌else◌}
use go_fula.Evm.Hex.{
  Text, codes, hex_fixed, hex_digit, trim_0x, nonzero, parse_uint, parse_from, hex_value,
  decode_hex,
}
use go_fula.Evm.Abi.{text_eq, parse_contract_error, encode_pools_call}
use go_fula.Evm.Abi.Decoded.{value}
use go_fula.Evm.Abi.Strings.{decode_pools, decode_member_peer_ids, slots_of, decode_string}
use go_fula.Evm.Rpc.{Network, Post, rpc_result, call_with_retry, call_evm_chain, chain_config}
use go_fula.Evm.PeerIds.{bytes32_to_peer_id, trim_z}
use go_fula.Pool.Examples.{one_key, ones, one_word}
use go_fula.Pool.Membership.{read_answer}
use go_fula.Pool.Creator.{CreatorEnv, get_pool_creator_peer_id}
use go_fula.Pool.Creator.Found.{Creator, get_pool_creator_peer_id-Creator}

-- An array with one word.
unfoldable ids : Text
unfolding one_word hex_fixed
ids = codes "0x" ++ (hex_fixed 64 32 ++ (one_word ++ one_word))

abbrev network : Network
network = record {
  post = λ t url contract call_data.
      if text_eq (take 10 call_data) (codes "0x31db3ae8")
      then Post.answered "ids" 200
      else Post.answered "ones" 200;
  done = λ t. false;
  parse_rpc = λ body. if body == "ids" then some (rpc_result ids) else some (rpc_result ones);
}

abbrev env : CreatorEnv
env = record {
  net = network;
  mb = one_key;
  max_cap = 100;
  big_int = λ w. 0;
  pad_64 = λ s. s;
  decode_peer = λ s. some s;
}

creator : get_pool_creator_peer_id env "skale" 0 7 ≡ value (codes "K")
unfolding get_pool_creator_peer_id call_with_retry call_evm_chain chain_config read_answer ids ones
    encode_pools_call parse_contract_error hex_digit decode_pools trim_0x slots_of nonzero
    parse_uint parse_from hex_value decode_string decode_hex decode_member_peer_ids
    bytes32_to_peer_id trim_z
creator = refl

abbrev seven : ℕ
seven = 7

seven_has_one : (seven ≢ 0) × Creator env "skale" seven (codes "K")
seven_has_one = get_pool_creator_peer_id-Creator env "skale" 0 7 (codes "K") creator
