-- ===== src/Pool/Creator.antt =====
-- blockchain/bl_pool.go: GetPoolCreatorPeerID.
pub mod Found
mod Examples
use go_fula.Prelude.{
  ℕ, ◌||◌, String, Bool, true, false, Option, none, some, List, [], ◌∷◌, ◌++◌, eqb, if◌then◌else◌,
}
use go_fula.Evm.Hex.{Text, codes, hex_fixed, trim_0x}
use go_fula.Evm.Abi.{text_eq, parse_contract_error, encode_pools_call}
use go_fula.Evm.Abi.Strings.{Pool, decode_pools, decode_member_peer_ids}
use go_fula.Evm.Abi.Decoded.{Decoded, value, error, panic, try, ◌>>=◌}
use go_fula.Evm.Rpc.{ChainConfig, chain_config, Network, call_with_retry}
use go_fula.Evm.PeerIds.{Multibase, bytes32_to_peer_id}
use go_fula.Pool.Membership.{RpcAnswer, result, read_answer}

-- The network, the conversion of ids, the capacity that make accepts, big.Int, fmt's %064s, and
-- peer.Decode with the print of the id.
pub record CreatorEnv : Type 0 where
  pub net : Network
  pub mb : Multibase
  pub max_cap : ℕ
  pub big_int : Text → ℕ
  pub pad_64 : Text → Text
  pub decode_peer : Text → Option Text

unfoldable pub checked_result : Text → Option String → Decoded Text
checked_result r none = value r
checked_result r (some contract_error) = error

-- A result without an error of the call or of the contract.
unfoldable pub contract_result : RpcAnswer → Decoded Text
unfolding checked_result
contract_result (result r) = checked_result r (parse_contract_error r)
contract_result _ = error

unfoldable pub zero_word : Text
zero_word = codes "0x0000000000000000000000000000000000000000000000000000000000000000"

unfoldable pub first_id : List Text → Decoded Text
unfolding zero_word text_eq
first_id [] = error
first_id (w ∷ ws) = if text_eq w [] || text_eq w zero_word then error else value w

unfoldable pub shown_id : Text → Decoded Text
unfolding text_eq
shown_id id = if text_eq id [] then error else value id

module _ (env : CreatorEnv) where
  -- EncodeGetMemberPeerIdsCall
  unfoldable pub encode_get_member_peer_ids_call : ℕ → Text → Text
  encode_get_member_peer_ids_call pool_id address =
      codes "0x31db3ae8" ++ (hex_fixed 64 pool_id ++ env.pad_64 (trim_0x address))

  -- Bytes32ToPeerID
  unfoldable pub to_peer_id : Text → Decoded Text
  unfolding shown_id
  to_peer_id w = try (bytes32_to_peer_id env.mb w) >>= (λ s. try (env.decode_peer s)) >>= shown_id

  unfoldable pub creator_id : String → ℕ → ℕ → Pool → Decoded Text
  unfolding contract_result first_id to_peer_id encode_get_member_peer_ids_call
  creator_id chain t pool_id pool =
      let (o, t') =
        call_with_retry env.net 3 t chain (encode_get_member_peer_ids_call pool_id pool.creator) in
      contract_result (read_answer env.net o)
      >>= decode_member_peer_ids env.max_cap
      >>= first_id
      >>= to_peer_id

  unfoldable pub creator_on : String → ℕ → ℕ → Option ChainConfig → Decoded Text
  unfolding contract_result creator_id
  creator_on chain t pool_id none = error
  creator_on chain t pool_id (some config) =
      let (o, t') = call_with_retry env.net 3 t chain (encode_pools_call pool_id) in
      contract_result (read_answer env.net o)
      >>= decode_pools env.big_int
      >>= creator_id chain t' pool_id

  unfoldable pub get_pool_creator_peer_id : String → ℕ → ℕ → Decoded Text
  unfolding creator_on
  get_pool_creator_peer_id chain t pool_id =
      if eqb pool_id 0 then error else creator_on chain t pool_id (chain_config chain)
