-- ===== src/Pool/Membership/Examples.antt =====
-- A concrete query.
use go_fula.Prelude.{◌≡◌, refl, true}
use go_fula.Evm.Hex.{Text, codes, hex_digit, trim_0x, nonzero}
use go_fula.Evm.Abi.{parse_contract_error, decode_is_member}
use go_fula.Evm.Rpc.{call_with_retry, call_evm_chain, chain_config}
use go_fula.Pool.Examples.{pool_network, one_key, ones, cluster_bytes}
use go_fula.Pool.Membership.{
  IsMemberRequest, member_reply, handle_is_member_of_pool, read_answer, reply_of_answer, result,
}
use go_fula.Pool.Membership.Shown.{Shown, handle_is_member_of_pool-Shown}

abbrev request : IsMemberRequest
request = record { pool_id = 7; chain_name = "skale"; peer_id = codes "zK" }

abbrev address : Text
address = codes "0x0000000000000000000000000000000000000001"

ones_answer : reply_of_answer (result ones) ≡ member_reply true address
unfolding ones reply_of_answer parse_contract_error decode_is_member hex_digit trim_0x nonzero
ones_answer = refl

is_member : (handle_is_member_of_pool pool_network one_key request 0).0 ≡ member_reply true address
unfolding handle_is_member_of_pool call_with_retry call_evm_chain chain_config read_answer
is_member = rw cluster_bytes ones_answer

handle_is_member_of_pool-Shown_example : Shown pool_network one_key request 0 address
handle_is_member_of_pool-Shown_example =
    handle_is_member_of_pool-Shown pool_network address one_key request 0 is_member
