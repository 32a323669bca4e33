-- ===== src/Pool/Membership.antt =====
-- blockchain/bl_pool.go: HandleIsMemberOfPool, and how it and the pool list read a reply of a chain.
pub mod Shown
mod Examples
use go_fula.Prelude.{
  ℕ, zero, suc, ◌+◌, String, Bool, true, false, not, Option, none, some, ◌==◌, eqb, if◌then◌else◌,
}
use go_fula.Evm.Hex.{Text, codes}
use go_fula.Evm.Abi.{parse_contract_error, decode_is_member, encode_is_member_call}
use go_fula.Evm.Abi
use go_fula.Evm.Rpc.{
  ChainConfig, chain_config, Network, Outcome, responded, failure, RpcReply, rpc_error, rpc_result,
  call_with_retry,
}
use go_fula.Evm.PeerIds.{Multibase, peer_id_to_bytes32}

-- No reply, another status than 200, a body that json.Unmarshal refuses, an RPC error, or a result.
pub data RpcAnswer : Type 0 where
  no_reply bad_status unparsed reported : RpcAnswer
  result : Text → RpcAnswer

unfoldable pub answer_of_reply : Option RpcReply → RpcAnswer
answer_of_reply none = unparsed
answer_of_reply (some rpc_error) = reported
answer_of_reply (some (rpc_result r)) = result r

pub record IsMemberRequest : Type 0 where
  pub pool_id : ℕ
  pub chain_name : String
  pub peer_id : Text

pub data IsMemberReply : Type 0 where
  failed : IsMemberReply
  member_reply : (is_member : Bool) → (member_address : Text) → IsMemberReply

unfoldable pub not_member : IsMemberReply
not_member = member_reply false (codes "0x0000000000000000000000000000000000000000")

unfoldable pub reply_of_membership : Option Abi.Membership → IsMemberReply
unfolding not_member
reply_of_membership none = not_member
reply_of_membership (some m) = member_reply m.is_member m.member_address

unfoldable pub reply_of_result : Text → Option String → IsMemberReply
unfolding not_member reply_of_membership
reply_of_result r (some contract_error) = not_member
reply_of_result r none = reply_of_membership (decode_is_member r)

unfoldable pub reply_of_answer : RpcAnswer → IsMemberReply
unfolding not_member reply_of_result
reply_of_answer no_reply = not_member
reply_of_answer (result r) = reply_of_result r (parse_contract_error r)
reply_of_answer _ = failed

module _ (net : Network) where
  unfoldable pub read_answer : Outcome → RpcAnswer
  unfolding answer_of_reply
  read_answer failure = no_reply
  read_answer (responded body code) =
      if eqb code 200 then answer_of_reply (net.parse_rpc body) else bad_status

  unfoldable pub ask_member : IsMemberRequest → ℕ → Option Text → IsMemberReply × ℕ
  unfolding read_answer reply_of_answer
  ask_member r t none = (failed, t)
  ask_member r t (some peer) =
      let (o, t') = call_with_retry net 3 t r.chain_name (encode_is_member_call r.pool_id peer) in
      (reply_of_answer (read_answer o), t')

  unfoldable pub ask_on : Multibase → IsMemberRequest → ℕ → Option ChainConfig → IsMemberReply × ℕ
  unfolding ask_member
  ask_on mb r t none = (failed, t)
  ask_on mb r t (some config) = ask_member r t (peer_id_to_bytes32 mb r.peer_id)

  unfoldable pub handle_is_member_of_pool : Multibase → IsMemberRequest → ℕ → IsMemberReply × ℕ
  unfolding ask_on not_member
  handle_is_member_of_pool mb r t =
      if eqb r.pool_id 0 then (not_member, t) else ask_on mb r t (chain_config r.chain_name)
