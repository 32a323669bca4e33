-- ===== src/Pool/Membership/Shown.antt =====
-- What a positive answer shows.
use go_fula.Prelude.{
  ℕ, String, ◌≡◌, ◌≢◌, refl, ap₂, Bool, true, Option, none, some, eqb, arith, Bool-cases, inl, inr,
}
use go_fula.Evm.Hex.{Text}
use go_fula.Evm.Abi
use go_fula.Evm.Abi.{parse_contract_error, decode_is_member, encode_is_member_call}
use go_fula.Evm.Rpc.{
  ChainConfig, chain_config, Network, Outcome, responded, failure, RpcReply, rpc_error, rpc_result,
  call_with_retry,
}
use go_fula.Evm.Rpc.Attempts.{Genuine, call_with_retry-Genuine}
use go_fula.Evm.PeerIds.{Multibase, peer_id_to_bytes32}
use go_fula.Pool.Membership.{
  RpcAnswer, no_reply, bad_status, unparsed, reported, result, answer_of_reply, IsMemberRequest,
  member_reply, not_member, reply_of_membership, reply_of_result, reply_of_answer, read_answer,
  ask_member, ask_on, handle_is_member_of_pool,
}

-- An endpoint of the chain answered the call about the peer and the pool with this membership.
pub record Shown (net : Network) (mb : Multibase) (r : IsMemberRequest) (t : ℕ) (address : Text)
    : Type 0 where
  pub peer : Text
  pub body : String
  pub returned : Text
  pub until : ℕ
  pub pool_exists : r.pool_id ≢ 0
  pub converted : peer_id_to_bytes32 mb r.peer_id ≡ some peer
  pub genuine : Genuine net r.chain_name (encode_is_member_call r.pool_id peer) t until body 200
  pub parsed : net.parse_rpc body ≡ some (rpc_result returned)
  pub decoded :
      decode_is_member returned ≡ some (record { is_member = true; member_address = address })

abbrev membership : Bool → Text → Option Abi.Membership
membership b a = some (record { is_member = b; member_address = a })

module _ (net : Network) (address : Text) where
  membership_shown :
      (o : Option Abi.Membership)
      → reply_of_membership o ≡ member_reply true address
      → o ≡ some (record { is_member = true; member_address = address })
  unfolding reply_of_membership not_member
  membership_shown none h = absurd (cc)
  membership_shown (some m) h =
      let is : m.is_member ≡ true = cc in
      let at : m.member_address ≡ address = cc in ap₂ membership is at

  result_shown :
      (r : Text) (o : Option String)
      → reply_of_result r o ≡ member_reply true address
      → decode_is_member r ≡ some (record { is_member = true; member_address = address })
  unfolding reply_of_result not_member
  result_shown r (some e) h = absurd (cc)
  result_shown r none h = membership_shown (decode_is_member r) h

  answer_shown :
      (a : RpcAnswer)
      → reply_of_answer a ≡ member_reply true address
      → (r : Text) × (a ≡ result r)
        × (decode_is_member r ≡ some (record { is_member = true; member_address = address }))
  unfolding reply_of_answer not_member
  answer_shown no_reply h = absurd (cc)
  answer_shown bad_status h = absurd (cc)
  answer_shown unparsed h = absurd (cc)
  answer_shown reported h = absurd (cc)
  answer_shown (result r) h = (r, refl, result_shown r (parse_contract_error r) h)

  reply_result :
      (o : Option RpcReply) (r : Text) → answer_of_reply o ≡ result r → o ≡ some (rpc_result r)
  unfolding answer_of_reply
  reply_result none r h = absurd (cc)
  reply_result (some rpc_error) r h = absurd (cc)
  reply_result (some (rpc_result x)) r h = cc

  pub read_result :
      (o : Outcome) (r : Text)
      → read_answer net o ≡ result r
      → (body : String) × (o ≡ responded body 200) × (net.parse_rpc body ≡ some (rpc_result r))
  unfolding read_answer
  read_result failure r h = absurd (cc)
  read_result (responded body code) r h = elim (Bool-cases (eqb code 200)) [
    | inl e ↦
        let is_ok : code ≡ 200 = ground arith in
        (body, rw is_ok refl, reply_result (net.parse_rpc body) r (rw e at h))
    | inr e ↦ absurd (cc (rw e at h))
  ]

  asked_about :
      (mb : Multibase) (r : IsMemberRequest) (t : ℕ) (o : Option Text)
      → r.pool_id ≢ 0
      → peer_id_to_bytes32 mb r.peer_id ≡ o
      → (ask_member net r t o).0 ≡ member_reply true address
      → Shown net mb r t address
  unfolding ask_member
  asked_about mb r t none there e h = absurd (cc)
  asked_about mb r t (some peer) there e h =
      let call = encode_is_member_call r.pool_id peer in
      let (o, t') = call_with_retry net 3 t r.chain_name call in
      let (returned, read, decoded) = answer_shown (read_answer net o) h in
      let (body, responded_with, parsed) = read_result o returned read in
      record {
        peer = peer;
        body = body;
        returned = returned;
        until = t';
        pool_exists = there;
        converted = e;
        genuine = call_with_retry-Genuine net r.chain_name call 3 t responded_with;
        parsed = parsed;
        decoded = decoded;
      }

  on_chain_about :
      (mb : Multibase) (r : IsMemberRequest) (t : ℕ) (c : Option ChainConfig)
      → r.pool_id ≢ 0
      → (ask_on net mb r t c).0 ≡ member_reply true address
      → Shown net mb r t address
  unfolding ask_on
  on_chain_about mb r t none there h = absurd (cc)
  on_chain_about mb r t (some c) there h =
      asked_about mb r t (peer_id_to_bytes32 mb r.peer_id) there refl h

  -- If the reply says that a peer is a member of a pool, an endpoint of the chain answered so, for
  -- the call with that pool, which is not 0, and the bytes of that peer's id.
  pub handle_is_member_of_pool-Shown :
      (mb : Multibase) (r : IsMemberRequest) (t : ℕ)
      → (handle_is_member_of_pool net mb r t).0 ≡ member_reply true address
      → Shown net mb r t address
  unfolding handle_is_member_of_pool not_member
  handle_is_member_of_pool-Shown mb r t h = elim (Bool-cases (eqb r.pool_id 0)) [
    | inl e ↦ absurd (cc (rw e at h))
    | inr e ↦
        let there : r.pool_id ≢ 0 = (λ z. ground arith) in
        on_chain_about mb r t (chain_config r.chain_name) there (rw e at h)
  ]
