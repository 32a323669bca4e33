-- ===== src/Pool/Status.antt =====
-- blockchain/bl_pool.go: ClusterPeerPoolStatus, validatePoolOnChain and discoverPoolChain.
pub mod Discovered
use go_fula.Prelude.{
  ℕ, String, Bool, true, false, Option, none, some, List, [], ◌∷◌, eqb, if◌then◌else◌,
}
use go_fula.Evm.Hex.{Text}
use go_fula.Evm.Abi.{
  parse_contract_error, encode_pools_call, encode_is_member_call, encode_join_requests_call,
  Membership, decode_is_member, decode_join_status,
}
use go_fula.Evm.Abi.Decoded.{Decoded, value, error, panic}
use go_fula.Evm.Abi.Strings.{Pool, decode_pools}
use go_fula.Evm.Rpc.{Network, call_with_retry, result_of, strict_eth_call}
use go_fula.Evm.PeerIds.{Multibase, peer_id_to_bytes32}

-- What the chain lists the device as.
pub record Standing : Type 0 where
  pub member : Bool
  pub pending : Bool

-- joinRequestPending
unfoldable pub standing_of_request : Option ℕ → Option Standing
standing_of_request none = none
standing_of_request (some status) = some (record { member = false; pending = eqb status 1 })

unfoldable pub standing_of_result : Option Text → Option Standing
unfolding standing_of_request
standing_of_result none = none
standing_of_result (some result) = standing_of_request (decode_join_status result)

module _ (net : Network) where
  unfoldable pub ask_request : ℕ → String → Text → Option Standing × ℕ
  unfolding standing_of_result
  ask_request t chain call_data =
      let (result, t') = strict_eth_call net t chain call_data in (standing_of_result result, t')

  -- `requested` is the second question, asked of no member.
  unfoldable pub after_membership :
      Option Membership → ℕ → Option Standing × ℕ → Option Standing × ℕ
  after_membership none t requested = (none, t)
  after_membership (some m) t requested =
      if m.is_member then (some (record { member = true; pending = false }), t) else requested

  unfoldable pub membership_of : Option Text → Option Membership
  membership_of none = none
  membership_of (some result) = decode_is_member result

  unfoldable pub standing_of_peer : ℕ → ℕ → String → Option Text → Option Standing × ℕ
  unfolding after_membership membership_of ask_request
  standing_of_peer t pool_id chain none = (none, t)
  standing_of_peer t pool_id chain (some peer) =
      let (result, t') = strict_eth_call net t chain (encode_is_member_call pool_id peer) in
      let requested = ask_request t' chain (encode_join_requests_call pool_id peer) in
      after_membership (membership_of result) t' requested

  unfoldable pub bytes32_of : Multibase → Option Text → Option Text
  bytes32_of mb none = none
  bytes32_of mb (some id) = peer_id_to_bytes32 mb id

  -- ClusterPeerPoolStatus for the id of the cluster peer; `none` is an error.
  unfoldable pub cluster_peer_pool_status :
      Multibase → Option Text → ℕ → ℕ → String → Option Standing × ℕ
  unfolding standing_of_peer bytes32_of
  cluster_peer_pool_status mb cluster t pool_id chain =
      standing_of_peer t pool_id chain (bytes32_of mb cluster)

  unfoldable pub pool_exists : Decoded Pool → Decoded Bool
  pool_exists (value pool) = value true
  pool_exists error = value false
  pool_exists panic = panic

  unfoldable pub valid_result : (Text → ℕ) → Option Text → Decoded Bool
  unfolding pool_exists
  valid_result big_int none = value false
  valid_result big_int (some result) = elim (parse_contract_error result) [
    | some code ↦ value false
    | none ↦ pool_exists (decode_pools big_int result)
  ]

  -- validatePoolOnChain; `value true` is the result without an error.
  unfoldable pub validate_pool_on_chain : (Text → ℕ) → ℕ → ℕ → String → Decoded Bool × ℕ
  unfolding valid_result
  validate_pool_on_chain big_int t pool_id chain =
      let (outcome, t') = call_with_retry net 2 t chain (encode_pools_call pool_id) in
      (valid_result big_int (result_of net outcome), t')

  unfoldable pub found_on :
      String → Decoded Bool → ℕ → Decoded (Option String) × ℕ → Decoded (Option String) × ℕ
  found_on chain (value true) t rest = (value (some chain), t)
  found_on chain (value false) t rest = rest
  found_on chain error t rest = rest
  found_on chain panic t rest = (panic, t)

  unfoldable pub first_valid : (Text → ℕ) → ℕ → ℕ → List String → Decoded (Option String) × ℕ
  unfolding found_on validate_pool_on_chain
  first_valid big_int t pool_id [] = (value none, t)
  first_valid big_int t pool_id (chain ∷ chains) =
      let (valid, t') = validate_pool_on_chain big_int t pool_id chain in
      let rest = first_valid big_int t' pool_id chains in found_on chain valid t' rest

  unfoldable pub discover_pool_chain : (Text → ℕ) → ℕ → ℕ → Decoded (Option String) × ℕ
  unfolding first_valid
  discover_pool_chain big_int t pool_id = first_valid big_int t pool_id ("skale" ∷ "base" ∷ [])
