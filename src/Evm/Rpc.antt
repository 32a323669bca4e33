-- ===== src/Evm/Rpc.antt =====
-- JSON-RPC calls to the chains: GetChainConfigs, callEVMChain, callEVMChainWithRetry and
-- strictEthCall of package blockchain. A tick counts the calls that the environment has answered.
pub mod Attempts
pub mod Ended
use go_fula.Prelude.{
  ℕ, zero, suc, ◌+◌, String, Bool, true, false, ◌||◌, Option, none, some, ◌==◌, eqb, if◌then◌else◌,
}
use go_fula.Evm.Hex.{Text}

pub record ChainConfig : Type 0 where
  pub rpc : String
  pub backup_rpc : String
  pub contract : String

-- GetChainConfigs; another name is an unsupported chain.
unfoldable pub chain_config : String → Option ChainConfig
chain_config chain =
    if chain == "base"
    then some (record {
      rpc = "https://base-rpc.publicnode.com";
      backup_rpc = "https://1rpc.io/base";
      contract = "0xb093fF4B3B3B87a712107B26566e0cCE5E752b4D";
    })
    else if chain == "skale"
    then some (record {
      rpc = "https://mainnet.skalenodes.com/v1/elated-tan-skat";
      backup_rpc = "";
      contract = "0xf9176Ffde541bF0aa7884298Ce538c471Ad0F015";
    })
    else none

-- What the HTTP client returns: an error, a response whose body cannot be read, or a response with
-- its body and status.
pub data Post : Type 0 where
  failed : Post
  unreadable : ℕ → Post
  answered : String → ℕ → Post

pub data RpcReply : Type 0 where
  rpc_error : RpcReply
  rpc_result : Text → RpcReply

-- The network at each tick: `post` is an HTTP POST of an eth_call to a URL, for a contract and its
-- call data; `done` tells that the context ends before the next wait is over.
pub record Network : Type 0 where
  pub post : ℕ → String → String → Text → Post
  pub done : ℕ → Bool
  pub parse_rpc : String → Option RpcReply  -- json.Unmarshal

pub data Outcome : Type 0 where
  responded : String → ℕ → Outcome
  failure : Outcome

unfoldable pub read_post : Post → Outcome
read_post failed = failure
read_post (unreadable code) = failure
read_post (answered body code) = responded body code

module _ (net : Network) where
  open net use {post, done, parse_rpc}

  -- The backup endpoint is asked only if the first one cannot be reached.
  after_primary : ℕ → ChainConfig → Text → Post → Outcome × ℕ
  unfolding read_post
  after_primary t c call_data failed =
      if c.backup_rpc == ""
      then (failure, t + 1)
      else (read_post (post (t + 1) c.backup_rpc c.contract call_data), t + 2)
  after_primary t c call_data reply = (read_post reply, t + 1)

  call_configured : ℕ → Text → Option ChainConfig → Outcome × ℕ
  unfolding after_primary
  call_configured t call_data none = (failure, t)
  call_configured t call_data (some c) =
      after_primary t c call_data (post t c.rpc c.contract call_data)

  unfoldable pub call_evm_chain : ℕ → String → Text → Outcome × ℕ
  unfolding call_configured
  call_evm_chain t chain call_data = call_configured t call_data (chain_config chain)

  -- `rest` is the loop after the wait; `stop` holds after the last attempt and at the context's end.
  after_attempt : Outcome → ℕ → Bool → Outcome × ℕ → Outcome × ℕ
  after_attempt (responded body code) t stop rest = (responded body code, t)
  after_attempt failure t stop rest = if stop then (failure, t) else rest

  -- The loop, with the attempts that are left.
  unfoldable pub call_with_retry : ℕ → ℕ → String → Text → Outcome × ℕ
  unfolding after_attempt
  call_with_retry zero t chain call_data = (failure, t)
  call_with_retry (suc attempts) t chain call_data =
      let (outcome, t') = call_evm_chain t chain call_data in
      let rest = call_with_retry attempts t' chain call_data in
      after_attempt outcome t' (eqb attempts 0 || done t') rest

  result_of_reply : Option RpcReply → Option Text
  result_of_reply (some (rpc_result result)) = some result
  result_of_reply _ = none

  -- Status 200, a JSON body, no RPC error.
  unfoldable pub result_of : Outcome → Option Text
  unfolding result_of_reply
  result_of failure = none
  result_of (responded body code) = if eqb code 200 then result_of_reply (parse_rpc body) else none

  unfoldable pub strict_eth_call : ℕ → String → Text → Option Text × ℕ
  unfolding result_of
  strict_eth_call t chain call_data =
      let (outcome, t') = call_with_retry 3 t chain call_data in (result_of outcome, t')
