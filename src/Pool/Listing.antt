-- ===== src/Pool/Listing.antt =====
-- blockchain/bl_pool.go: HandleEVMPoolList. The loop over the indexes has fuel, since only the end
-- of the context bounds it.
pub mod Ends
pub mod Bound
mod Examples
use go_fula.Prelude.{
  ℕ, zero, suc, ◌+◌, ◌%◌, ◌^◌, String, Bool, true, false, Option, none, some, List, [], ◌∷◌, ◌++◌,
  eqb, leb, ltb, if◌then◌else◌, length,
}
use go_fula.Evm.Hex.{Text}
use go_fula.Evm.Abi.{encode_pools_call, encode_pool_ids_call, decode_pool_id}
use go_fula.Evm.Abi.Strings.{Pool, decode_pools}
use go_fula.Evm.Abi.Decoded.{Decoded, value, error, panic}
use go_fula.Evm.Rpc.{ChainConfig, chain_config, Network, call_with_retry}
use go_fula.Pool.Membership.{
  RpcAnswer, no_reply, bad_status, unparsed, reported, result, read_answer,
}

-- The other fields are copied from the pool's data.
pub record EvmPool : Type 0 where
  pub id : ℕ
  pub fields : Pool
  pub chain_name : String

pub data PoolList : Type 0 where
  listed : List EvmPool → PoolList
  list_error list_panic out_of_fuel : PoolList

-- What an index gives: the end of the list, an error, or a pool id.
pub data IndexAnswer : Type 0 where
  no_more broken : IndexAnswer
  pool_at : ℕ → IndexAnswer

unfoldable pub index_of_id : Option ℕ → IndexAnswer
index_of_id none = no_more
index_of_id (some id) = pool_at id

unfoldable pub index_answer : RpcAnswer → IndexAnswer
unfolding index_of_id
index_answer no_reply = no_more
index_answer reported = no_more
index_answer (result r) = if leb (length r) 2 then no_more else index_of_id (decode_pool_id r)
index_answer _ = broken

-- uint32
unfoldable pub next_index : ℕ → ℕ
next_index i = (i + 1) % 2 ^ 32

-- `stop` is the list if the loop ends here, `rest` the list of the rest of the loop.
unfoldable pub after_append : ℕ → PoolList → PoolList → PoolList
unfolding next_index
after_append i stop rest = if ltb 20 (next_index i) then stop else rest

-- `next` is the rest of the loop from the pools that were found.
unfoldable pub after_pool :
    String → ℕ → ℕ → List EvmPool → Decoded Pool → (List EvmPool → PoolList) → PoolList
unfolding after_append
after_pool chain i id pools error next = next pools
after_pool chain i id pools panic next = list_panic
after_pool chain i id pools (value p) next =
    let pools' = pools ++ (record { id = id; fields = p; chain_name = chain } ∷ []) in
    after_append i (listed pools') (next pools')

-- Pool 0 is skipped.
unfoldable pub after_index : List EvmPool → IndexAnswer → PoolList → (ℕ → PoolList) → PoolList
after_index pools no_more skipped next = listed pools
after_index pools broken skipped next = list_error
after_index pools (pool_at id) skipped next = if eqb id 0 then skipped else next id

module _ (net : Network) (big_int : Text → ℕ) (chain : String) where
  unfoldable pub pool_data : RpcAnswer → Decoded Pool
  pool_data (result r) = decode_pools big_int r
  pool_data _ = error

  unfoldable pub list_pools : ℕ → ℕ → ℕ → List EvmPool → PoolList
  unfolding read_answer index_answer pool_data after_index after_pool next_index
  list_pools zero t i pools = out_of_fuel
  list_pools (suc fuel) t i pools =
      let (o, t₁) = call_with_retry net 3 t chain (encode_pool_ids_call i) in
      after_index pools (index_answer (read_answer net o)) (list_pools fuel t₁ (next_index i) pools)
        (λ id.
          let (o₂, t₂) = call_with_retry net 3 t₁ chain (encode_pools_call id) in
          after_pool chain i id pools (pool_data (read_answer net o₂))
            (λ pools'. list_pools fuel t₂ (next_index i) pools'))

  unfoldable pub list_on : ℕ → ℕ → Option ChainConfig → PoolList
  unfolding list_pools
  list_on fuel t none = list_error
  list_on fuel t (some config) = list_pools fuel t 0 []

  unfoldable pub handle_evm_pool_list : ℕ → ℕ → PoolList
  unfolding list_on
  handle_evm_pool_list fuel t = list_on fuel t (chain_config chain)
