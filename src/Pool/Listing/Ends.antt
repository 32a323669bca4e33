-- ===== src/Pool/Listing/Ends.antt =====
-- The pool list ends with the context.
use go_fula.Prelude.{
  ℕ, zero, suc, ◌+◌, ◌≤◌, ◌<◌, String, ◌≡◌, refl, Bool, true, false, some, List, [], eqb, ltb, leb,
  arith, Bool-cases, inl, inr,
}
use go_fula.Evm.Hex.{Text}
use go_fula.Evm.Abi.{encode_pools_call, encode_pool_ids_call}
use go_fula.Evm.Abi.Strings.{Pool}
use go_fula.Evm.Abi.Decoded.{Decoded, value, error, panic}
use go_fula.Evm.Rpc.{ChainConfig, chain_config, Network, call_with_retry}
use go_fula.Evm.Rpc.Ended.{Ended, retry_asks, retry_ended}
use go_fula.Evm.Rpc.Attempts.{call_with_retry_ticks}
use go_fula.Pool.Membership.{read_answer}
use go_fula.Pool.Listing.{
  EvmPool, PoolList, out_of_fuel, IndexAnswer, no_more, broken, pool_at, index_answer, pool_data,
  after_append, after_pool, after_index, next_index, list_pools, list_on, handle_evm_pool_list,
}

-- The listing came to its end: with a list, an error or a panic.
unfoldable pub returned : PoolList → Bool
returned out_of_fuel = false
returned _ = true

returned_append :
    (i : ℕ) (stop rest : PoolList)
    → returned stop ≡ true
    → returned rest ≡ true
    → returned (after_append i stop rest) ≡ true
unfolding after_append
returned_append i stop rest h k = elim (Bool-cases (ltb 20 (next_index i))) [
  | inl e ↦ rw e h
  | inr e ↦ rw e k
]

pool_returned :
    (chain : String) (i id : ℕ) (pools : List EvmPool) (d : Decoded Pool)
    (next : List EvmPool → PoolList)
    → ((ps : List EvmPool) → returned (next ps) ≡ true)
    → returned (after_pool chain i id pools d next) ≡ true
unfolding after_pool
pool_returned chain i id pools error next h = h pools
pool_returned chain i id pools panic next h = unfold returned in refl
pool_returned chain i id pools (value p) next h =
    returned_append i _ _ (unfold returned in refl) (h _)

index_returned :
    (pools : List EvmPool) (a : IndexAnswer) (skipped : PoolList) (next : ℕ → PoolList)
    → returned skipped ≡ true
    → ((id : ℕ) → returned (next id) ≡ true)
    → returned (after_index pools a skipped next) ≡ true
unfolding after_index
index_returned pools no_more skipped next h k = unfold returned in refl
index_returned pools broken skipped next h k = unfold returned in refl
index_returned pools (pool_at id) skipped next h k = elim (Bool-cases (eqb id 0)) [
  | inl e ↦ rw e h
  | inr e ↦ rw e (k id)
]

module _ (net : Network) (big_int : Text → ℕ) (chain : String) (c : ChainConfig)
    (known : chain_config chain ≡ some c) (end : ℕ) (ended : Ended net end) where
  no_reply_ends :
      (t : ℕ) (call_data : Text)
      → end ≤ t
      → index_answer (read_answer net (call_with_retry net 3 t chain call_data).0) ≡ no_more
  unfolding index_answer read_answer
  no_reply_ends t call_data late = rw (retry_ended net chain call_data end ended 3 t late) refl

  list_returns :
      (fuel t i : ℕ) (pools : List EvmPool)
      → 1 ≤ fuel
      → end < t + fuel
      → returned (list_pools net big_int chain fuel t i pools) ≡ true
  unfolding list_pools
  list_returns zero t i pools some_fuel h = absurd (omega arith)
  list_returns (suc fuel) t i pools some_fuel h =
      let call = encode_pool_ids_call i in
      elim (Bool-cases (leb end t)) [
        | inl late ↦ rw (no_reply_ends t call (ground arith)) (unfold after_index returned in refl)
        | inr early ↦
            let t₁ = (call_with_retry net 3 t chain call).1 in
            let later : suc t ≤ t₁ = retry_asks net chain call 2 c t known in
            let before : suc t ≤ end = ground arith in
            index_returned pools
              (index_answer (read_answer net (call_with_retry net 3 t chain call).0)) _ _
              (list_returns fuel t₁ (next_index i) pools (omega arith) (omega arith))
              (λ id.
                let t₂ = (call_with_retry net 3 t₁ chain (encode_pools_call id)).1 in
                let no_earlier = (call_with_retry_ticks net chain (encode_pools_call id) 3 t₁).0 in
                pool_returned chain i id pools
                  (pool_data net big_int chain
                    (read_answer net (call_with_retry net 3 t₁ chain (encode_pools_call id)).0))
                  _
                  (λ pools'.
                    list_returns fuel t₂ (next_index i) pools' (omega arith)
                      (omega (arith, no_earlier))))
      ]

  -- If the context ends at some tick, the listing of the pools of a supported chain ends, with a list,
  -- an error or a panic, on any fuel for the ticks up to there.
  pub handle_evm_pool_list-returned :
      (fuel t : ℕ)
      → 1 ≤ fuel
      → end < t + fuel
      → returned (handle_evm_pool_list net big_int chain fuel t) ≡ true
  unfolding handle_evm_pool_list list_on
  handle_evm_pool_list-returned fuel t some_fuel h = rw known (list_returns fuel t 0 [] some_fuel h)
