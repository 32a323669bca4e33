-- ===== src/Pool/Listing/Bound.antt =====
-- How long the pool list is.
use go_fula.Prelude.{
  ℕ, zero, suc, ◌+◌, ◌≤◌, ◌<◌, ◌^◌, String, ◌≡◌, ◌≢◌, refl, false, Option, none, some, List, [],
  ◌∷◌, ◌++◌, eqb, ltb, length, length-append, arith, Bool-cases, inl, inr, All,
}
use go_fula.Evm.Hex.{Text}
use go_fula.Evm.Abi.{encode_pools_call, encode_pool_ids_call}
use go_fula.Evm.Abi.Strings.{Pool}
use go_fula.Evm.Abi.Decoded.{Decoded, value, error, panic}
use go_fula.Evm.Rpc.{ChainConfig, chain_config, Network, call_with_retry}
use go_fula.Pool.Membership.{read_answer}
use go_fula.Pool.Listing.{
  EvmPool, PoolList, listed, IndexAnswer, no_more, broken, pool_at, index_answer, pool_data,
  after_append, after_pool, after_index, next_index, list_pools, list_on, handle_evm_pool_list,
}

-- A pool is on the chain that was asked, and is not the pool 0.
abbrev pub Proper : String → EvmPool → Type 0
Proper chain e = (e.id ≢ 0) × (e.chain_name ≡ chain)

-- What the list holds, if there is one.
unfoldable pub Bounded : String → PoolList → Type 0
Bounded chain (listed pools) = (length pools ≤ 21) × All (Proper chain) pools
Bounded chain _ = Unit

-- What the loop keeps: as long as no index wraps, there are at most as many pools as indexes, and
-- at most 20.
abbrev Kept : String → ℕ → List EvmPool → Type 0
Kept chain i pools = (length pools ≤ i) × (length pools ≤ 20) × All (Proper chain) pools

append-Proper :
    (chain : String) (pools : List EvmPool) (e : EvmPool)
    → All (Proper chain) pools
    → Proper chain e
    → All (Proper chain) (pools ++ (e ∷ []))
append-Proper chain [] e h k = (k, tt)
append-Proper chain (x ∷ pools) e h k = (h.0, append-Proper chain pools e h.1 k)

next_same : (i : ℕ) → suc i < 2 ^ 32 → next_index i ≡ suc i
unfolding next_index
next_same i h = omega arith

pool-Bounded :
    (chain : String) (i id : ℕ) (pools : List EvmPool) (d : Decoded Pool)
    (next : List EvmPool → PoolList)
    → suc i < 2 ^ 32
    → id ≢ 0
    → Kept chain i pools
    → ((ps : List EvmPool) → Kept chain (suc i) ps → Bounded chain (next ps))
    → Bounded chain (after_pool chain i id pools d next)
unfolding after_pool after_append
pool-Bounded chain i id pools error next small there k h = h pools (omega (arith, k.0), k.1, k.2)
pool-Bounded chain i id pools panic next small there k h = unfold Bounded in tt
pool-Bounded chain i id pools (value p) next small there k h =
    let e : EvmPool = record { id = id; fields = p; chain_name = chain } in
    let all = append-Proper chain pools e k.2 (there, refl) in
    let size = length-append pools (e ∷ []) in
    elim (Bool-cases (ltb 20 (next_index i))) [
      | inl stop ↦ rw stop (unfold Bounded in (omega (arith, size, k.1), all))
      | inr on ↦
          let below : suc i ≤ 20 = rest_below i small on in
          rw on
            (h (pools ++ (e ∷ [])) (omega (arith, size, k.0), omega (arith, size, k.0, below), all))
    ]
  where
    rest_below : (i : ℕ) → suc i < 2 ^ 32 → ltb 20 (next_index i) ≡ false → suc i ≤ 20
    rest_below i small on = ground (arith, next_same i small)

index-Bounded :
    (chain : String) (pools : List EvmPool) (a : IndexAnswer) (skipped : PoolList)
    (next : ℕ → PoolList)
    → length pools ≤ 20
    → All (Proper chain) pools
    → Bounded chain skipped
    → ((id : ℕ) → id ≢ 0 → Bounded chain (next id))
    → Bounded chain (after_index pools a skipped next)
unfolding after_index
index-Bounded chain pools no_more skipped next small all h k =
    unfold Bounded in (omega (arith, small), all)
index-Bounded chain pools broken skipped next small all h k = unfold Bounded in tt
index-Bounded chain pools (pool_at id) skipped next small all h k = elim (Bool-cases (eqb id 0)) [
  | inl e ↦ rw e h
  | inr e ↦ rw e (k id (λ z. ground arith))
]

module _ (net : Network) (big_int : Text → ℕ) (chain : String) where
  list_pools-Bounded :
      (fuel t i : ℕ) (pools : List EvmPool)
      → i + fuel < 2 ^ 32
      → Kept chain i pools
      → Bounded chain (list_pools net big_int chain fuel t i pools)
  unfolding list_pools
  list_pools-Bounded zero t i pools small k = unfold Bounded in tt
  list_pools-Bounded (suc fuel) t i pools small k =
      let next : next_index i ≡ suc i = next_same i (omega arith) in
      let call = encode_pool_ids_call i in
      let (o, t₁) = call_with_retry net 3 t chain call in
      index-Bounded chain pools (index_answer (read_answer net o)) _ _ k.1 k.2
        (rw next
          (list_pools-Bounded fuel t₁ (suc i) pools (omega arith) (omega (arith, k.0), k.1, k.2)))
        (λ id there.
          let (o₂, t₂) = call_with_retry net 3 t₁ chain (encode_pools_call id) in
          pool-Bounded chain i id pools (pool_data net big_int chain (read_answer net o₂)) _
            (omega arith) there k
            (λ ps kept. rw next (list_pools-Bounded fuel t₂ (suc i) ps (omega arith) kept)))

  list_on-Bounded :
      (fuel t : ℕ) (o : Option ChainConfig)
      → fuel < 2 ^ 32
      → Bounded chain (list_on net big_int chain fuel t o)
  unfolding list_on
  list_on-Bounded fuel t none small = unfold Bounded in tt
  list_on-Bounded fuel t (some c) small =
      list_pools-Bounded fuel t 0 [] (omega arith) (omega arith, omega arith, tt)

  -- The list has at most 21 pools, all of the chain that was asked and none of them the pool 0, as
  -- long as no index wraps.
  pub handle_evm_pool_list-Bounded :
      (fuel t : ℕ) → fuel < 2 ^ 32 → Bounded chain (handle_evm_pool_list net big_int chain fuel t)
  unfolding handle_evm_pool_list
  handle_evm_pool_list-Bounded fuel t small = list_on-Bounded fuel t (chain_config chain) small
