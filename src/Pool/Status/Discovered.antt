-- ===== src/Pool/Status/Discovered.antt =====
-- What a discovered chain shows.
use go_fula.Prelude.{
  ℕ, String, true, false, Option, some, List, [], ◌∷◌, ◌≡◌, refl, sym, ap, ◌∙◌, ◌⊎◌, inl, inr, Bool,
  arith,
}
use go_fula.Evm.Hex.{Text}
use go_fula.Evm.Abi.Decoded.{Decoded, value, error, panic}
use go_fula.Evm.Rpc.{Network}
use go_fula.Pool.Status.{validate_pool_on_chain, found_on, first_valid, discover_pool_chain}

module _ (net : Network) (big_int : Text → ℕ) (pool_id : ℕ) where
  found_on-some :
      (c : String) (d : Decoded Bool) (t : ℕ) (rest : Decoded (Option String) × ℕ) {chain : String}
      → (found_on net c d t rest).0 ≡ value (some chain)
      → ((c ≡ chain) × (d ≡ value true)) ⊎ (rest.0 ≡ value (some chain))
  unfolding found_on
  found_on-some c (value true) t rest h = inl (ground arith, refl)
  found_on-some c (value false) t rest h = inr h
  found_on-some c error t rest h = inr h
  found_on-some c panic t rest h = cc

  -- Some answer of the chain says that the pool exists.
  unfoldable pub Exists : String → Type 0
  Exists chain = (t : ℕ) × ((validate_pool_on_chain net big_int t pool_id chain).0 ≡ value true)

  first_valid-Exists :
      (chains : List String) (t : ℕ) (chain : String)
      → (first_valid net big_int t pool_id chains).0 ≡ value (some chain)
      → Exists chain
  unfolding first_valid Exists
  first_valid-Exists [] t chain h = cc
  first_valid-Exists (c ∷ chains) t chain h =
      let asked = validate_pool_on_chain net big_int t pool_id c in
      elim (found_on-some c asked.0 asked.1 (first_valid net big_int asked.1 pool_id chains) h) [
        | inl (same, valid) ↦
            (t, ap (λ x. (validate_pool_on_chain net big_int t pool_id x).0) (sym same) ∙ valid)
        | inr rest ↦ first_valid-Exists chains asked.1 chain rest
      ]

  -- A chain that discoverPoolChain finds for a pool is one on which the pool was found to exist.
  pub discover_pool_chain-Exists :
      (t : ℕ) (chain : String)
      → (discover_pool_chain net big_int t pool_id).0 ≡ value (some chain)
      → Exists chain
  unfolding discover_pool_chain
  discover_pool_chain-Exists t chain h = first_valid-Exists ("skale" ∷ "base" ∷ []) t chain h
