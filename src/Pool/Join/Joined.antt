-- ===== src/Pool/Join/Joined.antt =====
-- What an accepted join leaves.
use go_fula.Prelude.{
  ℕ, ◌<◌, ◌^◌, String, ◌≡◌, ◌∙◌, refl, sym, ap, subst, Bool, true, false, some, arith,
}
use go_fula.Evm.Abi.Decoded.{Decoded, value, error, panic}
use go_fula.Pool.{Config, holds, World, Env, ℤ, pos, itoa, to_uint32}
use go_fula.Pool.Settings.{update_pool_name, update_chain_name}
use go_fula.Pool.Settings.Cleared.{update_pool_name-file, update_chain_name-file, file_of, ok_of}
use go_fula.Pool.Status.{validate_pool_on_chain}
use go_fula.Pool.Status.Discovered.{Exists}
use go_fula.Pool.Leave.{at_tick}
use go_fula.Pool.Join.{
  JoinRequest, accepted_on, after_chain_update, after_pool_update, after_validation, join_on,
  join_chain, handle_pool_join,
}

abbrev pub member_of : ℤ → String → Config
member_of pool_id chain = record { pool_name = itoa pool_id; chain_name = chain }

module _ (env : Env) (pool_id : ℤ) (chain : String) where
  chain_update :
      (named : String) (v : Bool × World)
      → (after_chain_update named v).0 ≡ accepted_on chain
      → (named ≡ chain) × (ok_of v ≡ true) × ((after_chain_update named v).1 ≡ v.1)
  unfolding after_chain_update
  chain_update named (false, w) h = cc
  chain_update named (true, w) h = (ground arith, refl, refl)

  pool_update :
      (named : String) (c : Config) (v : Bool × World)
      → (ok_of v ≡ true
          → file_of v ≡ holds (record { pool_name = itoa pool_id; chain_name = c.chain_name }))
      → (after_pool_update env named v).0 ≡ accepted_on chain
      → (named ≡ chain) × ((after_pool_update env named v).1.file ≡ holds (member_of pool_id chain))
  unfolding after_pool_update
  pool_update named c (false, w) k h = cc
  pool_update named c (true, w) k h =
      let v = update_chain_name env named w in
      let (same, ok, after) = chain_update named v h in
      let stored =
        update_chain_name-file env named
          (record { pool_name = itoa pool_id; chain_name = c.chain_name }) w (k refl) ok in
      (same, ap (λ x. x.file) after ∙ stored ∙ ap (λ n. holds (member_of pool_id n)) same)

  validation :
      (named : String) (c : Config) (w : World) (v : Decoded Bool × ℕ)
      → w.file ≡ holds c
      → (after_validation env pool_id named w v).0 ≡ accepted_on chain
      → (v.0 ≡ value true)
        × (named ≡ chain)
        × ((after_validation env pool_id named w v).1.file ≡ holds (member_of pool_id chain))
  unfolding after_validation
  validation named c w (value true, t) k h =
      let w' = at_tick t w in
      let (same, stored) =
        pool_update named c (update_pool_name env (itoa pool_id) w')
          (update_pool_name-file env (itoa pool_id) c w' (unfold at_tick in k)) h in
      (refl, same, stored)
  validation named c w (value false, t) k h = cc
  validation named c w (error, t) k h = cc
  validation named c w (panic, t) k h = cc

  joined_on :
      (c : Config) (w : World) (v : Decoded String × ℕ)
      → w.file ≡ holds c
      → (join_on env pool_id w v).0 ≡ accepted_on chain
      → Exists env.net env.big_int (to_uint32 pool_id) chain
        × ((join_on env pool_id w v).1.file ≡ holds (member_of pool_id chain))
  unfolding join_on Exists
  joined_on c w (value named, t) k h =
      let (valid, same, stored) = validation named c w _ k h in
      (
        (
          t,
          ap (λ n. (validate_pool_on_chain env.net env.big_int t (to_uint32 pool_id) n).0)
                (sym same)
              ∙ valid,
        ),
        stored,
      )
  joined_on c w (error, t) k h = cc
  joined_on c w (panic, t) k h = cc

-- An accepted join of a pool whose number is one of 32 bits, on a device whose file held a config:
-- the chain answered that this pool exists on it, and the file holds this pool and the chain.
pub handle_pool_join-joined :
    (env : Env) (r : JoinRequest) (n : ℕ) (chain : String) (c : Config) (w : World)
    → r.pool_id ≡ pos n
    → n < 2 ^ 32
    → w.file ≡ holds c
    → (handle_pool_join env (some r) w).0 ≡ accepted_on chain
    → Exists env.net env.big_int n chain
      × ((handle_pool_join env (some r) w).1.file ≡ holds (member_of (pos n) chain))
unfolding handle_pool_join
handle_pool_join-joined env r n chain c w named small k h =
    let (valid, stored) = joined_on env r.pool_id chain c w (join_chain env r w.tick) k h in
    (
      subst (λ m. Exists env.net env.big_int m chain)
          (ap to_uint32 named ∙ unfold to_uint32 in omega (arith, small)) valid,
      stored ∙ ap (λ i. holds (member_of i chain)) named,
    )
