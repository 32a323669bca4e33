-- ===== src/Pool/Join.antt =====
-- blockchain/bl_pool.go: HandlePoolJoin. A reply is its status with the message of the body, the
-- chain that the device joined on, or a panic of the handler.
pub mod Joined
mod Examples
use go_fula.Prelude.{ℕ, String, Bool, true, false, not, Option, none, some, ◌==◌, if◌then◌else◌}
use go_fula.Evm.Abi.Decoded.{Decoded, value, error, panic}
use go_fula.Pool.{World, Env, ℤ, itoa, to_uint32}
use go_fula.Pool.Settings.{update_pool_name, update_chain_name}
use go_fula.Pool.Status.{discover_pool_chain, validate_pool_on_chain}
use go_fula.Pool.Leave.{at_tick, or_skale}

pub record JoinRequest : Type 0 where
  pub pool_id : ℤ
  pub chain_name : String

pub data JoinReply : Type 0 where
  refused : ℕ → String → JoinReply
  accepted_on : String → JoinReply
  panicked : JoinReply

unfoldable pub after_chain_update : String → Bool × World → JoinReply × World
after_chain_update chain (false, w) =
    (refused 417 "Pool Join is submitted but Error in updating Chain Config", w)
after_chain_update chain (true, w) = (accepted_on chain, w)

module _ (env : Env) where
  unfoldable pub after_pool_update : String → Bool × World → JoinReply × World
  unfolding after_chain_update update_chain_name
  after_pool_update chain (false, w) =
      (refused 417 "Pool Join is submitted but Error in updating Pool Config", w)
  after_pool_update chain (true, w) = after_chain_update chain (update_chain_name env chain w)

  unfoldable pub after_validation : ℤ → String → World → Decoded Bool × ℕ → JoinReply × World
  unfolding after_pool_update update_pool_name at_tick
  after_validation pool_id chain w (value true, t) =
      after_pool_update chain (update_pool_name env (itoa pool_id) (at_tick t w))
  after_validation pool_id chain w (panic, t) = (panicked, at_tick t w)
  after_validation pool_id chain w (_, t) = (refused 400 "Pool validation failed", at_tick t w)

  unfoldable pub join_on : ℤ → World → Decoded String × ℕ → JoinReply × World
  unfolding after_validation validate_pool_on_chain at_tick
  join_on pool_id w (value chain, t) =
      after_validation pool_id chain w
        (validate_pool_on_chain env.net env.big_int t (to_uint32 pool_id) chain)
  join_on pool_id w (error, t) = (panicked, at_tick t w)
  join_on pool_id w (panic, t) = (panicked, at_tick t w)

  unfoldable pub join_chain : JoinRequest → ℕ → Decoded String × ℕ
  unfolding or_skale
  join_chain r t =
      let found = or_skale (discover_pool_chain env.net env.big_int t (to_uint32 r.pool_id)) in
      if r.chain_name == "" then found else (value r.chain_name, t)

  -- `none` is a body that cannot be parsed.
  unfoldable pub handle_pool_join : Option JoinRequest → World → JoinReply × World
  unfolding join_on join_chain
  handle_pool_join none w = (refused 400 "", w)
  handle_pool_join (some r) w = join_on r.pool_id w (join_chain r w.tick)
