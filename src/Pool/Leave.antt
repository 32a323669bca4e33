-- ===== src/Pool/Leave.antt =====
-- blockchain/bl_pool.go: HandlePoolLeave. A reply is its status with the message of the body, or a
-- panic of the handler.
pub mod Kept
use go_fula.Prelude.{
  ℕ, zero, suc, ◌+◌, String, Bool, true, false, ◌&&◌, ◌||◌, not, Option, none, some, ◌==◌, eqb,
  if◌then◌else◌,
}
use go_fula.Evm.Hex.{Text}
use go_fula.Evm.Abi.{text_eq}
use go_fula.Evm.Abi.Decoded.{Decoded, value, error, panic}
use go_fula.Pool.{World, Env, ℤ, itoa, to_uint32}
use go_fula.Pool.Settings.{no_pool, get_pool_name, get_chain_name, clear_pool_config}
use go_fula.Pool.Status.{Standing, cluster_peer_pool_status, discover_pool_chain}

pub record LeaveRequest : Type 0 where
  pub pool_id : ℤ
  pub chain_name : String

pub data LeaveReply : Type 0 where
  answer : ℕ → String → LeaveReply
  panicked : LeaveReply

-- The result of the membership checks: an error, still listed, or neither a member nor pending.
pub data LeaveCheck : Type 0 where
  unverified : LeaveCheck
  listed : LeaveCheck
  gone : LeaveCheck

-- The world when the environment has answered t times.
unfoldable pub at_tick : ℕ → World → World
at_tick t w = record w { tick = t }

unfoldable pub after_standing : Option Standing → Bool → Bool → ℕ → LeaveCheck × ℕ → LeaveCheck × ℕ
after_standing none last ended t rest = (unverified, t)
after_standing (some s) last ended t rest =
    if not (s.member || s.pending)
    then (gone, t)
    else if last
    then (listed, t)
    else if ended
    then (unverified, t)
    else rest

-- The chain to look at when neither the request nor the config names one.
unfoldable pub or_skale : Decoded (Option String) × ℕ → Decoded String × ℕ
or_skale (value (some chain), t) = (value chain, t)
or_skale (value none, t) = (value "skale", t)
or_skale (error, t) = (value "skale", t)
or_skale (panic, t) = (panic, t)

-- signalPoolConfigCleared
unfoldable pub restart : World → World
restart w = record w { restarts = w.restarts + 1 }

unfoldable pub after_clear : Bool × World → LeaveReply × World
unfolding restart
after_clear (false, w) = (answer 500 "Failed to update the Blox config", w)
after_clear (true, w) = (answer 202 "", restart w)

module _ (env : Env) where
  -- The loop over the attempts that are left.
  unfoldable pub check_left : ℕ → ℕ → ℕ → String → LeaveCheck × ℕ
  unfolding after_standing
  check_left zero t pool_id chain = (listed, t)
  check_left (suc attempts) t pool_id chain =
      let (standing, t') = cluster_peer_pool_status env.net env.mb env.cluster t pool_id chain in
      let rest = check_left attempts (t' + 1) pool_id chain in
      after_standing standing (eqb attempts 0) (env.net.done t') t' rest

  unfoldable pub after_check : World → LeaveCheck × ℕ → LeaveReply × World
  unfolding after_clear at_tick
  after_check w (unverified, t) = (answer 503 "Could not verify pool membership", at_tick t w)
  after_check w (listed, t) = (answer 409 "Still in the pool on-chain", at_tick t w)
  after_check w (gone, t) = after_clear (clear_pool_config env (at_tick t w))

  unfoldable pub chain_to_check : LeaveRequest → String → ℕ → Decoded String × ℕ
  unfolding or_skale
  chain_to_check r configured t =
      let found = or_skale (discover_pool_chain env.net env.big_int t (to_uint32 r.pool_id)) in
      if not (r.chain_name == "")
      then (value r.chain_name, t)
      else if not (configured == "")
      then (value configured, t)
      else found

  -- poolLeaveCheckAttempts is 3.
  unfoldable pub leave_chain :
      LeaveRequest → String → World → Decoded String × ℕ → LeaveReply × World
  unfolding after_check check_left at_tick
  leave_chain r configured w (value chain, t) =
      if not (configured == "") && not (configured == chain)
      then (answer 409 "Chain mismatch", at_tick t w)
      else after_check w (check_left 3 t (to_uint32 r.pool_id) chain)
  leave_chain r configured w (error, t) = (panicked, at_tick t w)
  leave_chain r configured w (panic, t) = (panicked, at_tick t w)

  unfoldable pub leave_configured_chain : LeaveRequest → String × World → LeaveReply × World
  unfolding leave_chain chain_to_check
  leave_configured_chain r (configured, w) =
      leave_chain r configured w (chain_to_check r configured w.tick)

  unfoldable pub leave_configured : LeaveRequest → Text × World → LeaveReply × World
  unfolding leave_configured_chain
  leave_configured r (configured, w) =
      if not (no_pool configured) && not (text_eq configured (itoa r.pool_id))
      then (answer 409 "Pool mismatch", w)
      else if no_pool configured
      then (answer 202 "", w)
      else leave_configured_chain r (get_chain_name env w)

  -- `none` is a body that cannot be parsed.
  unfoldable pub handle_pool_leave : Option LeaveRequest → World → LeaveReply × World
  unfolding leave_configured
  handle_pool_leave none w = (answer 400 "", w)
  handle_pool_leave (some r) w =
      if env.pool_host
      then (answer 409 "Pool host", w)
      else leave_configured r (get_pool_name env w)
