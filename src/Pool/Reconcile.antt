-- ===== src/Pool/Reconcile.antt =====
-- blockchain/bl_pool.go: ReconcilePoolConfig, readTimeMarker and writeTimeMarker. Times are in
-- nanoseconds; the marker has whole seconds.
pub mod Confirmed
pub mod Limited
pub mod Spaced
use go_fula.Prelude.{
  ℕ, ◌+◌, ◌-◌, ◌*◌, ◌%◌, String, Bool, true, false, ◌||◌, ◌&&◌, not, Option, none, some, ◌==◌, ltb,
  if◌then◌else◌,
}
use go_fula.Evm.Hex.{Text}
use go_fula.Evm.Abi.{text_eq}
use go_fula.Pool.{Config, File, World, Env, parse_uint32}
use go_fula.Pool.Settings.{
  no_pool, later, get_pool_name, get_chain_name, clear_pool_config, read_pool_member_confirmed,
  is_key, record_pool_member_confirmed,
}
use go_fula.Pool.Status.{Standing, cluster_peer_pool_status}
use go_fula.Pool.Leave.{at_tick, restart}

-- The results (false, nil), (true, nil) and an error.
pub data Pass : Type 0 where
  kept : Pass
  cleared : Pass
  failed : Pass

-- PoolReconcileMinInterval, 24 hours
abbrev pub min_interval : ℕ
min_interval = 24 * 3600 * 1000000000

-- A time formatted with time.RFC3339.
unfoldable pub whole_seconds : ℕ → ℕ
whole_seconds time = time - time % 1000000000

-- time.Since(clearedAt) < PoolReconcileMinInterval
unfoldable pub recent : Option ℕ → ℕ → Bool
recent none now = false
recent (some cleared_at) now = ltb now (cleared_at + min_interval)

unfoldable pub finish : Bool × World → Pass × World
unfolding restart
finish (false, w) = (failed, w)
finish (true, w) = (cleared, restart w)

unfoldable pub interfere : (Config × File → Config × File) → World → World
interfere others w = let (app, file) = others (w.app, w.file) in record w { app = app; file = file }

module _ (env : Env) where
  -- readTimeMarker of the marker of the last clear
  unfoldable pub read_cleared_at : World → Option ℕ × World
  unfolding later
  read_cleared_at w = (if env.can_read_mark w.tick then w.cleared_at else none, later w)

  unfoldable pub mark : ℕ → Option (Option ℕ) → World → Pass × World
  unfolding finish whole_seconds
  mark now none w =
      finish (clear_pool_config env (record w { cleared_at = some (whole_seconds now) }))
  mark now (some left) w = (failed, record w { cleared_at = left })

  -- The clear is recorded before it is done.
  unfoldable pub mark_and_clear : ℕ → World → Pass × World
  unfolding mark later
  mark_and_clear now w = mark now (env.mark_fails w.tick) (later w)

  unfoldable pub compare_chain : ℕ → Text → String → Bool → String × World → Pass × World
  unfolding mark_and_clear
  compare_chain now pool chain same_pool (chain', w) =
      if not same_pool || not (chain' == chain) then (kept, w) else mark_and_clear now w

  -- The second read of the chain name is made only if the pool is the same.
  unfoldable pub compare_config : ℕ → Text → String → Text × World → Pass × World
  unfolding compare_chain text_eq
  compare_config now pool chain (pool', w) =
      if text_eq pool' pool
      then compare_chain now pool chain true (get_chain_name env w)
      else (kept, w)

  unfoldable pub recheck_config : ℕ → Text → String → World → Pass × World
  unfolding compare_config interfere later
  recheck_config now pool chain w =
      compare_config now pool chain (get_pool_name env (interfere (env.meanwhile w.tick) (later w)))

  -- One answer of the chain, with `absent` for neither a member nor pending.
  unfoldable pub after_answer :
      String → Text → Option Standing → World → Pass × World → Pass × World
  unfolding record_pool_member_confirmed
  after_answer chain pool none w absent = (failed, w)
  after_answer chain pool (some s) w absent =
      if s.member
      then (kept, record_pool_member_confirmed env chain pool w)
      else if s.pending
      then (kept, w)
      else absent

  unfoldable pub second_check : ℕ → ℕ → Text → String → World → Pass × World
  unfolding after_answer recheck_config at_tick
  second_check now pool_id pool chain w =
      let (standing, t) =
        cluster_peer_pool_status env.net env.mb env.cluster w.tick pool_id chain in
      after_answer chain pool standing (at_tick t w) (recheck_config now pool chain (at_tick t w))

  -- The pool must have been seen as a membership before; then the pass waits.
  unfoldable pub after_confirmed : ℕ → ℕ → Text → String → Option Text × World → Pass × World
  unfolding second_check is_key later
  after_confirmed now pool_id pool chain (content, w) =
      if not (is_key content chain pool)
      then (kept, w)
      else if env.net.done w.tick
      then (failed, later w)
      else second_check now pool_id pool chain (later w)

  unfoldable pub first_check : ℕ → Text → String → World → Option ℕ → Pass × World
  unfolding after_answer after_confirmed read_pool_member_confirmed at_tick
  first_check now pool chain w none = (failed, w)
  first_check now pool chain w (some pool_id) =
      let (standing, t) =
        cluster_peer_pool_status env.net env.mb env.cluster w.tick pool_id chain in
      after_answer chain pool standing (at_tick t w)
        (after_confirmed now pool_id pool chain (read_pool_member_confirmed env (at_tick t w)))

  unfoldable pub unless_recent : ℕ → ℕ → Text → String → Option ℕ × World → Pass × World
  unfolding recent first_check
  unless_recent started marked pool chain (cleared_at, w) =
      if recent cleared_at started
      then (kept, w)
      else first_check marked pool chain w (parse_uint32 pool)

  unfoldable pub reconcile_configured : ℕ → ℕ → Text → String × World → Pass × World
  unfolding unless_recent read_cleared_at no_pool
  reconcile_configured started marked pool (chain, w) =
      if no_pool pool || (chain == "")
      then (kept, w)
      else unless_recent started marked pool chain (read_cleared_at w)

  unfoldable pub reconcile_chain : ℕ → ℕ → Text × World → Pass × World
  unfolding reconcile_configured
  reconcile_chain started marked (pool, w) =
      reconcile_configured started marked pool (get_chain_name env w)

  -- `started` is the clock when the pass looks at the marker, `marked` when it writes it.
  unfoldable pub reconcile_pool_config : ℕ → ℕ → World → Pass × World
  unfolding reconcile_chain later
  reconcile_pool_config started marked w =
      if env.disabled w.tick
      then (kept, later w)
      else if env.pool_host
      then (kept, later w)
      else reconcile_chain started marked (get_pool_name env (later w))
