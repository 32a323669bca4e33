-- ===== src/Kubo/Watch.antt =====
-- blox/kubo_proxy.go: watchKuboP2P, which keeps the listeners and the cluster forward in kubo and asks
-- the host to restart the services when the relay circuit is missing. Times are in nanoseconds.
pub mod Moves
pub mod Limits
pub mod Exhausted
mod Examples
use go_fula.Prelude.{
  ℕ, ◌+◌, ◌*◌, String, Bool, true, false, not, ◌&&◌, ◌||◌, Option, none, some, List, [], ◌∷◌, ◌++◌,
  ◌==◌, ltb, leb, if◌then◌else◌, length,
}
use go_fula.Kubo.{
  Kubo, Session, check_kubo_alive, check_kubo_p2p_listeners, check_cluster_forward,
  check_kubo_has_circuit_address, check_relay_peer_connected, register_kubo_protocols,
  register_cluster_forward,
}

abbrev pub minute : ℕ
minute = 60 * 1000000000

abbrev pub static_relay_peer_id : String
static_relay_peer_id = "12D3KooWDRrBaAfPwsGJivBoUw5fE7ZpDiyfUjqgiURq2DEcL835"

unfoldable pub relay_circuit_missing_threshold : ℕ
relay_circuit_missing_threshold = 2

unfoldable pub min_time_between_fula_restarts : ℕ
min_time_between_fula_restarts = 5 * minute

unfoldable pub max_restarts_per_window : ℕ
max_restarts_per_window = 3

unfoldable pub restart_rate_window : ℕ
restart_rate_window = 60 * minute

unfoldable pub bounce_verify_grace_period : ℕ
bounce_verify_grace_period = 3 * minute

unfoldable pub max_consecutive_failed_restarts : ℕ
max_consecutive_failed_restarts = 3

unfoldable pub long_cooldown_after_failures : ℕ
long_cooldown_after_failures = 60 * minute

unfoldable pub bootstrap_grace_period : ℕ
bootstrap_grace_period = 5 * minute

-- The variables of the loop; a zero time is `none`.
pub record Watch : Type 0 where
  pub consecutive_circuit_missing : ℕ
  pub last_restart_at : Option ℕ
  pub consecutive_failed_restarts : ℕ
  pub long_cooldown_until : Option ℕ
  pub restart_history : List ℕ
  pub has_seen_circuit : Bool
  pub startup_at : ℕ

unfoldable pub start_watch : ℕ → Watch
start_watch now = record {
  consecutive_circuit_missing = 0;
  last_restart_at = none;
  consecutive_failed_restarts = 0;
  long_cooldown_until = none;
  restart_history = [];
  has_seen_circuit = false;
  startup_at = now;
}

-- The readings of the clock on a tick, in their order: for the grace period of a restart, for the
-- bootstrap phase, for the long cooldown, for the time since the last restart, `now`, and for the
-- restart that failed.
pub record Clock : Type 0 where
  pub recovered : ℕ
  pub booting : ℕ
  pub cooling : ℕ
  pub since : ℕ
  pub now : ℕ
  pub judged : ℕ

-- Whether less than a duration has gone by since a time that is set.
unfoldable pub within : Option ℕ → ℕ → ℕ → Bool
within none period now = false
within (some t) period now = ltb now (t + period)

-- Whether a time is set, and at least a duration has gone by.
unfoldable pub elapsed : Option ℕ → ℕ → ℕ → Bool
elapsed none period now = false
elapsed (some t) period now = leb (t + period) now

unfoldable pub before_end : Option ℕ → ℕ → Bool
before_end none now = false
before_end (some end) now = ltb now end

-- The restarts of the window that ends now.
unfoldable pub prune : ℕ → List ℕ → List ℕ
prune now [] = []
prune now (t ∷ times) =
    let rest = prune now times in if ltb now (t + restart_rate_window) then t ∷ rest else rest

unfoldable pub circuit_seen : Clock → Watch → Watch
unfolding within
circuit_seen c w = record w {
  has_seen_circuit = true;
  consecutive_circuit_missing = 0;
  consecutive_failed_restarts =
      if within w.last_restart_at bounce_verify_grace_period c.recovered
      then 0
      else w.consecutive_failed_restarts;
}

-- signalFulaRestart was called, with or without an error.
unfoldable pub signalled : Bool → ℕ → Watch → Option ℕ × Watch
signalled false now w = (none, w)
signalled true now w = (
  some now,
  record w {
    last_restart_at = some now;
    restart_history = w.restart_history ++ (now ∷ []);
    consecutive_circuit_missing = 0;
  },
)

unfoldable pub after_failure : Bool → ℕ → Watch → Option ℕ × Watch
unfolding signalled
after_failure signal_ok now w =
    if leb max_consecutive_failed_restarts w.consecutive_failed_restarts
    then (
      none,
      record w {
        long_cooldown_until = some (now + long_cooldown_after_failures);
        consecutive_circuit_missing = 0;
      },
    )
    else signalled signal_ok now w

unfoldable pub judge_last : Bool → Clock → Watch → Option ℕ × Watch
unfolding elapsed after_failure signalled
judge_last signal_ok c w =
    if elapsed w.last_restart_at bounce_verify_grace_period c.judged
    then after_failure signal_ok c.now
        (record w { consecutive_failed_restarts = w.consecutive_failed_restarts + 1 })
    else signalled signal_ok c.now w

unfoldable pub limit_rate : Bool → Clock → Watch → Option ℕ × Watch
unfolding judge_last
limit_rate signal_ok c w =
    if leb max_restarts_per_window (length w.restart_history)
    then (none, w)
    else judge_last signal_ok c w

-- The gates behind the relay.
unfoldable pub gates : Bool → Clock → Watch → Option ℕ × Watch
unfolding before_end within limit_rate prune
gates signal_ok c w =
    if before_end w.long_cooldown_until c.cooling
    then (none, w)
    else if within w.last_restart_at min_time_between_fula_restarts c.since
    then (none, w)
    else limit_rate signal_ok c (record w { restart_history = prune c.now w.restart_history })

module _ (kubo : Kubo) where
  unfoldable pub restart_if_connected :
      Bool → Clock → Watch → Bool × Session → Option ℕ × Watch × Session
  unfolding gates
  restart_if_connected signal_ok c w (false, s) =
      (none, record w { consecutive_circuit_missing = 0 }, s)
  restart_if_connected signal_ok c w (true, s) =
      let (restart, w') = gates signal_ok c w in (restart, w', s)

  unfoldable pub count_missing : Bool → Clock → Watch → Session → Option ℕ × Watch × Session
  unfolding restart_if_connected check_relay_peer_connected
  count_missing signal_ok c w s =
      let w' = record w { consecutive_circuit_missing = w.consecutive_circuit_missing + 1 } in
      if ltb w'.consecutive_circuit_missing relay_circuit_missing_threshold
      then (none, w', s)
      else restart_if_connected signal_ok c w'
          (check_relay_peer_connected kubo static_relay_peer_id s)

  unfoldable pub after_circuit : Bool → Clock → Watch → Bool × Session → Option ℕ × Watch × Session
  unfolding circuit_seen count_missing
  after_circuit signal_ok c w (true, s) = (none, circuit_seen c w, s)
  after_circuit signal_ok c w (false, s) =
      if not w.has_seen_circuit && ltb c.booting (w.startup_at + bootstrap_grace_period)
      then (none, record w { consecutive_circuit_missing = 0 }, s)
      else count_missing signal_ok c w s

  -- The forward to the kubo of the pool's server, which is empty if it is not known.
  unfoldable pub forward_again : String → Session → Session
  unfolding register_cluster_forward
  forward_again server s = if server == "" then s else (register_cluster_forward kubo server s).1

  unfoldable pub check_forward : String → Session → Session
  unfolding check_cluster_forward forward_again
  check_forward server s =
      let (there, s') = check_cluster_forward kubo s in
      if server == "" then s else if there then s' else forward_again server s'

  unfoldable pub ensure_listeners : String → Bool × Session → Session
  unfolding check_forward forward_again register_kubo_protocols
  ensure_listeners server (true, s) = check_forward server s
  ensure_listeners server (false, s) =
      let (ok, s') = register_kubo_protocols kubo s in forward_again server s'

  unfoldable pub when_alive :
      Bool → Clock → String → Watch → Bool × Session → Option ℕ × Watch × Session
  unfolding ensure_listeners check_kubo_p2p_listeners after_circuit check_kubo_has_circuit_address
  when_alive signal_ok c server w (false, s) =
      (none, record w { consecutive_circuit_missing = 0 }, s)
  when_alive signal_ok c server w (true, s) =
      let s' = ensure_listeners server (check_kubo_p2p_listeners kubo s) in
      after_circuit signal_ok c w (check_kubo_has_circuit_address kubo s')

  -- A tick of the watch: the time of the restart that it asks for, if any.
  unfoldable pub watch_tick : Bool → Clock → String → Watch × Session → Option ℕ × Watch × Session
  unfolding when_alive check_kubo_alive
  watch_tick signal_ok c server (w, s) = when_alive signal_ok c server w (check_kubo_alive kubo s)

  unfoldable pub recorded : Option ℕ → List ℕ → List ℕ
  recorded none times = times
  recorded (some t) times = t ∷ times

  -- The restarts that are asked for over ticks; each has whether the marker file can be written, its
  -- readings of the clock, and the kubo of the pool's server.
  unfoldable pub watch_kubo_p2p : List (Bool × Clock × String) → Watch × Session → List ℕ
  unfolding watch_tick recorded
  watch_kubo_p2p [] state = []
  watch_kubo_p2p ((signal_ok, c, server) ∷ turns) state =
      let (restart, w, s) = watch_tick signal_ok c server state in
      recorded restart (watch_kubo_p2p turns (w, s))
