-- ===== src/Kubo/Watch/Examples.antt =====
-- Concrete runs of the watch.
use go_fula.Prelude.{ℕ, ◌*◌, String, Bool, true, false, none, some, List, [], ◌∷◌, ◌≡◌, refl, arith}
use go_fula.Evm.Hex.{codes}
use go_fula.Kubo.{Kubo, Session}
use go_fula.Kubo.Watch.{
  Clock, Watch, minute, start_watch, static_relay_peer_id, watch_kubo_p2p, bootstrap_grace_period,
  relay_circuit_missing_threshold, max_restarts_per_window, restart_rate_window,
  bounce_verify_grace_period, max_consecutive_failed_restarts, min_time_between_fula_restarts,
}
use go_fula.Kubo.Watch.Limits.{Ticks, RateLimited, watch_kubo_p2p-RateLimited}
use go_fula.Kubo.Watch.Exhausted.{Behind, watch_kubo_p2p-Behind}

-- A kubo that reaches its relay, and has the listeners, but no circuit.
abbrev kubo : Kubo
kubo = record {
  answer = λ t c. some (200, "body");
  parse_listeners = λ body. some (
      record {
        protocol = "/x/fula-blockchain";
        listen_address = codes "/p2p/Qm";
        target_address = [];
      }
      ∷ record { protocol = "/x/fula-ping"; listen_address = codes "/p2p/Qm"; target_address = [] }
      ∷ record {
        protocol = "/x/fula-cluster";
        listen_address = codes "/p2p/Qm";
        target_address = [];
      }
      ∷ []);
  parse_addresses = λ body. some (codes "/ip4/10.0.0.2" ∷ []);
  parse_peers = λ body. some (static_relay_peer_id ∷ []);
  mentions = λ body words. false;
  target_ip = λ t. codes "172.17.0.1";
}

abbrev session : Session
session = record { tick = 0; calls = [] }

abbrev read_at : ℕ → Clock
read_at t = record { recovered = t; booting = t; cooling = t; since = t; now = t; judged = t }

-- Ticks at the minutes 6, 7, 8 and 13.
abbrev ticks : List (Bool × Clock × String)
ticks =
    (true, read_at (6 * minute), "")
    ∷ (true, read_at (7 * minute), "")
    ∷ (true, read_at (8 * minute), "")
    ∷ (true, read_at (13 * minute), "")
    ∷ []

-- The second miss leads to a restart, the next but one to the second restart.
restarts_twice : watch_kubo_p2p kubo ticks (start_watch 0, session) ≡ 7 * minute ∷ 13 * minute ∷ []
unfolding watch_kubo_p2p start_watch bootstrap_grace_period relay_circuit_missing_threshold
    max_restarts_per_window min_time_between_fula_restarts restart_rate_window
    bounce_verify_grace_period max_consecutive_failed_restarts
restarts_twice = refl

forward_in_order : Ticks 0 ticks
unfolding Ticks
forward_in_order = (
  omega arith,
  omega arith,
  (omega arith, omega arith, (omega arith, omega arith, (omega arith, omega arith, tt))),
)

watch_kubo_p2p-RateLimited_example :
    RateLimited [] none (watch_kubo_p2p kubo ticks (start_watch 0, session))
watch_kubo_p2p-RateLimited_example =
    watch_kubo_p2p-RateLimited kubo ticks 0 session forward_in_order

-- After two failed restarts, the last of them a day before.
abbrev failed : Watch
failed = record (start_watch 0) { last_restart_at = some 0; consecutive_failed_restarts = 2 }

abbrev day : ℕ
day = 1440 * minute

abbrev later : List (Bool × Clock × String)
later = (true, read_at day, "") ∷ (true, read_at (2 * day), "") ∷ (true, read_at (3 * day), "") ∷ []

a_day_later : Behind 0 later
unfolding Behind bounce_verify_grace_period
a_day_later = (omega arith, omega arith, (omega arith, omega arith, (omega arith, omega arith, tt)))

watch_kubo_p2p-Behind_example : watch_kubo_p2p kubo later (failed, session) ≡ []
unfolding start_watch max_consecutive_failed_restarts
watch_kubo_p2p-Behind_example =
    watch_kubo_p2p-Behind kubo later 0 failed session refl (omega arith) a_day_later
