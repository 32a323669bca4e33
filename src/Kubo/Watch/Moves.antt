-- ===== src/Kubo/Watch/Moves.antt =====
-- What a tick of the watch does to its variables.
use go_fula.Prelude.{
  ℕ, ◌+◌, ◌≤◌, ◌<◌, String, Bool, true, false, not, ◌&&◌, Option, none, some, [], ◌∷◌, ◌++◌, ◌≡◌,
  refl, ap, ltb, leb, length, ◌⊎◌, inl, inr, Bool-cases, arith,
}
use go_fula.Kubo.{
  Kubo, Session, check_kubo_alive, check_kubo_p2p_listeners, check_kubo_has_circuit_address,
  check_relay_peer_connected,
}
use go_fula.Kubo.Watch.{
  Watch, Clock, within, elapsed, before_end, prune, circuit_seen, signalled, after_failure,
  judge_last, limit_rate, gates, restart_if_connected, count_missing, after_circuit, when_alive,
  watch_tick, max_restarts_per_window, min_time_between_fula_restarts, bounce_verify_grace_period,
  max_consecutive_failed_restarts, relay_circuit_missing_threshold, bootstrap_grace_period,
  ensure_listeners, static_relay_peer_id,
}

-- What a restart counts as, by whether the one before it failed.
abbrev pub Counted : Clock → Watch → Watch → Type 0
Counted c w w' =
    ((elapsed w.last_restart_at bounce_verify_grace_period c.judged ≡ true)
      × (w'.consecutive_failed_restarts ≡ w.consecutive_failed_restarts + 1)
      × (w'.consecutive_failed_restarts < max_consecutive_failed_restarts))
    ⊎ ((elapsed w.last_restart_at bounce_verify_grace_period c.judged ≡ false)
        × (w'.consecutive_failed_restarts ≡ w.consecutive_failed_restarts))

-- A tick without a change of what the restarts are judged by, a tick that finds the circuit, a tick
-- behind the gates that does not restart, and a restart.
pub data Move (c : Clock) (w : Watch) (restart : Option ℕ) (w' : Watch) : Type 0 where
  waits :
      restart ≡ none
      → w'.last_restart_at ≡ w.last_restart_at
      → w'.restart_history ≡ w.restart_history
      → w'.consecutive_failed_restarts ≡ w.consecutive_failed_restarts
      → Move c w restart w'
  finds : restart ≡ none → w' ≡ circuit_seen c w → Move c w restart w'
  declines :
      restart ≡ none
      → w'.last_restart_at ≡ w.last_restart_at
      → w'.restart_history ≡ prune c.now w.restart_history
      → w.consecutive_failed_restarts ≤ w'.consecutive_failed_restarts
      → Move c w restart w'
  restarts :
      restart ≡ some c.now
      → within w.last_restart_at min_time_between_fula_restarts c.since ≡ false
      → length (prune c.now w.restart_history) < max_restarts_per_window
      → w'.last_restart_at ≡ some c.now
      → w'.restart_history ≡ prune c.now w.restart_history ++ (c.now ∷ [])
      → Counted c w w'
      → Move c w restart w'

module _ (ok : Bool) (c : Clock) where
  -- Behind the gates, with the pruned history.
  signalled-Move :
      (w v : Watch)
      → within w.last_restart_at min_time_between_fula_restarts c.since ≡ false
      → length (prune c.now w.restart_history) < max_restarts_per_window
      → v.last_restart_at ≡ w.last_restart_at
      → v.restart_history ≡ prune c.now w.restart_history
      → w.consecutive_failed_restarts ≤ v.consecutive_failed_restarts
      → Counted c w v
      → Move c w (signalled ok c.now v).0 (signalled ok c.now v).1
  unfolding signalled
  signalled-Move w v apart few last history more counted = elim (Bool-cases ok) [
    | inl e ↦ rw e (restarts refl apart few refl (ap (λ h. h ++ (c.now ∷ [])) history) counted)
    | inr e ↦ rw e (declines refl last history more)
  ]

  judge_last-Move :
      (w : Watch)
      → within w.last_restart_at min_time_between_fula_restarts c.since ≡ false
      → length (prune c.now w.restart_history) < max_restarts_per_window
      → Move c w
          (judge_last ok c (record w { restart_history = prune c.now w.restart_history })).0
          (judge_last ok c (record w { restart_history = prune c.now w.restart_history })).1
  unfolding judge_last after_failure
  judge_last-Move w apart few =
      let v = record w { restart_history = prune c.now w.restart_history } in
      elim (Bool-cases (elapsed w.last_restart_at bounce_verify_grace_period c.judged)) [
        | inr e ↦ rw e (signalled-Move w v apart few refl refl (omega arith) (inr (e, refl)))
        | inl e ↦
            let u = record v { consecutive_failed_restarts = w.consecutive_failed_restarts + 1 } in
            elim (Bool-cases
              (leb max_consecutive_failed_restarts (w.consecutive_failed_restarts + 1))) [
                | inl f ↦ rw (e, f) (declines refl refl refl (omega arith))
                | inr f ↦
                    rw (e, f)
                      (signalled-Move w u apart few refl refl (omega arith)
                        (inl (e, refl, ground arith)))
              ]
      ]

  gates-Move : (w : Watch) → Move c w (gates ok c w).0 (gates ok c w).1
  unfolding gates limit_rate
  gates-Move w = elim (Bool-cases (before_end w.long_cooldown_until c.cooling)) [
    | inl e ↦ rw e (waits refl refl refl refl)
    | inr e ↦ elim (Bool-cases (within w.last_restart_at min_time_between_fula_restarts c.since)) [
      | inl f ↦ rw (e, f) (waits refl refl refl refl)
      | inr f ↦
          elim (Bool-cases (leb max_restarts_per_window (length (prune c.now w.restart_history)))) [
            | inl g ↦ rw (e, f, g) (declines refl refl refl (omega arith))
            | inr g ↦ rw (e, f, g) (judge_last-Move w f (ground arith))
          ]
    ]
  ]

  module _ (kubo : Kubo) where
    restart_if_connected-Move :
        (w : Watch) (r : Bool × Session)
        → Move c w (restart_if_connected kubo ok c w r).0 (restart_if_connected kubo ok c w r).1
    unfolding restart_if_connected
    restart_if_connected-Move w (false, s) = waits refl refl refl refl
    restart_if_connected-Move w (true, s) = gates-Move w

    missing-Move :
        (w : Watch) (n : ℕ) (r : Option ℕ) (w' : Watch)
        → Move c (record w { consecutive_circuit_missing = n }) r w'
        → Move c w r w'
    unfolding circuit_seen
    missing-Move w n r w' (waits e l h f) = waits e l h f
    missing-Move w n r w' (finds e s) = finds e s
    missing-Move w n r w' (declines e l h f) = declines e l h f
    missing-Move w n r w' (restarts e a b l h f) = restarts e a b l h f

    count_missing-Move :
        (w : Watch) (s : Session)
        → Move c w (count_missing kubo ok c w s).0 (count_missing kubo ok c w s).1
    unfolding count_missing
    count_missing-Move w s =
        let v = record w { consecutive_circuit_missing = w.consecutive_circuit_missing + 1 } in
        elim (Bool-cases (ltb v.consecutive_circuit_missing relay_circuit_missing_threshold)) [
          | inl e ↦ rw e (waits refl refl refl refl)
          | inr e ↦ rw e (
              missing-Move w _ _ _ (
                restart_if_connected-Move v
                  (check_relay_peer_connected kubo static_relay_peer_id s)))
        ]

    after_circuit-Move :
        (w : Watch) (r : Bool × Session)
        → Move c w (after_circuit kubo ok c w r).0 (after_circuit kubo ok c w r).1
    unfolding after_circuit
    after_circuit-Move w (true, s) = finds refl refl
    after_circuit-Move w (false, s) =
        elim (Bool-cases
          (not w.has_seen_circuit && ltb c.booting (w.startup_at + bootstrap_grace_period))) [
            | inl e ↦ rw e (waits refl refl refl refl)
            | inr e ↦ rw e (count_missing-Move w s)
          ]

    when_alive-Move :
        (server : String) (w : Watch) (r : Bool × Session)
        → Move c w (when_alive kubo ok c server w r).0 (when_alive kubo ok c server w r).1
    unfolding when_alive
    when_alive-Move server w (false, s) = waits refl refl refl refl
    when_alive-Move server w (true, s) = after_circuit-Move w (
        check_kubo_has_circuit_address kubo
          (ensure_listeners kubo server (check_kubo_p2p_listeners kubo s)))

    -- A tick is a move of the variables of the watch.
    pub watch_tick-Move :
        (server : String) (w : Watch) (s : Session)
        → Move c w (watch_tick kubo ok c server (w, s)).0 (watch_tick kubo ok c server (w, s)).1
    unfolding watch_tick
    watch_tick-Move server w s = when_alive-Move server w (check_kubo_alive kubo s)
