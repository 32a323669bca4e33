-- ===== src/Kubo/Watch/Exhausted.antt =====
-- The failed restarts that the watch counts.
use go_fula.Prelude.{
  ℕ, ◌+◌, ◌≤◌, String, Bool, true, false, Option, some, List, [], ◌∷◌, ◌≡◌, refl, sym, ◌∙◌, subst,
  inl, inr, arith,
}
use go_fula.Kubo.{Kubo, Session}
use go_fula.Kubo.Watch.{
  Watch, Clock, within, elapsed, circuit_seen, recorded, watch_tick, watch_kubo_p2p,
  max_consecutive_failed_restarts, bounce_verify_grace_period,
}
use go_fula.Kubo.Watch.Moves.{Move, waits, finds, declines, restarts, Counted, watch_tick-Move}

-- All readings are behind the grace period of a restart.
unfoldable pub Behind : ℕ → List (Bool × Clock × String) → Type 0
Behind l [] = Unit
Behind l ((ok, c, server) ∷ turns) =
    (l + bounce_verify_grace_period ≤ c.recovered)
    × (l + bounce_verify_grace_period ≤ c.judged)
    × Behind l turns

-- The last restart was at l, and one more that failed would reach the limit.
abbrev Exhausted : ℕ → Watch → Type 0
Exhausted l w =
    (w.last_restart_at ≡ some l)
    × (max_consecutive_failed_restarts ≤ w.consecutive_failed_restarts + 1)

circuit_seen-Exhausted :
    (l : ℕ) (c : Clock) (w : Watch)
    → l + bounce_verify_grace_period ≤ c.recovered
    → Exhausted l w
    → Exhausted l (circuit_seen c w)
unfolding circuit_seen within
circuit_seen-Exhausted l c w le (last, failed) =
    let over : within (some l) bounce_verify_grace_period c.recovered ≡ false = ground arith in
    (last, rw last (rw over failed))

past_limit :
    (l : ℕ) (c : Clock) (w w' : Watch)
    → l + bounce_verify_grace_period ≤ c.judged
    → Exhausted l w
    → Counted c w w'
    → ⊥
unfolding elapsed max_consecutive_failed_restarts
past_limit l c w w' le (last, failed) (inl (e, more, few)) = omega arith
past_limit l c w w' le (last, failed) (inr (e, same)) =
    let over : elapsed (some l) bounce_verify_grace_period c.judged ≡ true = ground arith in
    absurd (cc (over, rw last at e))

module _ (kubo : Kubo) where
  turn_silent :
      (turns : List (Bool × Clock × String)) (l : ℕ) (c : Clock) (w : Watch) (r : Option ℕ)
      (w' : Watch) (s' : Session)
      → Move c w r w'
      → l + bounce_verify_grace_period ≤ c.recovered
      → l + bounce_verify_grace_period ≤ c.judged
      → Exhausted l w
      → (Exhausted l w' → watch_kubo_p2p kubo turns (w', s') ≡ [])
      → recorded kubo r (watch_kubo_p2p kubo turns (w', s')) ≡ []
  unfolding recorded
  turn_silent turns l c w r w' s' (waits e last h f) a b (known, many) rest =
      rw e (rest (last ∙ known, omega arith))
  turn_silent turns l c w r w' s' (finds e v) a b known rest =
      rw e (rest (subst (Exhausted l) (sym v) (circuit_seen-Exhausted l c w a known)))
  turn_silent turns l c w r w' s' (declines e last h f) a b (known, many) rest =
      rw e (rest (last ∙ known, omega arith))
  turn_silent turns l c w r w' s' (restarts e apart few last h counted) a b known rest =
      absurd (past_limit l c w w' b known counted)

  -- After two failed restarts that the watch has counted, and once the grace period of the last
  -- restart is over, the watch asks for no restart any more, whatever kubo answers and however much
  -- time goes by.
  pub watch_kubo_p2p-Behind :
      (turns : List (Bool × Clock × String)) (l : ℕ) (w : Watch) (s : Session)
      → w.last_restart_at ≡ some l
      → max_consecutive_failed_restarts ≤ w.consecutive_failed_restarts + 1
      → Behind l turns
      → watch_kubo_p2p kubo turns (w, s) ≡ []
  unfolding watch_kubo_p2p Behind
  watch_kubo_p2p-Behind [] l w s last failed behind = refl
  watch_kubo_p2p-Behind ((ok, c, server) ∷ turns) l w s last failed (a, b, behind) =
      let (r, w', s') = watch_tick kubo ok c server (w, s) in
      turn_silent turns l c w r w' s' (watch_tick-Move ok c kubo server w s) a b (last, failed)
        (λ known. watch_kubo_p2p-Behind turns l w' s' known.0 known.1 behind)
