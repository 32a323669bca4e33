-- ===== src/Kubo/Watch/Limits.antt =====
-- How often the watch asks for a restart.
use go_fula.Prelude.{
  ℕ, ◌+◌, ◌≤◌, ◌<◌, String, Bool, false, Option, none, some, List, [], ◌∷◌, ◌++◌, ◌≡◌, refl, sym,
  ap, ◌∙◌, subst, ltb, length, length-append, inl, inr, Bool-cases, arith,
}
use go_fula.Kubo.{Kubo, Session}
use go_fula.Kubo.Watch.{
  Watch, Clock, within, prune, circuit_seen, recorded, watch_tick, watch_kubo_p2p, start_watch,
  max_restarts_per_window, min_time_between_fula_restarts, restart_rate_window,
}
use go_fula.Kubo.Watch.Moves.{Move, waits, finds, declines, restarts, watch_tick-Move}

-- A restart comes at least minTimeBetweenFulaRestarts behind the last.
unfoldable pub Apart : Option ℕ → ℕ → Type 0
Apart none t = Unit
Apart (some l) t = l + min_time_between_fula_restarts ≤ t

-- After some restarts, of which the last is given, the next come apart, and with those before it,
-- each is one of at most maxRestartsPerWindow in the window that ends with it.
unfoldable pub RateLimited : List ℕ → Option ℕ → List ℕ → Type 0
unfolding Apart prune
RateLimited past last [] = Unit
RateLimited past last (t ∷ times) =
    Apart last t
    × (length (prune t (past ++ (t ∷ []))) ≤ max_restarts_per_window)
    × RateLimited (past ++ (t ∷ [])) (some t) times

-- The readings of a tick that the limits depend on do not go back, nor do those of the next.
unfoldable pub Ticks : ℕ → List (Bool × Clock × String) → Type 0
Ticks at [] = Unit
Ticks at ((ok, c, server) ∷ turns) = (at ≤ c.since) × (c.since ≤ c.now) × Ticks c.now turns

prune-append : (m : ℕ) (xs ys : List ℕ) → prune m (xs ++ ys) ≡ prune m xs ++ prune m ys
unfolding prune
prune-append m [] ys = refl
prune-append m (t ∷ xs) ys = elim (Bool-cases (ltb m (t + restart_rate_window))) [
  | inl e ↦ rw (e, prune-append m xs ys) refl
  | inr e ↦ rw (e, prune-append m xs ys) refl
]

-- What is pruned now is pruned later.
prune-prune : (now m : ℕ) (xs : List ℕ) → now ≤ m → prune m (prune now xs) ≡ prune m xs
unfolding prune
prune-prune now m [] h = refl
prune-prune now m (t ∷ xs) h = elim (Bool-cases (ltb now (t + restart_rate_window))) [
  | inl e ↦ rw e (elim (Bool-cases (ltb m (t + restart_rate_window))) [
    | inl f ↦ rw (f, prune-prune now m xs h) refl
    | inr f ↦ rw (f, prune-prune now m xs h) refl
  ])
  | inr e ↦
      let over : ltb m (t + restart_rate_window) ≡ false = ground arith in
      rw (e, over, prune-prune now m xs h) refl
]

length-prune : (m t : ℕ) → length (prune m (t ∷ [])) ≤ 1
unfolding prune
length-prune m t = ground arith

-- The history has what a later tick would see of all restarts.
abbrev Kept : ℕ → List ℕ → List ℕ → Type 0
Kept at past history = (m : ℕ) → at ≤ m → prune m history ≡ prune m past

Kept-prune :
    (at now : ℕ) (past history : List ℕ)
    → at ≤ now
    → Kept at past history
    → Kept now past (prune now history)
Kept-prune at now past history h k m le = prune-prune now m history le ∙ k m (omega arith)

Kept-append :
    (at now : ℕ) (past history : List ℕ)
    → at ≤ now
    → Kept at past history
    → Kept now (past ++ (now ∷ [])) (prune now history ++ (now ∷ []))
Kept-append at now past history h k m le =
    prune-append m (prune now history) (now ∷ [])
    ∙ ap (λ x. x ++ prune m (now ∷ [])) (Kept-prune at now past history h k m le)
    ∙ sym (prune-append m past (now ∷ []))

within-Apart :
    (last : Option ℕ) (since now : ℕ)
    → within last min_time_between_fula_restarts since ≡ false
    → since ≤ now
    → Apart last now
unfolding within Apart
within-Apart none since now h le = tt
within-Apart (some l) since now h le = ground arith

few_enough :
    (now : ℕ) (past history : List ℕ)
    → prune now history ≡ prune now past
    → length (prune now history) < max_restarts_per_window
    → length (prune now (past ++ (now ∷ []))) ≤ max_restarts_per_window
few_enough now past history same few = rw (prune-append now past (now ∷ [])) (
    let few' = rw same at few in
    omega (arith, length-append (prune now past) (prune now (now ∷ [])), length-prune now now))

module _ (kubo : Kubo) where
  turn :
      (turns : List (Bool × Clock × String)) (c : Clock) (at : ℕ) (past : List ℕ) (w : Watch)
      (r : Option ℕ) (w' : Watch) (s' : Session)
      → Move c w r w'
      → at ≤ c.since
      → c.since ≤ c.now
      → Kept at past w.restart_history
      → ((past' : List ℕ)
          → Kept c.now past' w'.restart_history
          → RateLimited past' w'.last_restart_at (watch_kubo_p2p kubo turns (w', s')))
      → RateLimited past w.last_restart_at (recorded kubo r (watch_kubo_p2p kubo turns (w', s')))
  unfolding recorded RateLimited circuit_seen
  turn turns c at past w r w' s' (waits e l h f) a b kept rest =
      rw (e, sym l) (rest past (λ m le. rw h (kept m (omega arith))))
  turn turns c at past w r w' s' (finds e v) a b kept rest =
      rw (e, ap (λ x. x.last_restart_at) (sym v))
        (rest past (λ m le. rw (ap (λ x. x.restart_history) v) (kept m (omega arith))))
  turn turns c at past w r w' s' (declines e l h f) a b kept rest =
      rw (e, sym l) (rest past (λ m le. rw h (Kept-prune at c.now past _ (omega arith) kept m le)))
  turn turns c at past w r w' s' (restarts e apart few l h f) a b kept rest =
      let after =
        rest (past ++ (c.now ∷ []))
          (λ m le. rw h (Kept-append at c.now past _ (omega arith) kept m le)) in
      rw e (
        within-Apart w.last_restart_at c.since c.now apart b,
        few_enough c.now past w.restart_history (kept c.now (omega arith)) few,
        subst (λ x. RateLimited (past ++ (c.now ∷ [])) x (watch_kubo_p2p kubo turns (w', s'))) l
            after,
      )

  watch_limited :
      (turns : List (Bool × Clock × String)) (at : ℕ) (past : List ℕ) (w : Watch) (s : Session)
      → Ticks at turns
      → Kept at past w.restart_history
      → RateLimited past w.last_restart_at (watch_kubo_p2p kubo turns (w, s))
  unfolding Ticks watch_kubo_p2p RateLimited
  watch_limited [] at past w s ticks kept = tt
  watch_limited ((ok, c, server) ∷ turns) at past w s (a, b, ticks) kept =
      let (r, w', s') = watch_tick kubo ok c server (w, s) in
      turn turns c at past w r w' s' (watch_tick-Move ok c kubo server w s) a b kept
        (λ past' kept'. watch_limited turns c.now past' w' s' ticks kept')

  -- Whatever kubo answers, if the clock does not go back, each restart that the watch asks for comes
  -- at least 5 minutes (minTimeBetweenFulaRestarts) behind the one before it, and is one of at most 3
  -- (maxRestartsPerWindow) in the hour (restartRateWindow) that ends with it.
  pub watch_kubo_p2p-RateLimited :
      (turns : List (Bool × Clock × String)) (at : ℕ) (s : Session)
      → Ticks at turns
      → RateLimited [] none (watch_kubo_p2p kubo turns (start_watch at, s))
  unfolding start_watch
  watch_kubo_p2p-RateLimited turns at s ticks =
      watch_limited turns at [] (start_watch at) s ticks (λ m le. refl)
